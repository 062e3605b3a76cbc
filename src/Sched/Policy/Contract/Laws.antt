-- ===== src/Sched/Policy/Contract/Laws.antt =====
-- The laws of a scheduler: the comments on the callbacks in sched.h, made precise.
use os_pa.Common.{
  ℕ, ◌+◌, ◌<◌, ◌≡◌, Bool, true, false, Option, none, some, List, [], ◌∷◌, ◌++◌, All, ltb, ◌==◌,
  if◌then◌else◌, occurs,
}
use os_pa.Sched.Types.{Status, is_blocked, Process, System, nr_resources}
use os_pa.Sched.Policy.Contract.Entries.{TakesFirst}
use os_pa.Sched.Queues.{set_owner, set_ready, set_status, set_waitqueue}
use os_pa.Sched.Policy.Tables.{Scheduler}

abbrev pub unprio : System → System
unprio s = record s { procs = λ p. record (s.procs p) { prio = 0 } }

-- 1 if the process is the one that is chosen.
abbrev pub chosen : ℕ → Option ℕ → ℕ
chosen p none = 0
chosen p (some c) = if p == c then 1 else 0

-- 1 if the process is the current one, is not blocked and has time left.
abbrev pub running_on : ℕ → Option ℕ → System → ℕ
running_on p none s = 0
running_on p (some c) s =
    if is_blocked (s.procs c).status
    then 0
    else if ltb (s.procs c).age (s.procs c).lifespan
    then chosen p (some c)
    else 0

-- schedule(): only the ready queue changes. Each process stands in the new ready queue and in the
-- choice as often as it stood in the old one and ran on. Nothing is chosen only if nothing is left.
pub record Schedules (s : System) (r : Option ℕ × System) : Type 0 where
  pub only_ready : unprio r.1 ≡ unprio (set_ready r.1.readyqueue s)
  pub conserved :
      (p : ℕ)
      → occurs p r.1.readyqueue + chosen p r.0 ≡ occurs p s.readyqueue + running_on p s.current s
  pub working : r.0 ≡ none → r.1.readyqueue ≡ []

-- The process is blocked, and stands at the end of the wait queue.
abbrev pub waits_last : ℕ → ℕ → System → System
waits_last id c s =
    set_waitqueue id ((s.resources id).waitqueue ++ c ∷ []) (set_status c Status.blocked s)

-- The process goes from the wait queue, of which `rest` remains, to the end of the ready queue.
abbrev pub ready_again : ℕ → ℕ → List ℕ → System → System
ready_again id w rest t =
    set_ready (t.readyqueue ++ w ∷ []) (set_status w Status.ready (set_waitqueue id rest t))

-- acquire(): a free resource is taken, and at an owned one the current process c blocks.
pub data Acquires (id c : ℕ) (s : System) (r : Option (Bool × System)) : Type 0 where
  takes :
      (t : System)
      → (s.resources id).owner ≡ none
      → r ≡ some (true, t)
      → unprio t ≡ unprio (set_owner id (some c) s)
      → Acquires id c s r
  blocks :
      (t : System) (owner : ℕ)
      → (s.resources id).owner ≡ some owner
      → r ≡ some (false, t)
      → unprio t ≡ unprio (waits_last id c s)
      → Acquires id c s r

-- release(): the resource has no owner, and one waiter, if there is any, is ready.
pub data Releases (id : ℕ) (s : System) (r : Option System) : Type 0 where
  alone :
      (t : System)
      → (s.resources id).waitqueue ≡ []
      → r ≡ some t
      → unprio t ≡ unprio (set_owner id none s)
      → Releases id s r
  wakes :
      (t : System) (waiter : ℕ) (rest : List ℕ)
      → TakesFirst waiter (s.resources id).waitqueue rest
      → r ≡ some t
      → unprio t ≡ unprio (ready_again id waiter rest (set_owner id none s))
      → Releases id s r

-- Every process that waits for the resource is blocked.
abbrev pub AllBlocked : (ℕ → Process) → List ℕ → Type 0
AllBlocked procs = All (λ w. (procs w).status ≡ Status.blocked)

pub record Honours (sched : Scheduler) : Type 0 where
  pub schedules : (s : System) → Schedules s (sched.schedule s)
  pub acquires :
      (id c : ℕ) (s : System)
      → id < nr_resources
      → s.current ≡ some c
      → Acquires id c s (sched.acquire id s)
  pub releases :
      (id c : ℕ) (s : System)
      → id < nr_resources
      → s.current ≡ some c
      → (s.resources id).owner ≡ some c
      → AllBlocked s.procs (s.resources id).waitqueue
      → Releases id s (sched.release id s)
