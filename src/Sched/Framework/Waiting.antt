-- ===== src/Sched/Framework/Waiting.antt =====
-- Who waits for what: a process that waits for a resource wants it next, and the resource has an
-- owner that holds it, or a process that can run wants it next.
--
-- `hand p` is 1 for the process that is chosen or runs on, and 0 for the others.
pub mod Frame
pub mod Plans
pub mod Moves
pub mod Gives
use os_pa.Common.{
  ℕ, ◌+◌, ◌≤◌, ◌<◌, ◌≡◌, ◌⊎◌, ap, ◌∙◌, sym, subst, Option, none, some, List, [], ◌∷◌, All, occurs,
  ◌==◌, if◌then◌else◌,
}
use os_pa.Sched.Types.{ResourceSchedule, Process, System, nr_resources}
use os_pa.Sched.Policy.Contract.Laws.{chosen, running_on}
use os_pa.Sched.Framework.Safety.{queued}

abbrev pub ids : List ResourceSchedule → List ℕ
ids [] = []
ids (rs ∷ l) = rs.resource_id ∷ ids l

-- The first acquisition that is due at the age n.
unfoldable pub first_due : ℕ → List ResourceSchedule → Option ℕ
first_due n [] = none
first_due n (rs ∷ l) = let rest = first_due n l in if rs.at == n then some rs.resource_id else rest

abbrev pub Due : ℕ → Process → Type 0
Due i q = first_due q.age q.resources_to_acquire ≡ some i

abbrev pub Holds : ℕ → Process → Type 0
Holds i q = 0 < occurs i (ids q.resources_holding)

-- The acquisitions are in the order of time, and in that of the resources.
abbrev pub Ascending : List ResourceSchedule → Type 0
Ascending [] = Unit {0}
Ascending (rs ∷ l) = All (λ y. (rs.at ≤ y.at) × (rs.resource_id < y.resource_id)) l × Ascending l

-- What the process will acquire comes after what it holds.
abbrev pub Ordered : Process → Type 0
Ordered q =
    Ascending q.resources_to_acquire
    × All (λ y. All (λ x. x < y.resource_id) (ids q.resources_holding)) q.resources_to_acquire

-- The resource has an owner, or a process that can run wants it next.
pub data Served (hand : ℕ → ℕ) (s : System) (i : ℕ) : Type 0 where
  owned : (o : ℕ) → (s.resources i).owner ≡ some o → Served hand s i
  wanted : (q : ℕ) → 0 < occurs q s.readyqueue + hand q → Due i (s.procs q) → Served hand s i

-- The processes of `all` keep the order of the resources.
pub record Tidy (all : List ℕ) (hand : ℕ → ℕ) (s : System) : Type 0 where
  pub due :
      (i w : ℕ) → i < nr_resources → 0 < occurs w (s.resources i).waitqueue → Due i (s.procs w)
  pub holds : (i o : ℕ) → i < nr_resources → (s.resources i).owner ≡ some o → Holds i (s.procs o)
  pub there :
      (i o : ℕ) → i < nr_resources → (s.resources i).owner ≡ some o → 0 < queued o s + hand o
  pub served :
      (i w : ℕ) → i < nr_resources → 0 < occurs w (s.resources i).waitqueue → Served hand s i
  pub ordered : (p : ℕ) → 0 < occurs p all → Ordered (s.procs p)

-- A step that keeps this.
abbrev pub Carries : (hand : ℕ → ℕ) → System → (hand' : ℕ → ℕ) → System → Type 0
Carries hand s hand' t = (all : List ℕ) → Tidy all hand s → Tidy all hand' t

abbrev pub hand_of : Option ℕ → ℕ → ℕ
hand_of c p = chosen p c

-- The process of the last tick, if it runs on.
abbrev pub on_turn : Option ℕ → System → ℕ → ℕ
on_turn c s p = running_on p c s
