-- ===== src/Sched/Policy/Resources.antt =====
-- The acquire() and release() callbacks of pa2.c.
--
-- `resources + resource_id` stays in the array for an id below NR_RESOURCES; any other id is a
-- fault. So are a failed assertion, and a field access through a NULL `current` or owner.
use os_pa.Common.{ℕ, Bool, true, false, Option, none, some, List, [], ◌∷◌, ltb, if◌then◌else◌, same}
use os_pa.Sched.Types.{Status, is_blocked, System, nr_resources, max_prio}
use os_pa.Sched.Queues.{
  list_add_tail, list_del, set_status, set_prio, set_owner, set_waitqueue, set_ready,
}
use os_pa.Sched.Policy.Pick.{better_prio, pick}

-- current->status = PROCESS_BLOCKED; list_add_tail(&current->list, &r->waitqueue); return false;
abbrev pub block : ℕ → ℕ → System → System
block id c s =
    let t = set_status c Status.blocked s in
    set_waitqueue id (list_add_tail c (t.resources id).waitqueue) t

unfoldable pub block_current : ℕ → Option ℕ → System → Option (Bool × System)
block_current id none s = none
block_current id (some c) s = some (false, block id c s)

unfoldable pub fcfs_claim : ℕ → Option ℕ → System → Option (Bool × System)
unfolding block_current
fcfs_claim id none s = some (true, set_owner id s.current s)
fcfs_claim id (some owner) s = block_current id s.current s

unfoldable pub fcfs_acquire : ℕ → System → Option (Bool × System)
unfolding fcfs_claim
fcfs_acquire id s = if ltb id nr_resources then fcfs_claim id (s.resources id).owner s else none

-- The tail of a release: detach the waiter, make it ready, append it to the ready queue.
abbrev pub wake_up : ℕ → ℕ → System → System
wake_up id waiter s =
    let t = set_waitqueue id (list_del waiter (s.resources id).waitqueue) s in
    let u = set_status waiter Status.ready t in set_ready (list_add_tail waiter u.readyqueue) u

-- Both check the status of the first waiter; fcfs_release wakes it, and the others the waiter of
-- the highest priority.
unfoldable pub wake_first : ℕ → List ℕ → System → Option System
wake_first id [] s = some s
wake_first id (waiter ∷ queue) s =
    if is_blocked (s.procs waiter).status then some (wake_up id waiter s) else none

unfoldable pub wake_best : ℕ → List ℕ → System → Option System
wake_best id [] s = some s
wake_best id (waiter ∷ queue) s =
    if is_blocked (s.procs waiter).status
    then some (wake_up id (pick better_prio s.procs waiter (waiter ∷ queue)) s)
    else none

-- assert(r->owner == current)
abbrev pub owns : ℕ → System → Bool
owns id s = same (s.resources id).owner s.current

-- r->owner = NULL; then the wake-up.
abbrev pub disown_and_wake : (ℕ → List ℕ → System → Option System) → ℕ → System → Option System
disown_and_wake wake id s = let t = set_owner id none s in wake id (t.resources id).waitqueue t

unfoldable pub fcfs_release : ℕ → System → Option System
unfolding wake_first
fcfs_release id s =
    if ltb id nr_resources
    then if owns id s then disown_and_wake wake_first id s else none
    else none

unfoldable pub prio_release : ℕ → System → Option System
unfolding wake_best
prio_release id s =
    if ltb id nr_resources then if owns id s then disown_and_wake wake_best id s else none else none

-- r->owner = current; r->owner->prio = MAX_PRIO; return true;
unfoldable pub pcp_own : ℕ → Option ℕ → System → Option (Bool × System)
pcp_own id none s = none
pcp_own id (some c) s = some (true, set_prio c max_prio (set_owner id (some c) s))

unfoldable pub pcp_claim : ℕ → Option ℕ → System → Option (Bool × System)
unfolding pcp_own block_current
pcp_claim id none s = pcp_own id s.current s
pcp_claim id (some owner) s = block_current id s.current s

unfoldable pub pcp_acquire : ℕ → System → Option (Bool × System)
unfolding pcp_claim
pcp_acquire id s = if ltb id nr_resources then pcp_claim id (s.resources id).owner s else none

-- r->owner->prio = r->owner->prio_orig; r->owner = NULL; then the wake-up.
unfoldable pub restore_and_wake : ℕ → Option ℕ → System → Option System
unfolding wake_best
restore_and_wake id none s = none
restore_and_wake id (some owner) s =
    let t = set_prio owner (s.procs owner).prio_orig s in
    let u = set_owner id none t in wake_best id (u.resources id).waitqueue u

unfoldable pub pcp_release : ℕ → System → Option System
unfolding restore_and_wake
pcp_release id s =
    if ltb id nr_resources
    then if owns id s then restore_and_wake id (s.resources id).owner s else none
    else none

-- if (r->owner->prio < current->prio) r->owner->prio = current->prio;
abbrev pub inherit : ℕ → ℕ → System → System
inherit owner c s =
    if ltb (s.procs owner).prio (s.procs c).prio then set_prio owner (s.procs c).prio s else s

unfoldable pub pip_inherit : ℕ → ℕ → Option ℕ → System → Option (Bool × System)
unfolding block_current
pip_inherit id owner none s = none
pip_inherit id owner (some c) s = block_current id (some c) (inherit owner c s)

unfoldable pub pip_claim : ℕ → Option ℕ → System → Option (Bool × System)
unfolding pip_inherit
pip_claim id none s = some (true, set_owner id s.current s)
pip_claim id (some owner) s = pip_inherit id owner s.current s

unfoldable pub pip_acquire : ℕ → System → Option (Bool × System)
unfolding pip_claim
pip_acquire id s = if ltb id nr_resources then pip_claim id (s.resources id).owner s else none

unfoldable pub pip_release : ℕ → System → Option System
unfolding restore_and_wake
pip_release id s =
    if ltb id nr_resources
    then if owns id s then restore_and_wake id (s.resources id).owner s else none
    else none
