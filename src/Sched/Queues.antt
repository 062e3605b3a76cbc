-- ===== src/Sched/Queues.antt =====
-- Operations on the queues and on the processes in the store, as pa2.c and sched.c use them.
--
-- `list_add_tail(&p->list, q)` appends the address to the queue. `list_del_init(&p->list)` takes
-- it out of the queue in which it stands.
use os_pa.Common.{ℕ, Bool, false, ◌||◌, Option, List, [], ◌∷◌, ◌++◌, ◌==◌, if◌then◌else◌, update}
use os_pa.Sched.Types.{Status, ResourceSchedule, System, Event}

abbrev pub list_add_tail : ℕ → List ℕ → List ℕ
list_add_tail p q = q ++ p ∷ []

abbrev pub list_del : ℕ → List ℕ → List ℕ
list_del p [] = []
list_del p (x ∷ xs) = if p == x then xs else x ∷ list_del p xs

abbrev pub contains : ℕ → List ℕ → Bool
contains p [] = false
contains p (x ∷ xs) = p == x || contains p xs

-- Writes to the fields of the process at an address.
abbrev pub set_status : ℕ → Status → System → System
set_status p st s = record s { procs = update s.procs p (record (s.procs p) { status = st }) }

abbrev pub set_prio : ℕ → ℕ → System → System
set_prio p n s = record s { procs = update s.procs p (record (s.procs p) { prio = n }) }

abbrev pub set_age : ℕ → ℕ → System → System
set_age p n s = record s { procs = update s.procs p (record (s.procs p) { age = n }) }

abbrev pub set_to_acquire : ℕ → List ResourceSchedule → System → System
set_to_acquire p l s = record s {
  procs = update s.procs p (record (s.procs p) { resources_to_acquire = l });
}

abbrev pub set_holding : ℕ → List ResourceSchedule → System → System
set_holding p l s = record s {
  procs = update s.procs p (record (s.procs p) { resources_holding = l });
}

abbrev pub set_owner : ℕ → Option ℕ → System → System
set_owner id p s = record s {
  resources = update s.resources id (record (s.resources id) { owner = p });
}

abbrev pub set_waitqueue : ℕ → List ℕ → System → System
set_waitqueue id q s = record s {
  resources = update s.resources id (record (s.resources id) { waitqueue = q });
}

abbrev pub set_ready : List ℕ → System → System
set_ready q s = record s { readyqueue = q }

-- __print_event: the tick and the event.
abbrev pub print_event : Event → System → System
print_event e s = record s { events = (s.ticks, e) ∷ s.events }
