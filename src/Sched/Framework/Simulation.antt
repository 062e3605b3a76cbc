-- ===== src/Sched/Framework/Simulation.antt =====
-- The functions of sched.c that change the state, from __fork_on_schedule to __do_simulation.
--
-- The callbacks forked() and exiting() are NULL in all schedulers of pa2.c, so their calls are
-- left out. Freeing an exited process has no effect on the store; its status says that it is gone.
use os_pa.Common.{
  ℕ, zero, suc, ◌+◌, Bool, true, false, ◌&&◌, ◌||◌, not, Option, none, some, List, [], ◌∷◌, ◌++◌,
  leb, ◌==◌, if◌then◌else◌, is_empty, inc32, dec32,
}
use os_pa.Sched.Types.{Status, is_running, ResourceSchedule, System, Event, nr_resources}
use os_pa.Sched.Queues.{
  list_add_tail, list_del, contains, set_status, set_age, set_to_acquire, set_holding, print_event,
}
use os_pa.Sched.Policy.Tables.{Scheduler}

-- !list_empty(&p->list): p stands in some queue; the wait queues below `n` are searched.
unfoldable pub is_waiting : ℕ → ℕ → System → Bool
is_waiting zero p s = false
is_waiting (suc n) p s = contains p (s.resources n).waitqueue || is_waiting n p s

unfoldable pub is_detached : ℕ → System → Bool
unfolding is_waiting
is_detached p s =
    not (contains p s.readyqueue || contains p s.forkqueue || is_waiting nr_resources p s)

-- list_move_tail(&p->list, &readyqueue); p->status = PROCESS_READY;
abbrev pub fork_process : ℕ → System → System
fork_process p s =
    let t = record s {
      forkqueue = list_del p s.forkqueue;
      readyqueue = list_add_tail p s.readyqueue;
    } in
    print_event (Event.forked (t.procs p).pid) (set_status p Status.ready t)

-- The loop of __fork_on_schedule over the entries that __forkqueue had at its start, with the
-- count that it returns.
unfoldable pub fork_each : List ℕ → ℕ → System → ℕ × System
fork_each [] nr_forked s = (nr_forked, s)
fork_each (p ∷ queue) nr_forked s =
    let due = leb (s.procs p).starts_at s.ticks in
    fork_each queue (if due then nr_forked + 1 else nr_forked) (if due then fork_process p s else s)

unfoldable pub fork_on_schedule : System → ℕ × System
unfolding fork_each
fork_on_schedule s = fork_each s.forkqueue 0 s

-- __exit_process
unfoldable pub exit_process : ℕ → System → Option System
unfolding is_detached
exit_process p s =
    if is_detached p s
      && is_empty (s.procs p).resources_holding
      && is_empty (s.procs p).resources_to_acquire
    then some (print_event (Event.exited (s.procs p).pid) s)
    else none

-- What follows a successful call of the acquire() callback.
abbrev pub take_resource : ℕ → List ResourceSchedule → ResourceSchedule → System → System
take_resource c others rs s =
    let t = set_to_acquire c others s in
    let u = set_holding c ((t.procs c).resources_holding ++ rs ∷ []) t in
    print_event (Event.acquired (u.procs c).pid rs.resource_id) u

-- The loop of __run_current_acquire. `kept` holds the entries that it has passed, which stay in
-- __resources_to_acquire; the list is walked with `current`, the process c.
unfoldable pub acquire_each :
    Scheduler → ℕ → List ResourceSchedule → List ResourceSchedule → System → Option (Bool × System)
acquire_each sched c kept [] s = some (true, s)
acquire_each sched c kept (rs ∷ rest) s = elim (rs.at == (s.procs c).age) [
  | false ↦ acquire_each sched c (kept ++ rs ∷ []) rest s
  | true ↦ elim (sched.acquire rs.resource_id s) [
    | none ↦ none
    | some (got, t) ↦ elim got [
      | false ↦ some (false, print_event (Event.waits (t.procs c).pid rs.resource_id) t)
      | true ↦ acquire_each sched c kept rest (take_resource c (kept ++ rest) rs t)
    ]
  ]
]

unfoldable pub run_current_acquire : Scheduler → ℕ → System → Option (Bool × System)
unfolding acquire_each
run_current_acquire sched c s = acquire_each sched c [] (s.procs c).resources_to_acquire s

-- The loop of __run_current_release. An entry whose duration has not run down stays in
-- __resources_holding; the others are released, then unlinked and freed.
unfoldable pub release_each :
    Scheduler → ℕ → List ResourceSchedule → List ResourceSchedule → System → Option System
release_each sched c kept [] s = some s
release_each sched c kept (rs ∷ rest) s =
    let rs' = record rs { duration = dec32 rs.duration } in
    let t = set_holding c (kept ++ rs' ∷ rest) s in
    elim (rs'.duration == 0) [
      | false ↦ release_each sched c (kept ++ rs' ∷ []) rest t
      | true ↦ elim (sched.release rs'.resource_id t) [
        | none ↦ none
        | some u ↦ release_each sched c kept rest (
            set_holding c (kept ++ rest)
              (print_event (Event.released (u.procs c).pid rs'.resource_id) u))
      ]
    ]

unfoldable pub run_current_release : Scheduler → ℕ → System → Option System
unfolding release_each
run_current_release sched c s = release_each sched c [] (s.procs c).resources_holding s

-- The update of the process that ran in the previous tick.
abbrev pub stop_running : ℕ → System → System
stop_running p s = if is_running (s.procs p).status then set_status p Status.ready s else s

unfoldable pub retire : Option ℕ → System → Option System
unfolding exit_process
retire none s = some s
retire (some p) s =
    let t = stop_running p s in
    if (t.procs p).age == (t.procs p).lifespan
    then exit_process p (set_status p Status.exit t)
    else some t

-- current->age++; and the releases that are due
abbrev pub age_current : ℕ → System → System
age_current c s =
    let t = print_event (Event.ran (s.procs c).pid) s in set_age c (inc32 (t.procs c).age) t

-- The tick of a process after its acquisitions.
unfoldable pub progress : Scheduler → ℕ → Bool × System → Option System
unfolding run_current_release
progress sched c (false, s) = some s
progress sched c (true, s) = run_current_release sched c (age_current c s)

unfoldable pub execute : Scheduler → ℕ → System → Option System
unfolding is_detached run_current_acquire progress
execute sched c s =
    let t = set_status c Status.running s in
    if is_detached c t
    then elim (run_current_acquire sched c t) [ none ↦ none | some r ↦ progress sched c r ]
    else none

abbrev pub tick_done : System → System
tick_done s = record s { ticks = inc32 s.ticks }

-- One round of the loop of __do_simulation; `false` says that it breaks.
unfoldable pub run_tick : Scheduler → Option ℕ → System → Option (Bool × System)
unfolding execute
run_tick sched none s =
    if is_empty s.readyqueue && is_empty s.forkqueue
    then some (false, s)
    else some (true, tick_done (print_event Event.idle s))
run_tick sched (some c) s = elim (execute sched c s) [
  | none ↦ none
  | some t ↦ some (true, tick_done t)
]

-- prev = current; current = sched->schedule();
abbrev pub reschedule : Scheduler → System → System
reschedule sched s = let (next, t) = sched.schedule s in record t { current = next }

unfoldable pub round : Scheduler → System → Option (Bool × System)
unfolding fork_on_schedule retire run_tick
round sched s =
    let (nr_forked, t) = fork_on_schedule s in
    let u = reschedule sched t in
    elim (retire t.current u) [ none ↦ none | some v ↦ run_tick sched u.current v ]

-- __do_simulation, on fuel: what the run ends with.
pub data Outcome : Type 0 where
  finished : System → Outcome
  failed : Outcome
  out_of_fuel : Outcome

unfoldable pub do_simulation : ℕ → Scheduler → System → Outcome
unfolding round
do_simulation zero sched s = Outcome.out_of_fuel
do_simulation (suc fuel) sched s = elim (round sched s) [
  | none ↦ Outcome.failed
  | some (again, t) ↦ elim again [ true ↦ do_simulation fuel sched t | false ↦ Outcome.finished t ]
]

-- __initialize: the queues are empty and no resource is owned.
unfoldable pub initialize : System → System
initialize s = record s {
  readyqueue = [];
  resources = λ id. record { owner = none; waitqueue = [] };
  forkqueue = [];
}
