-- ===== src/Sched/Policy/Schedule.antt =====
-- The schedule() callbacks of pa2.c.
pub mod Choice
pub mod Aging
use os_pa.Common.{
  ℕ, Bool, true, false, Option, none, some, List, [], ◌∷◌, ltb, leb, if◌then◌else◌, update, inc32,
}
use os_pa.Sched.Types.{is_blocked, Process, System}
use os_pa.Sched.Queues.{list_add_tail, list_del, set_prio, set_ready}
use os_pa.Sched.Policy.Pick.{better_sjf, better_stcf, better_prio, pick}

-- list_del_init(&next->list); return next;
abbrev pub dispatch_ready : ℕ → System → Option ℕ × System
dispatch_ready next s = (some next, set_ready (list_del next s.readyqueue) s)

-- pick_next of fcfs_schedule and rr_schedule: the first process of the ready queue.
unfoldable pub pick_head : List ℕ → System → Option ℕ × System
pick_head [] s = (none, s)
pick_head (first ∷ queue) s = dispatch_ready first s

-- pick_next of sjf_schedule, stcf_schedule and prio_schedule: the loop starts at the first entry,
-- with the first entry as the best.
unfoldable pub pick_best : (Process → Process → Bool) → List ℕ → System → Option ℕ × System
pick_best better [] s = (none, s)
pick_best better (first ∷ queue) s = dispatch_ready (pick better s.procs first (first ∷ queue)) s

-- fcfs_schedule and sjf_schedule: a current process that is not blocked and has time left goes on.
unfoldable pub keep_or_pick : (System → Option ℕ × System) → Option ℕ → System → Option ℕ × System
keep_or_pick pick_next none s = pick_next s
keep_or_pick pick_next (some c) s =
    if is_blocked (s.procs c).status
    then pick_next s
    else if ltb (s.procs c).age (s.procs c).lifespan
    then (some c, s)
    else pick_next s

-- stcf_schedule, rr_schedule, prio_schedule and pa_schedule: such a process goes to the tail of
-- the ready queue first.
unfoldable pub requeue_current : Option ℕ → System → System
requeue_current none s = s
requeue_current (some c) s =
    if is_blocked (s.procs c).status
    then s
    else if ltb (s.procs c).age (s.procs c).lifespan
    then set_ready (list_add_tail c s.readyqueue) s
    else s

unfoldable pub fcfs_schedule : System → Option ℕ × System
unfolding keep_or_pick pick_head
fcfs_schedule s = keep_or_pick (λ t. pick_head t.readyqueue t) s.current s

unfoldable pub sjf_schedule : System → Option ℕ × System
unfolding keep_or_pick pick_best
sjf_schedule s = keep_or_pick (λ t. pick_best better_sjf t.readyqueue t) s.current s

unfoldable pub stcf_schedule : System → Option ℕ × System
unfolding requeue_current pick_best
stcf_schedule s = let t = requeue_current s.current s in pick_best better_stcf t.readyqueue t

unfoldable pub rr_schedule : System → Option ℕ × System
unfolding requeue_current pick_head
rr_schedule s = let t = requeue_current s.current s in pick_head t.readyqueue t

unfoldable pub prio_schedule : System → Option ℕ × System
unfolding requeue_current pick_best
prio_schedule s = let t = requeue_current s.current s in pick_best better_prio t.readyqueue t

-- The loop of pa_schedule, which raises the priority of every entry on its way:
-- if (next->prio <= pos->prio) next = pos; pos->prio++;
unfoldable pub pick_aging : ℕ → List ℕ → System → ℕ × System
pick_aging next [] s = (next, s)
pick_aging next (pos ∷ queue) s =
    pick_aging (if leb (s.procs next).prio (s.procs pos).prio then pos else next) queue
      (set_prio pos (inc32 (s.procs pos).prio) s)

-- next->prio = next->prio_orig; list_del_init(&next->list); return next;
abbrev pub reset_and_dispatch : ℕ × System → Option ℕ × System
reset_and_dispatch (next, s) = dispatch_ready next (set_prio next (s.procs next).prio_orig s)

unfoldable pub pick_aged : List ℕ → System → Option ℕ × System
unfolding pick_aging
pick_aged [] s = (none, s)
pick_aged (first ∷ queue) s = reset_and_dispatch (pick_aging first (first ∷ queue) s)

unfoldable pub pa_schedule : System → Option ℕ × System
unfolding requeue_current pick_aged
pa_schedule s = let t = requeue_current s.current s in pick_aged t.readyqueue t
