-- ===== src/Sched/Policy/Pick.antt =====
-- The selection loops of pa2.c: `list_for_each_entry(pos, queue, list)` that keeps the best entry
-- so far, from the first entry on. One loop, with the test of each scheduler.
pub mod First
use os_pa.Common.{ℕ, Bool, List, [], ◌∷◌, ltb, if◌then◌else◌, sub32}
use os_pa.Sched.Types.{Process}

-- pos->lifespan < next->lifespan
abbrev pub better_sjf : Process → Process → Bool
better_sjf pos next = ltb pos.lifespan next.lifespan

-- p->lifespan - p->age
abbrev pub remaining : Process → ℕ
remaining p = sub32 p.lifespan p.age

abbrev pub better_stcf : Process → Process → Bool
better_stcf pos next = ltb (remaining pos) (remaining next)

-- next->prio < pos->prio
abbrev pub better_prio : Process → Process → Bool
better_prio pos next = ltb next.prio pos.prio

-- The loop over the rest of the queue, with the best entry so far.
unfoldable pub pick : (Process → Process → Bool) → (ℕ → Process) → ℕ → List ℕ → ℕ
pick better procs next [] = next
pick better procs next (pos ∷ queue) =
    pick better procs (if better (procs pos) (procs next) then pos else next) queue
