-- ===== src/Sched/Framework/Safety/Runs.antt =====
-- The loop of the simulation, by what its rounds return.
use os_pa.Common.{ℕ, zero, suc, ◌≡◌, ◌≢◌, refl, sym, ◌∙◌, subst, true, false, some}
use os_pa.Sched.Types.{System, Event}
use os_pa.Sched.Queues.{print_event}
use os_pa.Sched.Policy.Tables.{Scheduler}
use os_pa.Sched.Policy.Contract.Laws.{Honours}
use os_pa.Sched.Framework.Simulation.{tick_done, round, Outcome, do_simulation}
use os_pa.Sched.Framework.Safety.{Prev}
use os_pa.Sched.Framework.Safety.Rounds.{Round, round-Round}

-- The loop, by what its round returns.
pub simulation_stops :
    (fuel : ℕ) (sched : Scheduler) (s v : System)
    → round sched s ≡ some (false, v)
    → do_simulation (suc fuel) sched s ≡ Outcome.finished v
unfolding do_simulation
simulation_stops fuel sched s v e = rw (e, do_simulation) refl

pub simulation_goes :
    (fuel : ℕ) (sched : Scheduler) (s v : System)
    → round sched s ≡ some (true, v)
    → do_simulation (suc fuel) sched s ≡ do_simulation fuel sched v
unfolding do_simulation
simulation_goes fuel sched s v e = rw (e, do_simulation) refl

no_fuel : (sched : Scheduler) (s : System) → do_simulation zero sched s ≢ Outcome.failed
unfolding do_simulation
no_fuel sched s e = cc

finished-ne-failed : (v : System) → Outcome.finished v ≢ Outcome.failed
finished-ne-failed v e = cc

pub simulation_never_fails :
    (sched : Scheduler) (fuel : ℕ) (s : System)
    → Honours sched
    → Prev s s.current
    → do_simulation fuel sched s ≢ Outcome.failed
simulation_never_fails sched zero s honours prev = no_fuel sched s
simulation_never_fails sched (suc fuel) s honours prev = elim (round-Round sched honours s prev) [
  | Round.stops v _ got _ _ _ _ ↦
      λ e. finished-ne-failed v (sym (simulation_stops fuel sched s v got) ∙ e)
  | Round.idles v _ got next cur _ _ ↦
      let w = tick_done (print_event Event.idle v) in
      let more = simulation_never_fails sched fuel w honours (subst (Prev w) (sym cur) next) in
      λ e. more (sym (simulation_goes fuel sched s w got) ∙ e)
  | Round.acts c v x _ got _ cur next _ _ ↦
      let w = tick_done x in
      let more = simulation_never_fails sched fuel w honours (subst (Prev w) (sym cur) next) in
      λ e. more (sym (simulation_goes fuel sched s w got) ∙ e)
]
