-- ===== src/Sched/Framework/Safety/Execute.antt =====
-- The tick of the current process: execute of sched.c.
use os_pa.Common.{
  ℕ, ◌+◌, ◌≡◌, refl, ap, ◌∙◌, Bool, true, false, Option, none, some, update_self, if_true, inr,
  arith,
}
use os_pa.Sched.Types.{Status, is_blocked, Process, System}
use os_pa.Sched.Queues.{set_status}
use os_pa.Sched.Policy.Tables.{Scheduler}
use os_pa.Sched.Policy.Contract.Laws.{Honours}
use os_pa.Sched.Framework.Simulation.{
  is_detached, run_current_acquire, age_current, progress, execute,
}
use os_pa.Sched.Framework.Safety.{Valid, Prev}
use os_pa.Sched.Framework.Safety.Places.{chosen_self, detached}
use os_pa.Sched.Framework.Safety.Forks.{not_waiting}
use os_pa.Sched.Framework.Safety.Owners.{Acting}
use os_pa.Sched.Framework.Safety.AcquireLoop.{Acquired, run_current_acquire-Acquired}
use os_pa.Sched.Framework.Safety.Aged.{age_current-Older, progress-Emptied, age_current-Carries}
use os_pa.Sched.Framework.Safety.Ticks.{Executed, Older-steps, left-Prev, left-Carries}
use os_pa.Sched.Framework.Waiting.{Carries, hand_of, on_turn}
use os_pa.Sched.Framework.Waiting.Frame.{set_status-Still, Carries-frame, Carries-hand}
use os_pa.Sched.Framework.Safety.Alike.{Valid-set_status, Steady-trans, set_status-Steady}

module _ (sched : Scheduler) (honours : Honours sched) (c : ℕ) (s : System)
    (valid : Valid (some c) s) (current : s.current ≡ some c) where
  started : System
  started = set_status c Status.running s

  started-Acting : Acting c started
  unfolding started
  started-Acting = record {
    current = current;
    valid =
        Valid-set_status (some c) s c Status.running
          (inr (not_waiting (some c) s c valid.placed (omega (arith, chosen_self c)))) valid;
    status =
        ap (λ (q : Process). q.status)
          (update_self s.procs c (record (s.procs c) { status = Status.running }));
  }

  started-Carries : Carries (hand_of (some c)) s (hand_of (some c)) started
  unfolding started
  started-Carries =
      Carries-frame (hand_of (some c)) (hand_of (some c)) s started
        (set_status-Still c Status.running s) (λ i. refl) (λ i w. omega arith) (λ p. omega arith)
        (λ p. omega arith)

  detached_lem : is_detached c started ≡ true
  unfolding started
  detached_lem = detached c started (omega (arith, chosen_self c, valid.placed.once c))

  stage :
      (r : Option (Bool × System))
      → run_current_acquire sched c started ≡ r
      → (elim (run_current_acquire sched c started) [ none ↦ none | some x ↦ progress sched c x ])
        ≡ (elim r [ none ↦ none | some x ↦ progress sched c x ])
  stage r e = ap (λ o. elim o [ none ↦ none | some x ↦ progress sched c x ]) e

  -- The tick after the acquisitions.
  Acquired-Executed :
      Acquired c started (run_current_acquire sched c started) → Executed c s (execute sched c s)
  unfolding started execute progress
  Acquired-Executed (Acquired.waits t got cur v blocked waiting steady places carries) =
      Executed.waits t (if_true _ _ detached_lem ∙ stage (some (false, t)) got) cur
        (Prev.waits c v blocked waiting)
        (Steady-trans s started t (set_status-Steady c Status.running s) steady) places blocked
        (λ all h.
          Carries-hand (hand_of none) (on_turn (some c) t) t
            (λ p. if_true _ _ (ap is_blocked blocked)) all (carries all (started-Carries all h)))
  Acquired-Executed (Acquired.all t got acting later steady places carries) =
      let e = progress-Emptied c t acting later sched honours in
      let g = acting.valid.good c (omega (arith, chosen_self c)) in
      let k = Steady-trans s started t (set_status-Steady c Status.running s) steady in
      Executed.ran e.t (if_true _ _ detached_lem ∙ stage (some (true, t)) got ∙ e.result)
        e.hollow.current
        (left-Prev ((t.procs c).age + 1) (t.procs c).lifespan c (age_current c t) _ e
          (omega (arith, g.alive)) g.small)
        (Older-steps c s t (age_current c t) e.t k places (age_current-Older c t acting later)
          e.times)
        (omega (arith, g.alive, k.age c, k.lifespan c))
        (λ all h.
          left-Carries ((t.procs c).age + 1) (t.procs c).lifespan c (age_current c t) _ e
            (omega (arith, g.alive)) g.small all
            (e.carries all
              (age_current-Carries c t acting later all (carries all (started-Carries all h)))))

  pub execute-Executed : Executed c s (execute sched c s)
  unfolding started
  execute-Executed =
      Acquired-Executed (run_current_acquire-Acquired sched c honours started started-Acting)
