-- ===== src/Sched/Framework/Safety/Aged.antt =====
-- The process that runs is a tick older, and goes on to its releases.
use os_pa.Common.{
  none-ne-some, update_ne, ℕ, ◌+◌, ◌<◌, ◌≡◌, refl, sym, ap, ◌∙◌, subst, some, All, update_self,
  inc32, inc32_lem, ◌==◌, if_true, if_false, ==→eq, Bool-cases, inl, inr, arith,
}
use os_pa.Sched.Types.{Process, System, Event}
use os_pa.Sched.Queues.{print_event}
use os_pa.Sched.Policy.Tables.{Scheduler}
use os_pa.Sched.Policy.Contract.Laws.{chosen, Honours}
use os_pa.Sched.Framework.Simulation.{run_current_release, age_current}
use os_pa.Sched.Framework.Safety.{present, Plan, Held, Distinct, Good}
use os_pa.Sched.Framework.Safety.Places.{chosen_self}
use os_pa.Sched.Framework.Safety.Forks.{not_waiting}
use os_pa.Sched.Framework.Safety.Lists.{All-both, All-weaken}
use os_pa.Sched.Framework.Safety.Owners.{Acting}
use os_pa.Sched.Framework.Waiting.{ids, Carries, hand_of}
use os_pa.Sched.Framework.Waiting.Frame.{View, View-refl}
use os_pa.Sched.Framework.Waiting.Plans.{none_due}
use os_pa.Sched.Framework.Waiting.Gives.{Carries-age}
use os_pa.Sched.Framework.Safety.Hollow.{Hollow}
use os_pa.Sched.Framework.Safety.ReleaseLoop.{Charged, Emptied, run_current_release-Emptied}
use os_pa.Sched.Framework.Safety.Alike.{Placed-Alike, Placed-write, Good-write}

-- The process is a tick older; the other times, the places and the fork queue are as before.
pub record Older (c : ℕ) (s t : System) : Type 0 where
  pub age : (p : ℕ) → (t.procs p).age ≡ (s.procs p).age + chosen p (some c)
  pub lifespan : (p : ℕ) → (t.procs p).lifespan ≡ (s.procs p).lifespan
  pub starts_at : (p : ℕ) → (t.procs p).starts_at ≡ (s.procs p).starts_at
  pub ticks : t.ticks ≡ s.ticks
  pub fork : t.forkqueue ≡ s.forkqueue
  pub places : (p : ℕ) → present p (some c) t ≡ present p (some c) s

module _ (c : ℕ) (s : System) (a : Acting c s)
    (later : All (λ rs. (s.procs c).age < rs.at) (s.procs c).resources_to_acquire) where
  abbrev pub n : ℕ
  n = (s.procs c).age + 1

  good : Good s.resources c (s.procs c)
  good = a.valid.good c (omega (arith, chosen_self c))

  aged : Process
  aged = record (s.procs c) { age = inc32 (s.procs c).age }

  aged_lem : inc32 (s.procs c).age ≡ n
  aged_lem = inc32_lem (s.procs c).age (omega (arith, good.alive, good.small))

  here : (age_current c s).procs c ≡ aged
  unfolding aged
  here = update_self s.procs c aged

  printed : System
  printed = print_event (Event.ran (s.procs c).pid) s

  age_current-Hollow : Hollow n (s.procs c).lifespan c (age_current c s)
  unfolding aged printed
  age_current-Hollow = record {
    current = a.current;
    placed =
        Placed-write (some c) printed c aged
          (inr (not_waiting (some c) s c a.valid.placed (omega (arith, chosen_self c))))
          (Placed-Alike s printed
            (record {
              procs = λ q. refl;
              ready = refl;
              fork = refl;
              resources = refl;
              ticks = refl;
            })
            (some c) a.valid.placed);
    others = λ p ne k. Good-write printed c aged p (λ e. absurd (ne e)) (λ _. a.valid.good p k);
    status = ap (λ (q : Process). q.status) here ∙ a.status;
    age = ap (λ (q : Process). q.age) here ∙ aged_lem;
    lifespan = ap (λ (q : Process). q.lifespan) here;
    plans =
        subst (λ (q : Process). All (Plan n (s.procs c).lifespan) q.resources_to_acquire) (sym here)
          (All-both (λ rs. (s.procs c).age < rs.at) (Plan (s.procs c).age (s.procs c).lifespan)
            (Plan n (s.procs c).lifespan) (s.procs c).resources_to_acquire
            (λ rs k g. (omega (arith, k), g.1, g.2, g.3)) later good.plans);
  }

  charged :
      All
        (Charged c s.resources n (s.procs c).lifespan)
        ((age_current c s).procs c).resources_holding
  unfolding aged
  charged =
      subst
        (λ (q : Process). All (Charged c s.resources n (s.procs c).lifespan) q.resources_holding)
        (sym here)
        (All-weaken (Held c s.resources (s.procs c).age (s.procs c).lifespan)
          (Charged c s.resources n (s.procs c).lifespan) (s.procs c).resources_holding
          (λ rs h. (h.0, h.1, omega (arith, h.2), h.3)) good.holds)

  pub age_current-Older : Older c s (age_current c s)
  unfolding aged
  age_current-Older = record {
    age = λ p. elim (Bool-cases (c == p)) [
      | inl same ↦
          let own : chosen p (some c) ≡ 1 = ground (arith, same) in
          omega (
            arith,
            ap (λ (q : Process). q.age) (if_true aged (s.procs p) same),
            aged_lem,
            own,
            ap (λ x. (s.procs x).age) (==→eq c p same),
          )
      | inr other ↦
          let far : chosen p (some c) ≡ 0 = ground (arith, other) in
          omega (arith, ap (λ (q : Process). q.age) (if_false aged (s.procs p) other), far)
    ];
    lifespan = λ p. ground arith;
    starts_at = λ p. ground arith;
    ticks = refl;
    fork = refl;
    places = λ p. refl;
  }

  pub age_current-Carries : Carries (hand_of (some c)) s (hand_of (some c)) (age_current c s)
  unfolding aged printed
  age_current-Carries =
      Carries-age c s (age_current c s)
        (λ i e.
          none-ne-some i
            (sym (none_due (s.procs c).age (s.procs c).resources_to_acquire later) ∙ e))
        (λ p ne.
          subst (View (s.procs p)) (sym (update_ne s.procs c p aged ne)) (View-refl (s.procs p)))
        (not_waiting (some c) s c a.valid.placed (omega (arith, chosen_self c))) refl refl
        (λ p. refl) (ap (λ (q : Process). q.resources_to_acquire) here)
        (ap (λ (q : Process). ids q.resources_holding) here)

  pub progress-Emptied :
      (sched : Scheduler)
      → Honours sched
      → Emptied n
          (s.procs c).lifespan
          c
          (age_current c s)
          (run_current_release sched c (age_current c s))
  unfolding aged
  progress-Emptied sched honours =
      run_current_release-Emptied n (s.procs c).lifespan c sched honours (omega arith) good.small
        (age_current c s) age_current-Hollow charged
        (subst (λ (q : Process). Distinct q.resources_holding) (sym here) good.distinct)
