-- ===== src/Sched/Framework/Safety/Ticks.antt =====
-- The tick of the running process keeps the invariant.
use os_pa.Common.{
  none, lt→ltb, ge→ltb, ℕ, ◌≤◌, ◌<◌, ◌≡◌, refl, sym, ap, ◌∙◌, subst, Option, none, some, List, [],
  ◌∷◌, All, u32_mod, ◌==◌, if_true, if_false, ==→eq, ==→ne, Bool-cases, inl, inr, arith, ltb,
  ltb→lt, ltb→ge,
}
use os_pa.Sched.Types.{Status, is_blocked, System}
use os_pa.Sched.Policy.Contract.Laws.{chosen, running_on}
use os_pa.Sched.Framework.Safety.{queued, present, Plan, Held, Good, Prev}
use os_pa.Sched.Framework.Waiting.{Carries, hand_of, on_turn}
use os_pa.Sched.Framework.Waiting.Frame.{Carries-hand}
use os_pa.Sched.Framework.Waiting.Gives.{Carries-end}
use os_pa.Sched.Framework.Safety.Hollow.{Times, nowhere_else}
use os_pa.Sched.Framework.Safety.ReleaseLoop.{Emptied}
use os_pa.Sched.Framework.Safety.Alike.{Steady}
use os_pa.Sched.Framework.Safety.Aged.{Older}

none_left {ℓ κ} :
    {A : Type ℓ} (P : A → Type κ) (xs : List A) → ((x : A) → P x → ⊥) → All P xs → xs ≡ []
none_left P [] f h = refl
none_left P (x ∷ xs) f h = absurd (f x h.0)

-- What the tick leaves, in the words of the next round.
module _ (n m c : ℕ) (s : System) (r : Option System) (e : Emptied n m c s r) (bound : n ≤ m)
    (small : m < u32_mod) where
  left_status : (e.t.procs c).status ≡ Status.running
  left_status = e.hollow.status

  timed_plans :
      All (Plan (e.t.procs c).age (e.t.procs c).lifespan) (e.t.procs c).resources_to_acquire
  timed_plans =
      subst (λ x. All (Plan x (e.t.procs c).lifespan) (e.t.procs c).resources_to_acquire)
        (sym e.hollow.age)
        (subst (λ y. All (Plan n y) (e.t.procs c).resources_to_acquire) (sym e.hollow.lifespan)
          e.hollow.plans)

  timed_holds :
      All
        (Held c e.t.resources (e.t.procs c).age (e.t.procs c).lifespan)
        (e.t.procs c).resources_holding
  timed_holds =
      subst
        (λ x. All (Held c e.t.resources x (e.t.procs c).lifespan) (e.t.procs c).resources_holding)
        (sym e.hollow.age)
        (subst (λ y. All (Held c e.t.resources n y) (e.t.procs c).resources_holding)
          (sym e.hollow.lifespan) e.holds)

  alive-Prev : n < m → Prev e.t (some c)
  alive-Prev lt =
      let good : Good e.t.resources c (e.t.procs c) = record {
        alive = omega (arith, lt, e.hollow.age, e.hollow.lifespan);
        small = omega (arith, small, e.hollow.lifespan);
        plans = timed_plans;
        holds = timed_holds;
        distinct = e.distinct;
      } in
      Prev.runs c
        (record {
          placed = e.hollow.placed;
          good = λ p k. elim (Bool-cases (c == p)) [
            | inl same ↦ subst (λ x. Good e.t.resources x (e.t.procs x)) (==→eq c p same) good
            | inr other ↦ e.hollow.others p (==→ne c p other) k
          ];
        })
        left_status

  ended-Prev : n ≡ m → Prev e.t (some c)
  ended-Prev over =
      let gone = nowhere_else n m c e.t e.hollow in
      Prev.ends c
        (record {
          placed = record {
            once = λ p. omega (arith, e.hollow.placed.once p);
            blocked = e.hollow.placed.blocked;
          };
          good = λ p k.
              e.hollow.others p (λ x. omega (arith, gone, k, ap (λ y. queued y e.t) x))
                (omega (arith, k));
        })
        left_status
        (record {
          gone = gone;
          over = e.hollow.age ∙ over ∙ sym e.hollow.lifespan;
          released =
              none_left (Held c e.t.resources n m) (e.t.procs c).resources_holding
                (λ x h. omega (arith, over, h.1, h.2)) e.holds;
          acquired =
              none_left (Plan n m) (e.t.procs c).resources_to_acquire
                (λ x h. omega (arith, over, h.0, h.1, h.2)) e.hollow.plans;
        })

  pub left-Prev : Prev e.t (some c)
  left-Prev = elim (Bool-cases (ltb n m)) [
    | inl lt ↦ alive-Prev (ltb→lt n m lt)
    | inr ge ↦ ended-Prev (omega (arith, bound, ltb→ge n m ge))
  ]

  still_running : n < m → (p : ℕ) → running_on p (some c) e.t ≡ chosen p (some c)
  still_running lt p =
      if_false _ _ (ap is_blocked left_status)
      ∙ if_true _ _ (
          lt→ltb (e.t.procs c).age (e.t.procs c).lifespan
            (omega (arith, lt, e.hollow.age, e.hollow.lifespan)))

  over : n ≡ m → (p : ℕ) → running_on p (some c) e.t ≡ 0
  over same p =
      if_false _ _ (ap is_blocked left_status)
      ∙ if_false _ _ (
          ge→ltb (e.t.procs c).age (e.t.procs c).lifespan
            (omega (arith, same, e.hollow.age, e.hollow.lifespan)))

  ended-Carries : n ≡ m → Carries (hand_of (some c)) e.t (hand_of none) e.t
  ended-Carries same =
      Carries-end c e.t
        (none_left (Held c e.t.resources n m) (e.t.procs c).resources_holding
          (λ x h. omega (arith, same, h.1, h.2)) e.holds)
        (none_left (Plan n m) (e.t.procs c).resources_to_acquire
          (λ x h. omega (arith, same, h.0, h.1, h.2)) e.hollow.plans)

  pub left-Carries : Carries (hand_of (some c)) e.t (on_turn (some c) e.t) e.t
  left-Carries = elim (Bool-cases (ltb n m)) [
    | inl lt ↦
        Carries-hand (hand_of (some c)) (on_turn (some c) e.t) e.t (still_running (ltb→lt n m lt))
    | inr ge ↦
        let same : n ≡ m = omega (arith, bound, ltb→ge n m ge) in
        λ all h.
          Carries-hand (hand_of none) (on_turn (some c) e.t) e.t (over same) all
            (ended-Carries same all h)
  ]

-- The state after a tick of the process: it has run, or it waits.
pub data Executed (c : ℕ) (s : System) (r : Option System) : Type 0 where
  ran :
      (t : System)
      → r ≡ some t
      → t.current ≡ some c
      → Prev t (some c)
      → Older c s t
      → (s.procs c).age < (s.procs c).lifespan
      → Carries (hand_of (some c)) s (on_turn (some c) t) t
      → Executed c s r
  waits :
      (t : System)
      → r ≡ some t
      → t.current ≡ some c
      → Prev t (some c)
      → Steady s t
      → ((p : ℕ) → present p none t ≡ present p (some c) s)
      → (t.procs c).status ≡ Status.blocked
      → Carries (hand_of (some c)) s (on_turn (some c) t) t
      → Executed c s r

pub Older-steps :
    (c : ℕ) (s t u v : System)
    → Steady s t
    → ((p : ℕ) → present p (some c) t ≡ present p (some c) s)
    → Older c t u
    → Times (some c) u v
    → Older c s v
Older-steps c s t u v k places o w = record {
  age = λ p. omega (arith, w.age p, o.age p, k.age p);
  lifespan = λ p. w.lifespan p ∙ o.lifespan p ∙ k.lifespan p;
  starts_at = λ p. w.starts_at p ∙ o.starts_at p ∙ k.starts_at p;
  ticks = w.ticks ∙ o.ticks ∙ k.ticks;
  fork = w.fork ∙ o.fork ∙ k.fork;
  places = λ p. w.places p ∙ o.places p ∙ places p;
}
