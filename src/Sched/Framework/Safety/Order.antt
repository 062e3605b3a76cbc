-- ===== src/Sched/Framework/Safety/Order.antt =====
-- Scripts whose processes acquire the resources in one order.
use os_pa.Common.{
  none-ne-some, ℕ, zero, suc, ◌+◌, ◌≤◌, ◌<◌, ◌≡◌, ◌⊎◌, refl, ==→eq, sym, subst, ap, ◌∙◌, Option,
  none, some, List, [], ◌∷◌, All, occurs, u32_mod, ◌==◌, Bool-cases, inl, inr, if_true, if_false,
  arith,
}
use mathlib.Core.Option.{some-injective}
use os_pa.Sched.Types.{ResourceSchedule, Resource, System, nr_resources}
use os_pa.Sched.Policy.Tables.{Policy}
use os_pa.Sched.Framework.Simulation.{Outcome}
use os_pa.Sched.Framework.Loader.Descriptions.{Description, script, process_of, after_script}
use os_pa.Sched.Framework.Program.{Exit, run_script}
use os_pa.Sched.Framework.Safety.{wait_count}
use os_pa.Sched.Framework.Waiting.{ids, first_due, Ascending, Ordered, Tidy, hand_of}
use os_pa.Sched.Framework.Safety.Termination.{Lifespans, AtRest, Ended}
use os_pa.Sched.Framework.Safety.Start.{AllFormed, first_loader, first-Loading}
use os_pa.Sched.Framework.Safety.Completion.{
  StartBy, round_count, after_script-Every, first-Every, script_ends,
}

-- Who stands in some wait queue.
data WaitsFor (n p : ℕ) (resources : ℕ → Resource) : Type 0 where
  waits_for : (i : ℕ) → i < n → 0 < occurs p (resources i).waitqueue → WaitsFor n p resources

wait_count-WaitsFor :
    (n p : ℕ) (resources : ℕ → Resource) → 0 < wait_count n p resources → WaitsFor n p resources
unfolding wait_count
wait_count-WaitsFor zero p resources h = absurd (omega (arith, h))
wait_count-WaitsFor (suc n) p resources h = elim (zero_or_more (occurs p (resources n).waitqueue)) [
  | inl nobody ↦ further (wait_count-WaitsFor n p resources (omega (arith, h, nobody)))
  | inr here ↦ WaitsFor.waits_for n (omega arith) here
]
  where
    zero_or_more : (x : ℕ) → (x ≡ 0) ⊎ (0 < x)
    zero_or_more zero = inl refl
    zero_or_more (suc x) = inr (omega arith)

    further : WaitsFor n p resources → WaitsFor (suc n) p resources
    further (WaitsFor.waits_for i k w) = WaitsFor.waits_for i (omega (arith, k)) w

All-member {κ} : (P : ℕ → Type κ) (xs : List ℕ) (x : ℕ) → All P xs → 0 < occurs x xs → P x
All-member P [] x h k = absurd (omega (arith, k))
All-member P (y ∷ xs) x h k = elim (Bool-cases (x == y)) [
  | inl same ↦ subst P (sym (==→eq x y same)) h.0
  | inr other ↦ All-member P xs x h.1 (ground (arith, k, other))
]

-- A resource that is due comes after the ones that are held.
due-after :
    (n i j : ℕ) (l : List ResourceSchedule) (held : List ℕ)
    → All (λ y. All (λ x. x < y.resource_id) held) l
    → first_due n l ≡ some j
    → 0 < occurs i held
    → i < j
unfolding first_due
due-after n i j [] held h e k = absurd (none-ne-some j e)
due-after n i j (rs ∷ l) held h e k = elim (Bool-cases (rs.at == n)) [
  | inl now ↦
      subst (λ x. i < x) (some-injective _ _ (sym (if_true _ _ now) ∙ e))
        (All-member _ held i h.0 k)
  | inr later ↦ due-after n i j l held h.1 (sym (if_false _ _ later) ∙ e) k
]

-- All have lived their lives, and all resources are free again.
pub record Completed (all : List ℕ) (start t : System) : Type 0 where
  pub idle : t.current ≡ none
  pub ready : t.readyqueue ≡ []
  pub fork : t.forkqueue ≡ []
  pub free : (i : ℕ) → i < nr_resources → (t.resources i).owner ≡ none
  pub lived : All (λ p. (t.procs p).age ≡ (start.procs p).lifespan) all

module _ (all : List ℕ) (t : System) (ended : Ended all t) (tidy : Tidy all (hand_of none) t)
    (start : System) (kept : Lifespans start t) where
  -- The owner of a resource that is waited for waits for a later one.
  nobody_waits :
      (k i w : ℕ)
      → nr_resources ≤ i + k
      → i < nr_resources
      → 0 < occurs w (t.resources i).waitqueue
      → ⊥
  nobody_waits zero i w h r e = omega (arith, h, r)
  nobody_waits (suc k) i w h r e =
      let stuck = ended.stuck i w r e in
      elim (wait_count-WaitsFor nr_resources stuck.o t.resources stuck.waits) [
        | WaitsFor.waits_for j r' e' ↦
            let later : i < j =
              due-after _ i j _ (ids (t.procs stuck.o).resources_holding)
                (tidy.ordered stuck.o (omega (arith, stuck.waits, ended.known stuck.o))).1
                (tidy.due j stuck.o r' e') stuck.holds in
            nobody_waits k j stuck.o (omega (arith, h, later)) r' e'
      ]

  no_wait_count : (p : ℕ) → 0 < wait_count nr_resources p t.resources → ⊥
  no_wait_count p h = elim (wait_count-WaitsFor nr_resources p t.resources h) [
    | WaitsFor.waits_for i r e ↦ nobody_waits nr_resources i p (omega arith) r e
  ]

  all_free : (i : ℕ) → i < nr_resources → (o : Option ℕ) → (t.resources i).owner ≡ o → o ≡ none
  all_free i r none e = refl
  all_free i r (some o) e = absurd (
      no_wait_count o
        (omega (arith, tidy.there i o r e, ap (occurs o) ended.ready, ap (occurs o) ended.fork)))

  all_lived :
      (ps : List ℕ) → All (AtRest t) ps → All (λ p. (t.procs p).age ≡ (start.procs p).lifespan) ps
  all_lived [] h = tt
  all_lived (p ∷ ps) h = (
    elim h.0 [ inl over ↦ over ∙ kept p | inr waits ↦ absurd (no_wait_count p waits) ],
    all_lived ps h.1,
  )

  Ended-Completed : Completed all start t
  Ended-Completed = record {
    idle = ended.idle;
    ready = ended.ready;
    fork = ended.fork;
    free = λ i r. all_free i r (t.resources i).owner refl;
    lived = all_lived all ended.served;
  }

-- Each acquisition of the description is later than the one before or at the same time, and of a
-- resource with a larger number.
abbrev pub InOrder : Description → Type 0
InOrder d = Ascending (process_of d).resources_to_acquire

start-Ordered :
    (ds : List Description) (s : System)
    → s.current ≡ none
    → AllFormed ds
    → All InOrder ds
    → (p : ℕ) → 0 < occurs p (after_script ds (first_loader s)).system.forkqueue
    → Ordered ((after_script ds (first_loader s)).system.procs p)
start-Ordered ds s e formed order =
    after_script-Every Ordered ds (first_loader s) formed (each ds formed order) (first-Loading s e)
      (first-Every Ordered s)
  where
    nothing_held :
        (held : List ResourceSchedule) (l : List ResourceSchedule)
        → held ≡ []
        → All (λ y. All (λ x. x < y.resource_id) (ids held)) l
    nothing_held held [] e = tt
    nothing_held held (y ∷ l) e =
        (subst (λ h. All (λ x. x < y.resource_id) (ids h)) (sym e) tt, nothing_held held l e)

    each :
        (ds : List Description)
        → AllFormed ds
        → All InOrder ds
        → All (λ d. Ordered (process_of d)) ds
    each [] formed order = tt
    each (d ∷ ds) formed order =
        ((order.0, nothing_held _ _ formed.0.free), each ds formed.1 order.1)

-- Under each of the eight schedulers, a script of well-formed processes, each of which lists its
-- acquisitions in the order of time and of strictly growing resource numbers, is simulated to its
-- end without a failure, with fuel above `round_count`, provided that the ticks stay below 2 ^ 32.
-- In the end no process is current, ready, or to be forked, every resource is free, and every
-- process of the script has the age of the lifespan that the script gives it.
pub run_script_completes :
    (fuel last : ℕ) (policy : Policy) (ds : List Description) (s : System)
    → s.current ≡ none
    → AllFormed ds
    → All InOrder ds
    → All (StartBy last) ds
    → round_count ds last < fuel
    → s.ticks + fuel < u32_mod
    → (t : System) × (run_script fuel policy (script ds) s ≡ Exit.simulated (Outcome.finished t))
      × Completed
          (after_script ds (first_loader s)).system.forkqueue
          (after_script ds (first_loader s)).system
          t
run_script_completes fuel last policy ds s e formed order starts enough clock =
    let start = (after_script ds (first_loader s)).system in
    let (t, run, ended, tidy, kept) =
      script_ends fuel last policy ds s start.forkqueue e formed starts
        (start-Ordered ds s e formed order) enough clock in
    (t, run, Ended-Completed start.forkqueue t ended tidy start kept)
