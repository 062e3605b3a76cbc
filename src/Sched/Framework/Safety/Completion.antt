-- ===== src/Sched/Framework/Safety/Completion.antt =====
-- The run of a whole script, with a number of rounds that its text gives.
use os_pa.Common.{
  none-ne-some, ℕ, ◌+◌, ◌-◌, ◌*◌, ◌≤◌, ◌<◌, ◌≡◌, refl, sym, subst, ap, ◌∙◌, none, List, [], ◌∷◌,
  ◌++◌, All, occurs, occurs-append, length, length-append, ◌==◌, if_true, if_false, Bool-cases, inl,
  inr, ==→eq, ==→ne, ==_refl, u32_mod, arith,
}
use os_pa.Sched.Types.{Process, System, nr_resources}
use os_pa.Sched.Policy.Tables.{Policy, scheduler_of}
use os_pa.Sched.Policy.Contract.Laws.{running_on}
use os_pa.Sched.Policy.Contract.Policies.{scheduler_of-Honours}
use os_pa.Sched.Framework.Simulation.{Outcome, initialize}
use os_pa.Sched.Framework.Loader.{Loader}
use os_pa.Sched.Framework.Loader.Descriptions.{
  Description, script, process_of, after_description, after_script,
}
use os_pa.Sched.Framework.Program.{Exit, run_script}
use os_pa.Sched.Framework.Safety.Counting.{total, total-nil, total-append, total-eq_on}
use os_pa.Sched.Framework.Safety.Measure.{running_list, time_left, measure, Bounded}
use os_pa.Sched.Framework.Safety.Termination.{Lifespans, Ended, simulation_ends}
use os_pa.Sched.Framework.Waiting.{Ordered, Tidy, hand_of, on_turn}
use os_pa.Sched.Framework.Safety.Start.{
  Initial, Initial-Prev, no_waiters, Loading, AllFormed, after_description-Loading, first_loader,
  first-Loading, script-Initial, run_script-script,
}

abbrev pub lifetimes : List Description → ℕ
lifetimes [] = 0
lifetimes (d ∷ ds) = (process_of d).lifespan + lifetimes ds

abbrev pub StartBy : ℕ → Description → Type 0
StartBy last d = (process_of d).starts_at ≤ last

-- The rounds that a script can take: each tick of a process, with a wait of each process before it,
-- and the ticks until the last start.
abbrev pub round_count : List Description → ℕ → ℕ
round_count ds last = lifetimes ds * (length ds + 1) + length ds + last

-- What the loader holds after some descriptions.
record Filled (count lived : ℕ) (l : Loader) : Type 0 where
  size : length l.system.forkqueue ≡ count
  left : total (time_left l.system) l.system.forkqueue ≡ lived

-- Each process that the loader holds has the property P.
abbrev Every : (Process → Type 0) → Loader → Type 0
Every P l = (p : ℕ) → 0 < occurs p l.system.forkqueue → P (l.system.procs p)

module _ (d : Description) (l : Loader) (k : Loading l) where
  new_process_lem : (after_description d l).system.procs l.next_address ≡ process_of d
  new_process_lem = if_true _ _ (==_refl l.next_address)

  old_process :
      (p : ℕ)
      → 0 < occurs p l.system.forkqueue
      → (after_description d l).system.procs p ≡ l.system.procs p
  old_process p h = elim (Bool-cases (l.next_address == p)) [
    | inl new ↦ absurd (omega (arith, h, k.fresh p (omega (arith, ==→eq l.next_address p new))))
    | inr old ↦ if_false _ _ old
  ]

  after_description-Filled :
      (count lived : ℕ)
      → Filled count lived l
      → Filled (count + 1) (lived + (process_of d).lifespan) (after_description d l)
  after_description-Filled count lived f = record {
    size = omega (arith, length-append l.system.forkqueue (l.next_address ∷ []), f.size);
    left = omega (
      arith,
      total-append (time_left (after_description d l).system) l.system.forkqueue l.next_address,
      total-eq_on (time_left (after_description d l).system) (time_left l.system) l.system.forkqueue
          (λ p h. ap (λ (q : Process). q.lifespan - q.age) (old_process p h)),
      ap (λ (q : Process). q.lifespan - q.age) new_process_lem,
      f.left,
    );
  }

  after_description-Every :
      (P : Process → Type 0) → Every P l → P (process_of d) → Every P (after_description d l)
  after_description-Every P old new p h = elim (Bool-cases (l.next_address == p)) [
    | inl e ↦ subst P (sym (if_true _ _ e)) new
    | inr e ↦
        let there : 0 < occurs p l.system.forkqueue = ground (
          arith,
          h,
          ==→ne l.next_address p e,
          occurs-append p l.system.forkqueue (l.next_address ∷ []),
        ) in
        subst P (sym (old_process p there)) (old p there)
  ]

after_script-Filled :
    (ds : List Description) (count lived : ℕ) (l : Loader)
    → AllFormed ds
    → Loading l
    → Filled count lived l
    → Filled (count + length ds) (lived + lifetimes ds) (after_script ds l)
after_script-Filled [] count lived l h k f = record {
  size = omega (arith, f.size);
  left = omega (arith, f.left);
}
after_script-Filled (d ∷ ds) count lived l h k f =
    let more =
      after_script-Filled ds (count + 1) (lived + (process_of d).lifespan) (after_description d l)
        h.1 (after_description-Loading d l h.0 k) (after_description-Filled d l k count lived f) in
    record { size = omega (arith, more.size); left = omega (arith, more.left) }

pub after_script-Every :
    (P : Process → Type 0) (ds : List Description) (l : Loader)
    → AllFormed ds
    → All (λ d. P (process_of d)) ds
    → Loading l
    → Every P l
    → Every P (after_script ds l)
after_script-Every P [] l h new k old = old
after_script-Every P (d ∷ ds) l h new k old =
    after_script-Every P ds (after_description d l) h.1 new.1 (after_description-Loading d l h.0 k)
      (after_description-Every d l k P old new.0)

pub first-Every : (P : Process → Type 0) (s : System) → Every P (first_loader s)
unfolding initialize
first-Every P s p h = absurd (omega (arith, h))

first-Filled : (s : System) → Filled 0 0 (first_loader s)
unfolding initialize
first-Filled s = record { size = refl; left = total-nil (time_left (initialize s)) }

Initial-Tidy :
    (ord : List ℕ) (s : System)
    → Initial s
    → ((p : ℕ) → 0 < occurs p ord → Ordered (s.procs p))
    → Tidy ord (on_turn s.current s) s
Initial-Tidy ord s i h = record {
  due = λ r w _ k. absurd (omega (arith, k, ap (occurs w) (i.unowned r)));
  holds = λ r o _ e. absurd (none-ne-some o (sym (i.ownerless r) ∙ e));
  there = λ r o _ e. absurd (none-ne-some o (sym (i.ownerless r) ∙ e));
  served = λ r w _ k. absurd (omega (arith, k, ap (occurs w) (i.unowned r)));
  ordered = h;
}

Initial-Bounded :
    (s : System) (last : ℕ)
    → Initial s
    → ((p : ℕ) → 0 < occurs p s.forkqueue → (s.procs p).starts_at ≤ last)
    → Bounded s.forkqueue last s
Initial-Bounded s last i h = record {
  places = λ p. omega (
    arith,
    ap (occurs p) i.empty,
    no_waiters nr_resources p s.resources i.unowned,
    ap (λ c. running_on p c s) i.idle,
  );
  found = λ p k. inl (omega (arith, k));
  starts = h;
}

ticks_kept :
    (ds : List Description) (l : Loader) → (after_script ds l).system.ticks ≡ l.system.ticks
ticks_kept [] l = refl
ticks_kept (d ∷ ds) l = ticks_kept ds (after_description d l)

-- The processes of `ord` keep the order of the resources until the end.
pub script_ends :
    (fuel last : ℕ) (policy : Policy) (ds : List Description) (s : System) (ord : List ℕ)
    → s.current ≡ none
    → AllFormed ds
    → All (StartBy last) ds
    → ((p : ℕ) → 0 < occurs p ord → Ordered ((after_script ds (first_loader s)).system.procs p))
    → round_count ds last < fuel
    → s.ticks + fuel < u32_mod
    → (t : System) × (run_script fuel policy (script ds) s ≡ Exit.simulated (Outcome.finished t))
      × Ended (after_script ds (first_loader s)).system.forkqueue t
      × Tidy ord (hand_of none) t
      × Lifespans (after_script ds (first_loader s)).system t
unfolding initialize
script_ends fuel last policy ds s ord e h b ordered enough clock =
    let start = (after_script ds (first_loader s)).system in
    let i = script-Initial ds s e h in
    let f = after_script-Filled ds 0 0 (first_loader s) h (first-Loading s e) (first-Filled s) in
    let starts =
      after_script-Every (λ q. q.starts_at ≤ last) ds (first_loader s) h b (first-Loading s e)
        (first-Every (λ q. q.starts_at ≤ last) s) in
    let (t, run, ended, tidy, kept) =
      simulation_ends start.forkqueue ord last (scheduler_of policy) (scheduler_of-Honours policy)
        fuel start (Initial-Prev start i) (Initial-Bounded start last i starts)
        (Initial-Tidy ord start i ordered) (rounds start i f.size f.left)
        (omega (arith, clock, ticks_kept ds (first_loader s))) in
    (t, run_script-script fuel policy ds s ∙ ap Exit.simulated run, ended, tidy, kept)
  where
    rounds :
        (start : System)
        → Initial start
        → (length start.forkqueue ≡ 0 + length ds)
        → (total (time_left start) start.forkqueue ≡ 0 + lifetimes ds)
        → measure start.forkqueue last start < fuel
    rounds start i size left = omega (
      arith,
      ap (λ n. n * (length start.forkqueue + 1)) left,
      ap (λ n. lifetimes ds * (n + 1)) size,
      size,
      ap (λ c. length (start.readyqueue ++ start.forkqueue ++ running_list c start)) i.idle,
      ap (λ q. length (q ++ start.forkqueue ++ [])) i.empty,
      length-append start.forkqueue [],
      enough,
    )

-- Under each of the eight schedulers, the simulation of a script of well-formed processes ends
-- without a failure, with fuel above `round_count`, provided that its ticks stay below 2 ^ 32. In
-- the end no process is current, ready, or to be forked. Each process of the script has lived its
-- life or waits for a resource, and each resource that is waited for belongs to a process that holds
-- it and waits too.
pub run_script_ends :
    (fuel last : ℕ) (policy : Policy) (ds : List Description) (s : System)
    → s.current ≡ none
    → AllFormed ds
    → All (StartBy last) ds
    → round_count ds last < fuel
    → s.ticks + fuel < u32_mod
    → (t : System) × (run_script fuel policy (script ds) s ≡ Exit.simulated (Outcome.finished t))
      × Ended (after_script ds (first_loader s)).system.forkqueue t
run_script_ends fuel last policy ds s e h b enough clock =
    let (t, run, ended, tidy, kept) =
      script_ends fuel last policy ds s [] e h b (λ p k. absurd (omega (arith, k))) enough clock in
    (t, run, ended)
