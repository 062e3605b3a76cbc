-- ===== src/Sched/Framework/Safety/Start.antt =====
-- The state before the first tick, as a script leaves it.
use os_pa.Common.{
  ℕ, zero, suc, ◌≤◌, ◌<◌, ◌≡◌, ◌≢◌, refl, sym, ap, subst, none, List, [], ◌∷◌, All, occurs,
  occurs-append, u32_mod, ◌==◌, if◌then◌else◌, if_true, if_false, Bool-cases, inl, inr, ==→ne,
  arith,
}
use os_pa.Sched.Types.{Process, Resource, System, nr_resources}
use os_pa.Sched.Policy.Tables.{Policy, scheduler_of}
use os_pa.Sched.Policy.Contract.Policies.{scheduler_of-Honours}
use os_pa.Sched.Framework.Simulation.{Outcome, do_simulation, initialize}
use os_pa.Sched.Framework.Loader.{Loader, Loaded}
use os_pa.Sched.Framework.Loader.Descriptions.{
  Description, script, process_of, after_description, after_script, load_script-script,
}
use os_pa.Sched.Framework.Program.{Exit, run_script}
use os_pa.Sched.Framework.Safety.{wait_count, Distinct, Plan, Good, Prev}
use os_pa.Sched.Framework.Safety.Runs.{simulation_never_fails}

-- A new process with a life, and with acquisitions that fit into it.
pub record WellFormed (q : Process) : Type 0 where
  pub young : q.age ≡ 0
  pub lives : 0 < q.lifespan
  pub small : q.lifespan < u32_mod
  pub free : q.resources_holding ≡ []
  pub plans : All (Plan 0 q.lifespan) q.resources_to_acquire

-- Nothing but the fork queue is filled.
pub record Initial (s : System) : Type 0 where
  pub idle : s.current ≡ none
  pub empty : s.readyqueue ≡ []
  pub unowned : (i : ℕ) → (s.resources i).waitqueue ≡ []
  pub ownerless : (i : ℕ) → (s.resources i).owner ≡ none
  pub once : (p : ℕ) → occurs p s.forkqueue ≤ 1
  pub formed : (p : ℕ) → 0 < occurs p s.forkqueue → WellFormed (s.procs p)

pub no_waiters :
    (n p : ℕ) (resources : ℕ → Resource)
    → ((i : ℕ) → (resources i).waitqueue ≡ [])
    → wait_count n p resources ≡ 0
unfolding wait_count
no_waiters zero p resources h = refl
no_waiters (suc n) p resources h = omega (arith, ap (occurs p) (h n), no_waiters n p resources h)

WellFormed-Good : (r : ℕ → Resource) (p : ℕ) (q : Process) → WellFormed q → Good r p q
WellFormed-Good r p q w = record {
  alive = omega (arith, w.young, w.lives);
  small = w.small;
  plans = subst (λ n. All (Plan n q.lifespan) q.resources_to_acquire) (sym w.young) w.plans;
  holds = subst (All _) (sym w.free) tt;
  distinct = subst Distinct (sym w.free) tt;
}

pub Initial-Prev : (s : System) → Initial s → Prev s s.current
Initial-Prev s h = subst (Prev s) (sym h.idle) (
    Prev.nobody (record {
      placed = record {
        once = λ p. omega (
          arith,
          h.once p,
          ap (occurs p) h.empty,
          no_waiters nr_resources p s.resources h.unowned,
        );
        blocked = λ i w r k. absurd (omega (arith, k, ap (occurs w) (h.unowned i)));
      };
      good = λ p k. WellFormed-Good s.resources p (s.procs p) (
          h.formed p (
            omega
              (arith, k, ap (occurs p) h.empty, no_waiters nr_resources p s.resources h.unowned)));
    }))

-- Addresses from the next one on are fresh.
pub record Loading (l : Loader) : Type 0 where
  pub initial : Initial l.system
  pub fresh : (p : ℕ) → l.next_address ≤ p → occurs p l.system.forkqueue ≡ 0

abbrev pub AllFormed : List Description → Type 0
AllFormed = All (λ d. WellFormed (process_of d))

module _ (d : Description) (l : Loader) (formed : WellFormed (process_of d)) (k : Loading l) where
  count : (p : ℕ) → occurs p (l.next_address ∷ []) ≡ (if p == l.next_address then 1 else 0)
  count p = omega arith

  pub after_description-Loading : Loading (after_description d l)
  after_description-Loading = record {
    initial = record {
      idle = k.initial.idle;
      empty = k.initial.empty;
      unowned = k.initial.unowned;
      ownerless = k.initial.ownerless;
      once = λ p. ground (
        arith,
        occurs-append p l.system.forkqueue (l.next_address ∷ []),
        k.fresh p,
        k.initial.once p,
      );
      formed = λ p h. elim (Bool-cases (l.next_address == p)) [
        | inl new ↦ subst WellFormed (sym (if_true _ _ new)) formed
        | inr old ↦ subst WellFormed (sym (if_false _ _ old)) (
            k.initial.formed p (
              ground (
                arith,
                h,
                ==→ne l.next_address p old,
                occurs-append p l.system.forkqueue (l.next_address ∷ []),
              )))
      ];
    };
    fresh =
        λ p h. ground (arith, occurs-append p l.system.forkqueue (l.next_address ∷ []), k.fresh p);
  }

pub after_script-Loading :
    (ds : List Description) (l : Loader) → AllFormed ds → Loading l → Loading (after_script ds l)
after_script-Loading [] l h k = k
after_script-Loading (d ∷ ds) l h k =
    after_script-Loading ds (after_description d l) h.1 (after_description-Loading d l h.0 k)

-- What main starts from.
abbrev pub first_loader : System → Loader
first_loader s = record { system = initialize s; p = none; next_address = 0 }

pub first-Loading : (s : System) → s.current ≡ none → Loading (first_loader s)
unfolding initialize
first-Loading s e = record {
  initial = record {
    idle = e;
    empty = refl;
    unowned = λ i. refl;
    ownerless = λ i. refl;
    once = λ p. omega arith;
    formed = λ p h. absurd (omega (arith, h));
  };
  fresh = λ p h. refl;
}

pub script-Initial :
    (ds : List Description) (s : System)
    → s.current ≡ none
    → AllFormed ds
    → Initial (after_script ds (first_loader s)).system
script-Initial ds s e h = (after_script-Loading ds (first_loader s) h (first-Loading s e)).initial

pub run_script-script :
    (fuel : ℕ) (policy : Policy) (ds : List Description) (s : System)
    → run_script fuel policy (script ds) s
      ≡ Exit.simulated
          (do_simulation fuel (scheduler_of policy) (after_script ds (first_loader s)).system)
unfolding run_script
run_script-script fuel policy ds s =
    ap
      (λ r. elim r [
        | Loaded.loading l' ↦ Exit.simulated (do_simulation fuel (scheduler_of policy) l'.system)
        | Loaded.unknown ↦ Exit.bad_property
        | Loaded.failed ↦ Exit.bad_script
      ])
      (load_script-script ds (first_loader s))

-- Under each of the eight schedulers, a script of well-formed processes is loaded and simulated,
-- and no assertion of the framework or of the scheduler fails, however long the run is. A process
-- is well formed if it has a positive lifespan below 2 ^ 32, and if each acquisition is of a
-- resource that exists, for a positive duration, and ends with the life of the process at the
-- latest.
pub run_script_never_fails :
    (fuel : ℕ) (policy : Policy) (ds : List Description) (s : System)
    → s.current ≡ none
    → AllFormed ds
    → (o : Outcome) × (run_script fuel policy (script ds) s ≡ Exit.simulated o)
      × (o ≢ Outcome.failed)
run_script_never_fails fuel policy ds s e h =
    let start = (after_script ds (first_loader s)).system in
    (
      do_simulation fuel (scheduler_of policy) start,
      run_script-script fuel policy ds s,
      simulation_never_fails (scheduler_of policy) fuel start (scheduler_of-Honours policy)
          (Initial-Prev start (script-Initial ds s e h)),
    )
