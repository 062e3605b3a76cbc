-- ===== src/Sched/Framework/Safety/Termination.antt =====
-- The loop of the simulation ends.
use os_pa.Common.{
  ℕ, zero, suc, refl, ◌+◌, ◌≤◌, ◌<◌, ◌≡◌, ◌⊎◌, true, sym, ap, ◌∙◌, subst, none, some, List, [], ◌∷◌,
  All, ==_refl, occurs, u32_mod, inl, inr, arith,
}
use os_pa.Sched.Types.{System, Event, nr_resources}
use os_pa.Sched.Queues.{print_event}
use os_pa.Sched.Policy.Tables.{Scheduler}
use os_pa.Sched.Policy.Contract.Laws.{chosen, running_on, Honours}
use os_pa.Sched.Framework.Simulation.{Outcome, tick_done, round, do_simulation}
use os_pa.Sched.Framework.Waiting.{Holds, Served, Tidy, Carries, hand_of, on_turn}
use os_pa.Sched.Framework.Waiting.Frame.{Still-refl, Carries-frame, Carries-Alike}
use os_pa.Sched.Framework.Safety.{wait_count, Prev}
use os_pa.Sched.Framework.Safety.Rounds.{Turned, Tick, Round, round-Round, Turned-Carries}
use os_pa.Sched.Framework.Safety.Runs.{simulation_goes}
use os_pa.Sched.Framework.Safety.Runs.{simulation_stops}
use os_pa.Sched.Framework.Safety.Measure.{measure, Bounded, turned-found, turned-present}
use os_pa.Sched.Framework.Safety.Falls.{Falls, idle-Falls, ran-Falls, waits-Falls}

-- The process has lived its life, or waits for a resource.
abbrev pub AtRest : System → ℕ → Type 0
AtRest t p = ((t.procs p).age ≡ (t.procs p).lifespan) ⊎ (0 < wait_count nr_resources p t.resources)

-- The resource is held by a process that waits too.
pub record Stuck (t : System) (i : ℕ) : Type 0 where
  pub o : ℕ
  pub owner : (t.resources i).owner ≡ some o
  pub holds : Holds i (t.procs o)
  pub waits : 0 < wait_count nr_resources o t.resources

-- No process runs or can run.
pub record Ended (all : List ℕ) (t : System) : Type 0 where
  pub idle : t.current ≡ none
  pub ready : t.readyqueue ≡ []
  pub fork : t.forkqueue ≡ []
  pub served : All (AtRest t) all
  pub known : (p : ℕ) → wait_count nr_resources p t.resources ≤ occurs p all
  pub stuck : (i w : ℕ) → i < nr_resources → 0 < occurs w (t.resources i).waitqueue → Stuck t i

All-occurs {κ} : (P : ℕ → Type κ) (xs : List ℕ) → ((p : ℕ) → 0 < occurs p xs → P p) → All P xs
All-occurs P [] h = tt
All-occurs P (x ∷ xs) h =
    (h x (ground (arith, ==_refl x)), All-occurs P xs (λ p k. h p (ground (arith, k))))

-- The lifespans are as before.
abbrev pub Lifespans : System → System → Type 0
Lifespans s t = (p : ℕ) → (t.procs p).lifespan ≡ (s.procs p).lifespan

Tick-Lifespans : (c : ℕ) (v w : System) → Tick c v w → Lifespans v w
Tick-Lifespans c v w (Tick.ran older alive) = older.lifespan
Tick-Lifespans c v w (Tick.waits steady places blocked) = steady.lifespan

abbrev pub Finishes : ℕ → Scheduler → List ℕ → List ℕ → System → Type 0
Finishes fuel sched all ord s =
    (t : System) × (do_simulation fuel sched s ≡ Outcome.finished t)
    × Ended all t
    × Tidy ord (hand_of none) t
    × Lifespans s t

-- With empty queues, whoever owns a resource that is waited for waits too.
Tidy-Stuck :
    (all : List ℕ) (t : System)
    → Tidy all (hand_of none) t
    → t.readyqueue ≡ []
    → t.forkqueue ≡ []
    → (i w : ℕ) → i < nr_resources
    → 0 < occurs w (t.resources i).waitqueue
    → Stuck t i
Tidy-Stuck all t h ready fork i w r k = held (h.served i w r k)
  where
    held : Served (hand_of none) t i → Stuck t i
    held (Served.owned o e) = record {
      o = o;
      owner = e;
      holds = h.holds i o r e;
      waits = omega (arith, h.there i o r e, ap (occurs o) ready, ap (occurs o) fork);
    }
    held (Served.wanted q now d) = absurd (omega (arith, now, ap (occurs q) ready))

tick_done-Carries :
    (hand hand' : ℕ → ℕ) (s : System)
    → ((p : ℕ) → hand' p ≡ hand p)
    → Carries hand s hand' (tick_done s)
tick_done-Carries hand hand' s same =
    Carries-frame hand hand' s (tick_done s) (Still-refl s) (λ i. refl) (λ i w. omega arith)
      (λ p. omega (arith, same p)) (λ p. omega (arith, same p))

module _ (all ord : List ℕ) (last : ℕ) (sched : Scheduler) (honours : Honours sched) where
  stops-Ended :
      (s v : System)
      → Bounded all last s
      → Turned s v
      → v.current ≡ none
      → v.readyqueue ≡ []
      → v.forkqueue ≡ []
      → Tidy ord (hand_of none) v
      → Ended all v
  stops-Ended s v b t cur ready fork tidy = record {
    idle = cur;
    ready = ready;
    fork = fork;
    served = All-occurs (AtRest v) all (λ p h. elim (turned-found all last s v b t p h) [
      | inl placed ↦
          inr (
            omega
              (arith, placed, ap (occurs p) ready, ap (occurs p) fork, ap (λ c. chosen p c) cur))
      | inr over ↦ inl over
    ]);
    known = λ p. omega (arith, turned-present all last s v b t p, b.places p);
    stuck = Tidy-Stuck ord v tidy ready fork;
  }

  Tick-Falls :
      (c : ℕ) (s v w : System)
      → Bounded all last s
      → s.ticks + 1 < u32_mod
      → Turned s v
      → v.current ≡ some c
      → w.current ≡ some c
      → Prev (tick_done w) (some c)
      → Tick c v w
      → Falls all last s (tick_done w)
  Tick-Falls c s v w b clock t cur now next (Tick.ran older alive) =
      ran-Falls all last s v b t clock c w cur now next older alive
  Tick-Falls c s v w b clock t cur now next (Tick.waits steady places blocked) =
      waits-Falls all last s v b t clock c w cur now next steady places blocked

  goes_on :
      (fuel : ℕ) (s w : System)
      → round sched s ≡ some (true, w)
      → Lifespans s w
      → Finishes fuel sched all ord w
      → Finishes (suc fuel) sched all ord s
  goes_on fuel s w got kept (t, e, ended, tidy, later) =
      (t, simulation_goes fuel sched s w got ∙ e, ended, tidy, λ p. later p ∙ kept p)

  pub simulation_ends :
      (fuel : ℕ) (s : System)
      → Prev s s.current
      → Bounded all last s
      → Tidy ord (on_turn s.current s) s
      → measure all last s < fuel
      → s.ticks + fuel < u32_mod
      → Finishes fuel sched all ord s
  simulation_ends zero s prev b tidy h k = absurd (omega (arith, h))
  simulation_ends (suc fuel) s prev b tidy h k = elim (round-Round sched honours s prev) [
    | Round.stops v t got _ cur ready fork ↦
        let tidy' : Tidy ord (hand_of none) v =
          subst (λ c. Tidy ord (hand_of c) v) cur (Turned-Carries s v t ord tidy) in
        (
          v,
          simulation_stops fuel sched s v got,
          stops-Ended s v b t cur ready fork tidy',
          tidy',
          t.clock.lifespan,
        )
    | Round.idles v t got next cur _ more ↦
        let u = print_event Event.idle v in
        let w = tick_done u in
        let f = idle-Falls all last s v b t (omega (arith, k)) cur more t.late in
        let tidy' : Tidy ord (on_turn v.current w) w =
          tick_done-Carries (hand_of v.current) (on_turn v.current w) u
            (λ p. ap (λ c. running_on p c w) cur ∙ sym (ap (λ c. chosen p c) cur)) ord
            (Carries-Alike (hand_of v.current) v u
              (record {
                procs = λ q. refl;
                ready = refl;
                fork = refl;
                resources = refl;
                ticks = refl;
              })
              ord (Turned-Carries s v t ord tidy)) in
        goes_on fuel s w got t.clock.lifespan (
          simulation_ends fuel w (subst (Prev w) (sym cur) next) f.bounded tidy'
            (omega (arith, h, f.less)) (omega (arith, k, f.tick)))
    | Round.acts c v x t got cur now next tick carries ↦
        let w = tick_done x in
        let f = Tick-Falls c s v x b (omega (arith, k)) t cur now next tick in
        let acted : Tidy ord (on_turn (some c) x) x =
          carries ord (subst (λ y. Tidy ord (hand_of y) v) cur (Turned-Carries s v t ord tidy)) in
        let tidy' : Tidy ord (on_turn x.current w) w =
          tick_done-Carries (on_turn (some c) x) (on_turn x.current w) x
            (λ p. ap (λ y. running_on p y w) now) ord acted in
        goes_on fuel s w got (λ p. Tick-Lifespans c v x tick p ∙ t.clock.lifespan p)
          (simulation_ends fuel w (subst (Prev w) (sym now) next) f.bounded tidy'
            (omega (arith, h, f.less)) (omega (arith, k, f.tick)))
  ]
