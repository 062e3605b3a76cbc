-- ===== src/Sched/Policy/Contract/Schedules.antt =====
-- Each schedule() of pa2.c conserves the processes.
use os_pa.Common.{
  ℕ, ◌+◌, ◌≡◌, refl, sym, ap, ◌∙◌, subst, fun_ext, Bool, true, Option, none, some, List, [], ◌∷◌,
  ltb, leb, ◌==◌, ==_refl, if◌then◌else◌, inl, inr, Bool-cases, arith, occurs, occurs-append, inc32,
}
use os_pa.Sched.Types.{is_blocked, Process, System}
use os_pa.Sched.Queues.{list_add_tail, list_del, contains, set_prio, set_ready}
use os_pa.Sched.Policy.Pick.{pick, better_sjf, better_stcf, better_prio}
use os_pa.Sched.Policy.Schedule.{
  dispatch_ready, pick_head, pick_best, keep_or_pick, requeue_current, pick_aging,
  reset_and_dispatch, pick_aged, fcfs_schedule, sjf_schedule, stcf_schedule, rr_schedule,
  prio_schedule, pa_schedule,
}
use os_pa.Sched.Policy.Contract.Laws.{unprio, chosen, running_on, Schedules}

pub occurs-list_del :
    (p x : ℕ) (queue : List ℕ)
    → contains x queue ≡ true
    → occurs p (list_del x queue) + (if p == x then 1 else 0) ≡ occurs p queue
occurs-list_del p x [] h = absurd (ground arith)
occurs-list_del p x (y ∷ queue) h = ground (arith, occurs-list_del p x queue)

pub contains-pick :
    (better : Process → Process → Bool) (procs : ℕ → Process) (next : ℕ) (queue : List ℕ)
    → contains (pick better procs next queue) (next ∷ queue) ≡ true
unfolding pick
contains-pick better procs next [] = rw (==_refl next)
contains-pick better procs next (pos ∷ queue) =
    elim (Bool-cases (better (procs pos) (procs next))) [
      | inl e ↦ ground (arith, e, contains-pick better procs pos queue)
      | inr e ↦ ground (arith, e, contains-pick better procs next queue)
    ]

-- The law of the choice from the ready queue, without the current process.
record Picks (s : System) (r : Option ℕ × System) : Type 0 where
  only_ready : unprio r.1 ≡ unprio (set_ready r.1.readyqueue s)
  conserved : (p : ℕ) → occurs p r.1.readyqueue + chosen p r.0 ≡ occurs p s.readyqueue
  working : r.0 ≡ none → r.1.readyqueue ≡ []

dispatch_ready-Picks :
    (next : ℕ) (s : System) → contains next s.readyqueue ≡ true → Picks s (dispatch_ready next s)
dispatch_ready-Picks next s h = record {
  only_ready = refl;
  conserved = λ p. occurs-list_del p next s.readyqueue h;
  working = λ e. absurd (ground (arith, e));
}

nothing-Picks : (s : System) → s.readyqueue ≡ [] → Picks s (none, s)
nothing-Picks s e = record { only_ready = refl; conserved = λ p. omega arith; working = λ h. e }

pick_head-Picks : (queue : List ℕ) (s : System) → s.readyqueue ≡ queue → Picks s (pick_head queue s)
unfolding pick_head
pick_head-Picks [] s e = nothing-Picks s e
pick_head-Picks (first ∷ queue) s e = dispatch_ready-Picks first s (rw (e, ==_refl first))

pick_best-Picks :
    (better : Process → Process → Bool) (queue : List ℕ) (s : System)
    → s.readyqueue ≡ queue
    → Picks s (pick_best better queue s)
unfolding pick_best
pick_best-Picks better [] s e = nothing-Picks s e
pick_best-Picks better (first ∷ queue) s e =
    dispatch_ready-Picks (pick better s.procs first (first ∷ queue)) s (
      subst (λ q. contains (pick better s.procs first (first ∷ queue)) q ≡ true) (sym e)
        (first_twice (pick better s.procs first (first ∷ queue))
          (contains-pick better s.procs first (first ∷ queue))))
  where
    first_twice :
        (x : ℕ) → contains x (first ∷ first ∷ queue) ≡ true → contains x (first ∷ queue) ≡ true
    first_twice x h = ground arith

contains-pick_aging :
    (next : ℕ) (queue : List ℕ) (s : System)
    → contains (pick_aging next queue s).0 (next ∷ queue) ≡ true
unfolding pick_aging
contains-pick_aging next [] s = rw (==_refl next)
contains-pick_aging next (pos ∷ queue) s =
    elim (Bool-cases (leb (s.procs next).prio (s.procs pos).prio)) [
      | inl e ↦
          ground
            (arith, e, contains-pick_aging pos queue (set_prio pos (inc32 (s.procs pos).prio) s))
      | inr e ↦
          ground
            (arith, e, contains-pick_aging next queue (set_prio pos (inc32 (s.procs pos).prio) s))
    ]

-- A write of a priority is forgotten.
pub unprio-set_prio : (p n : ℕ) (s : System) → unprio (set_prio p n s) ≡ unprio s
unprio-set_prio p n s = ap (λ f. record s { procs = f }) (fun_ext λ q. ground arith)

unprio-pick_aging :
    (next : ℕ) (queue : List ℕ) (s : System) → unprio (pick_aging next queue s).1 ≡ unprio s
unfolding pick_aging
unprio-pick_aging next [] s = refl
unprio-pick_aging next (pos ∷ queue) s =
    unprio-pick_aging (if leb (s.procs next).prio (s.procs pos).prio then pos else next) queue
      (set_prio pos (inc32 (s.procs pos).prio) s)
    ∙ unprio-set_prio pos (inc32 (s.procs pos).prio) s

ready-pick_aging :
    (next : ℕ) (queue : List ℕ) (s : System) → (pick_aging next queue s).1.readyqueue ≡ s.readyqueue
ready-pick_aging next queue s = ap (λ (t : System). t.readyqueue) (unprio-pick_aging next queue s)

reset-Picks :
    (next : ℕ) (t s : System)
    → unprio t ≡ unprio s
    → contains next s.readyqueue ≡ true
    → Picks s (reset_and_dispatch (next, t))
reset-Picks next t s e h =
    let q : t.readyqueue ≡ s.readyqueue = ap (λ (u : System). u.readyqueue) e in
    record {
      only_ready =
          ap (set_ready (list_del next t.readyqueue))
            (unprio-set_prio next (t.procs next).prio_orig t ∙ e);
      conserved = λ p. rw q (occurs-list_del p next s.readyqueue h);
      working = λ n. absurd (ground (arith, n));
    }

pick_aged-Picks : (queue : List ℕ) (s : System) → s.readyqueue ≡ queue → Picks s (pick_aged queue s)
unfolding pick_aged
pick_aged-Picks [] s e = nothing-Picks s e
pick_aged-Picks (first ∷ queue) s e =
    reset-Picks (pick_aging first (first ∷ queue) s).0 (pick_aging first (first ∷ queue) s).1 s
      (unprio-pick_aging first (first ∷ queue) s)
      (subst (λ q. contains (pick_aging first (first ∷ queue) s).0 q ≡ true) (sym e)
        (first_twice (pick_aging first (first ∷ queue) s).0
          (contains-pick_aging first (first ∷ queue) s)))
  where
    first_twice :
        (x : ℕ) → contains x (first ∷ first ∷ queue) ≡ true → contains x (first ∷ queue) ≡ true
    first_twice x h = ground arith

-- With a current process, which need not be that of the state.
record SchedulesFrom (c : Option ℕ) (s : System) (r : Option ℕ × System) : Type 0 where
  only_ready : unprio r.1 ≡ unprio (set_ready r.1.readyqueue s)
  conserved :
      (p : ℕ) → occurs p r.1.readyqueue + chosen p r.0 ≡ occurs p s.readyqueue + running_on p c s
  working : r.0 ≡ none → r.1.readyqueue ≡ []

from_current : (s : System) (r : Option ℕ × System) → SchedulesFrom s.current s r → Schedules s r
from_current s r h = record {
  only_ready = h.only_ready;
  conserved = h.conserved;
  working = h.working;
}

keep_or_pick-Schedules :
    (pick_next : System → Option ℕ × System) (c : Option ℕ) (s : System)
    → Picks s (pick_next s)
    → SchedulesFrom c s (keep_or_pick pick_next c s)
unfolding keep_or_pick
keep_or_pick-Schedules pick_next none s h = record {
  only_ready = h.only_ready;
  conserved = λ p. omega (arith, h.conserved p);
  working = h.working;
}
keep_or_pick-Schedules pick_next (some c) s h = elim (Bool-cases (is_blocked (s.procs c).status)) [
  | inl b ↦ rw b (record {
    only_ready = h.only_ready;
    conserved = λ p. rw b (omega (arith, h.conserved p));
    working = h.working;
  })
  | inr b ↦ elim (Bool-cases (ltb (s.procs c).age (s.procs c).lifespan)) [
    | inl l ↦
        rw (b, l)
          (record {
            only_ready = refl;
            conserved = λ p. rw (b, l);
            working = λ n. absurd (ground (arith, n));
          })
    | inr l ↦
        rw (b, l)
          (record {
            only_ready = h.only_ready;
            conserved = λ p. rw (b, l) (omega (arith, h.conserved p));
            working = h.working;
          })
  ]
]

requeue-Schedules :
    (pick_next : System → Option ℕ × System) (c : Option ℕ) (s : System)
    → ((t : System) → Picks t (pick_next t))
    → SchedulesFrom c s (pick_next (requeue_current c s))
unfolding requeue_current
requeue-Schedules pick_next none s h = record {
  only_ready = (h s).only_ready;
  conserved = λ p. omega (arith, (h s).conserved p);
  working = (h s).working;
}
requeue-Schedules pick_next (some c) s h = elim (Bool-cases (is_blocked (s.procs c).status)) [
  | inl b ↦ rw b (record {
    only_ready = (h s).only_ready;
    conserved = λ p. rw b (omega (arith, (h s).conserved p));
    working = (h s).working;
  })
  | inr b ↦ elim (Bool-cases (ltb (s.procs c).age (s.procs c).lifespan)) [
    | inl l ↦
        let t = set_ready (list_add_tail c s.readyqueue) s in
        rw (b, l)
          (record {
            only_ready = (h t).only_ready;
            conserved = λ p.
                rw (b, l) (omega (arith, (h t).conserved p, occurs-append p s.readyqueue (c ∷ [])));
            working = (h t).working;
          })
    | inr l ↦
        rw (b, l)
          (record {
            only_ready = (h s).only_ready;
            conserved = λ p. rw (b, l) (omega (arith, (h s).conserved p));
            working = (h s).working;
          })
  ]
]

module _ (s : System) where
  pub fcfs_schedule-Schedules : Schedules s (fcfs_schedule s)
  unfolding fcfs_schedule
  fcfs_schedule-Schedules =
      from_current s _ (keep_or_pick-Schedules _ s.current s (pick_head-Picks s.readyqueue s refl))

  pub sjf_schedule-Schedules : Schedules s (sjf_schedule s)
  unfolding sjf_schedule
  sjf_schedule-Schedules =
      from_current s _
        (keep_or_pick-Schedules _ s.current s (pick_best-Picks better_sjf s.readyqueue s refl))

  pub stcf_schedule-Schedules : Schedules s (stcf_schedule s)
  unfolding stcf_schedule
  stcf_schedule-Schedules = from_current s _ (
      requeue-Schedules (λ t. pick_best better_stcf t.readyqueue t) s.current s
        (λ t. pick_best-Picks better_stcf t.readyqueue t refl))

  pub rr_schedule-Schedules : Schedules s (rr_schedule s)
  unfolding rr_schedule
  rr_schedule-Schedules = from_current s _ (
      requeue-Schedules (λ t. pick_head t.readyqueue t) s.current s
        (λ t. pick_head-Picks t.readyqueue t refl))

  pub prio_schedule-Schedules : Schedules s (prio_schedule s)
  unfolding prio_schedule
  prio_schedule-Schedules = from_current s _ (
      requeue-Schedules (λ t. pick_best better_prio t.readyqueue t) s.current s
        (λ t. pick_best-Picks better_prio t.readyqueue t refl))

  pub pa_schedule-Schedules : Schedules s (pa_schedule s)
  unfolding pa_schedule
  pa_schedule-Schedules = from_current s _ (
      requeue-Schedules (λ t. pick_aged t.readyqueue t) s.current s
        (λ t. pick_aged-Picks t.readyqueue t refl))
