-- ===== src/Sched/Framework/Safety/Alike.antt =====
-- States that differ in nothing that the invariant reads, and writes of a status.
use os_pa.Common.{
  ℕ, ◌<◌, ◌≡◌, ◌≢◌, ◌⊎◌, refl, sym, ap, ◌∙◌, subst, Option, occurs, update, ◌==◌, if_true, if_false,
  Bool-cases, inl, inr, arith, ==→eq, ==→ne,
}
use os_pa.Sched.Types.{Status, Process, Resource, System, nr_resources}
use os_pa.Sched.Queues.{set_status}
use os_pa.Sched.Policy.Contract.Laws.{unprio}
use os_pa.Sched.Framework.Safety.{wait_count, present, Good, Placed, Valid}

abbrev pub no_prio : Process → Process
no_prio q = record q { prio = 0 }

-- The places and, priorities aside, the processes are the same.
pub record Alike (s t : System) : Type 0 where
  pub procs : (p : ℕ) → no_prio (s.procs p) ≡ no_prio (t.procs p)
  pub ready : s.readyqueue ≡ t.readyqueue
  pub fork : s.forkqueue ≡ t.forkqueue
  pub resources : s.resources ≡ t.resources
  pub ticks : s.ticks ≡ t.ticks

pub unprio-Alike : (s t : System) → unprio s ≡ unprio t → Alike s t
unprio-Alike s t e = record {
  procs = λ p. ap (λ (u : System). u.procs p) e;
  ready = ap (λ (u : System). u.readyqueue) e;
  fork = ap (λ (u : System). u.forkqueue) e;
  resources = ap (λ (u : System). u.resources) e;
  ticks = ap (λ (u : System). u.ticks) e;
}

Good-no_prio : {r : ℕ → Resource} {p : ℕ} {q : Process} → Good r p q → Good r p (no_prio q)
Good-no_prio g = record {
  alive = g.alive;
  small = g.small;
  plans = g.plans;
  holds = g.holds;
  distinct = g.distinct;
}

no_prio-Good : {r : ℕ → Resource} {p : ℕ} {q : Process} → Good r p (no_prio q) → Good r p q
no_prio-Good g = record {
  alive = g.alive;
  small = g.small;
  plans = g.plans;
  holds = g.holds;
  distinct = g.distinct;
}

pub Good-set_status :
    {r : ℕ → Resource} {p : ℕ} {q : Process} (st : Status)
    → Good r p q
    → Good r p (record q { status = st })
Good-set_status st g = record {
  alive = g.alive;
  small = g.small;
  plans = g.plans;
  holds = g.holds;
  distinct = g.distinct;
}

module _ (s t : System) (a : Alike s t) where
  pub present-Alike : (hand : Option ℕ) (p : ℕ) → present p hand t ≡ present p hand s
  present-Alike hand p = omega (
    arith,
    ap (occurs p) a.ready,
    ap (occurs p) a.fork,
    ap (wait_count nr_resources p) a.resources,
  )

  pub status-Alike : (p : ℕ) → (t.procs p).status ≡ (s.procs p).status
  status-Alike p = ap (λ (q : Process). q.status) (sym (a.procs p))

  pub Good-Alike : (p : ℕ) → Good s.resources p (s.procs p) → Good t.resources p (t.procs p)
  Good-Alike p g = no_prio-Good (
      subst (λ q. Good t.resources p q) (a.procs p)
        (subst (λ r. Good r p (no_prio (s.procs p))) a.resources (Good-no_prio g)))

  pub Placed-Alike : (hand : Option ℕ) → Placed hand s → Placed hand t
  Placed-Alike hand v = record {
    once = λ p. omega (arith, present-Alike hand p, v.once p);
    blocked = λ i w h k.
        status-Alike w
        ∙ v.blocked i w h
            (subst (λ (r : ℕ → Resource). 0 < occurs w (r i).waitqueue) (sym a.resources) k);
  }

  pub Valid-Alike : (hand : Option ℕ) → Valid hand s → Valid hand t
  Valid-Alike hand v = record {
    placed = Placed-Alike hand v.placed;
    good = λ p h. Good-Alike p (v.good p (omega (arith, present-Alike hand p, h)));
  }

-- The steps that keep the times of the processes and the clock.
pub record Clocked (s t : System) : Type 0 where
  pub age : (p : ℕ) → (t.procs p).age ≡ (s.procs p).age
  pub lifespan : (p : ℕ) → (t.procs p).lifespan ≡ (s.procs p).lifespan
  pub starts_at : (p : ℕ) → (t.procs p).starts_at ≡ (s.procs p).starts_at
  pub ticks : t.ticks ≡ s.ticks

pub Clocked-refl : (s : System) → Clocked s s
Clocked-refl s = record {
  age = λ p. refl;
  lifespan = λ p. refl;
  starts_at = λ p. refl;
  ticks = refl;
}

pub Clocked-trans : (s t u : System) → Clocked s t → Clocked t u → Clocked s u
Clocked-trans s t u h k = record {
  age = λ p. k.age p ∙ h.age p;
  lifespan = λ p. k.lifespan p ∙ h.lifespan p;
  starts_at = λ p. k.starts_at p ∙ h.starts_at p;
  ticks = k.ticks ∙ h.ticks;
}

-- The steps that keep the ages, the clock and the two queues.
pub record Steady (s t : System) : Type 0 where
  pub age : (p : ℕ) → (t.procs p).age ≡ (s.procs p).age
  pub lifespan : (p : ℕ) → (t.procs p).lifespan ≡ (s.procs p).lifespan
  pub starts_at : (p : ℕ) → (t.procs p).starts_at ≡ (s.procs p).starts_at
  pub ticks : t.ticks ≡ s.ticks
  pub ready : t.readyqueue ≡ s.readyqueue
  pub fork : t.forkqueue ≡ s.forkqueue

pub Steady-Clocked : (s t : System) → Steady s t → Clocked s t
Steady-Clocked s t h = record {
  age = h.age;
  lifespan = h.lifespan;
  starts_at = h.starts_at;
  ticks = h.ticks;
}

pub Steady-refl : (s : System) → Steady s s
Steady-refl s = record {
  age = λ p. refl;
  lifespan = λ p. refl;
  starts_at = λ p. refl;
  ticks = refl;
  ready = refl;
  fork = refl;
}

pub Steady-trans : (s t u : System) → Steady s t → Steady t u → Steady s u
Steady-trans s t u h k = record {
  age = λ p. k.age p ∙ h.age p;
  lifespan = λ p. k.lifespan p ∙ h.lifespan p;
  starts_at = λ p. k.starts_at p ∙ h.starts_at p;
  ticks = k.ticks ∙ h.ticks;
  ready = k.ready ∙ h.ready;
  fork = k.fork ∙ h.fork;
}

pub Alike-Steady : (s t : System) → Alike s t → Steady s t
Alike-Steady s t a = record {
  age = λ p. ap (λ (q : Process). q.age) (sym (a.procs p));
  lifespan = λ p. ap (λ (q : Process). q.lifespan) (sym (a.procs p));
  starts_at = λ p. ap (λ (q : Process). q.starts_at) (sym (a.procs p));
  ticks = sym a.ticks;
  ready = sym a.ready;
  fork = sym a.fork;
}

-- A write to one process that keeps its times.
abbrev pub write : ℕ → Process → System → System
write c q s = record s { procs = update s.procs c q }

pub write-Steady :
    (c : ℕ) (q : Process) (s : System)
    → q.age ≡ (s.procs c).age
    → q.lifespan ≡ (s.procs c).lifespan
    → q.starts_at ≡ (s.procs c).starts_at
    → Steady s (write c q s)
write-Steady c q s a l b = record {
  age = λ p. field (λ x. x.age) p a;
  lifespan = λ p. field (λ x. x.lifespan) p l;
  starts_at = λ p. field (λ x. x.starts_at) p b;
  ticks = refl;
  ready = refl;
  fork = refl;
}
  where
    field :
        (f : Process → ℕ) (p : ℕ) → f q ≡ f (s.procs c) → f (update s.procs c q p) ≡ f (s.procs p)
    field f p e = elim (Bool-cases (c == p)) [
      | inl same ↦ ap f (if_true _ _ same) ∙ e ∙ ap (λ x. f (s.procs x)) (==→eq c p same)
      | inr other ↦ ap f (if_false _ _ other)
    ]

-- A process is written that is in no wait queue, or that is blocked.
pub Placed-write :
    (hand : Option ℕ) (s : System) (x : ℕ) (q : Process)
    → (q.status ≡ Status.blocked)
      ⊎ ((i : ℕ) → i < nr_resources → occurs x (s.resources i).waitqueue ≡ 0)
    → Placed hand s
    → Placed hand (write x q s)
Placed-write hand s x q free v = record {
  once = v.once;
  blocked = λ i w h k. elim (Bool-cases (x == w)) [
    | inl same ↦ elim free [
      | inl e ↦ ap (λ (y : Process). y.status) (if_true _ _ same) ∙ e
      | inr absent ↦ absurd (
          omega
            (arith, k, absent i h, ap (λ y. occurs y (s.resources i).waitqueue) (==→eq x w same)))
    ]
    | inr other ↦ ap (λ (y : Process). y.status) (if_false _ _ other) ∙ v.blocked i w h k
  ];
}

pub Good-write :
    (s : System) (x : ℕ) (q : Process) (p : ℕ)
    → (x ≡ p → Good s.resources x q)
    → (x ≢ p → Good s.resources p (s.procs p))
    → Good s.resources p ((write x q s).procs p)
Good-write s x q p g h = elim (Bool-cases (x == p)) [
  | inl same ↦
      let e : x ≡ p = ==→eq x p same in
      subst (λ y. Good s.resources p y) (sym (if_true _ _ same))
        (subst (λ y. Good s.resources y q) e (g e))
  | inr other ↦ subst (λ y. Good s.resources p y) (sym (if_false _ _ other)) (h (==→ne x p other))
]

pub Valid-write :
    (hand : Option ℕ) (s : System) (x : ℕ) (q : Process)
    → (q.status ≡ Status.blocked)
      ⊎ ((i : ℕ) → i < nr_resources → occurs x (s.resources i).waitqueue ≡ 0)
    → (Good s.resources x (s.procs x) → Good s.resources x q)
    → Valid hand s
    → Valid hand (write x q s)
Valid-write hand s x q free g v = record {
  placed = Placed-write hand s x q free v.placed;
  good = λ p h.
      Good-write s x q p (λ e. g (subst (λ y. Good s.resources y (s.procs y)) (sym e) (v.good p h)))
        (λ n. v.good p h);
}

pub Valid-set_status :
    (hand : Option ℕ) (s : System) (x : ℕ) (st : Status)
    → (st ≡ Status.blocked) ⊎ ((i : ℕ) → i < nr_resources → occurs x (s.resources i).waitqueue ≡ 0)
    → Valid hand s
    → Valid hand (set_status x st s)
Valid-set_status hand s x st free v =
    Valid-write hand s x (record (s.procs x) { status = st }) free (Good-set_status st) v

pub set_status-Steady : (x : ℕ) (st : Status) (s : System) → Steady s (set_status x st s)
set_status-Steady x st s = write-Steady x (record (s.procs x) { status = st }) s refl refl refl
