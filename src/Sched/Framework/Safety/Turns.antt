-- ===== src/Sched/Framework/Safety/Turns.antt =====
-- schedule() keeps the invariant.
use os_pa.Common.{
  ℕ, ◌+◌, ◌<◌, ◌≡◌, refl, sym, ap, ◌∙◌, subst, Option, none, some, [], occurs, lt→ltb, ge→ltb,
  if_true, if_false, arith,
}
use os_pa.Sched.Types.{Status, is_blocked, Process, System, nr_resources}
use os_pa.Sched.Queues.{set_ready}
use os_pa.Sched.Policy.Tables.{Scheduler}
use os_pa.Sched.Policy.Contract.Laws.{chosen, running_on, Schedules, Honours}
use os_pa.Sched.Framework.Simulation.{reschedule}
use os_pa.Sched.Framework.Safety.{wait_count, present, Valid, Done, Prev}
use os_pa.Sched.Framework.Safety.Places.{chosen_self}
use os_pa.Sched.Framework.Waiting.Frame.{Still, Alike-Still}
use os_pa.Sched.Framework.Safety.Alike.{
  Alike, unprio-Alike, Valid-Alike, Alike-Steady, Steady-Clocked, Clocked,
}

-- The process of the last tick, after the choice of the next.
pub data Left (u : System) : Option ℕ → Type 0 where
  nobody : Left u none
  alive : (c : ℕ) → (u.procs c).age < (u.procs c).lifespan → Left u (some c)
  ends : (c : ℕ) → (u.procs c).status ≡ Status.running → Done c u → Left u (some c)

pub record Scheduled (cur : Option ℕ) (s u : System) : Type 0 where
  pub valid : Valid u.current u
  pub left : Left u cur
  pub idle : u.current ≡ none → u.readyqueue ≡ []
  pub clock : Clocked s u
  pub resources : u.resources ≡ s.resources
  pub fork : u.forkqueue ≡ s.forkqueue
  pub still : Still s u
  pub counts :
      (p : ℕ)
      → occurs p u.readyqueue + chosen p u.current ≡ occurs p s.readyqueue + running_on p cur s

-- The process that the ready queue may get back.
record Hand (cur : Option ℕ) (s : System) : Type 0 where
  hand : Option ℕ
  valid : Valid hand s
  counted : (p : ℕ) → running_on p cur s ≡ chosen p hand

over_lem :
    (p c : ℕ) (s : System)
    → (s.procs c).status ≡ Status.running
    → Done c s
    → running_on p (some c) s ≡ 0
over_lem p c s r d =
    if_false _ _ (ap is_blocked r)
    ∙ if_false _ _ (ge→ltb (s.procs c).age (s.procs c).lifespan (omega (arith, d.over)))

Prev-Hand : (cur : Option ℕ) (s : System) → Prev s cur → Hand cur s
Prev-Hand _ s (Prev.nobody v) = record { hand = none; valid = v; counted = λ p. refl }
Prev-Hand _ s (Prev.waits c v b w) = record {
  hand = none;
  valid = v;
  counted = λ p. if_true _ _ (ap is_blocked b);
}
Prev-Hand _ s (Prev.runs c v r) =
    let here : chosen c (some c) ≡ 1 = chosen_self c in
    let g = v.good c (omega (arith, here)) in
    record {
      hand = some c;
      valid = v;
      counted = λ p. if_false _ _ (ap is_blocked r) ∙ if_true _ _ (lt→ltb _ _ g.alive);
    }
Prev-Hand _ s (Prev.ends c v r d) = record {
  hand = none;
  valid = v;
  counted = λ p. over_lem p c s r d;
}

module _ (s : System) (next : Option ℕ) (t : System) (law : Schedules s (next, t)) where
  chose : System
  chose = set_ready t.readyqueue s

  after : System
  after = record t { current = next }

  like : Alike chose after
  unfolding chose after
  like =
      let a = unprio-Alike chose t (sym law.only_ready) in
      record {
        procs = a.procs;
        ready = a.ready;
        fork = a.fork;
        resources = a.resources;
        ticks = a.ticks;
      }

  present-chose :
      (cur : Option ℕ) (h : Hand cur s)
      → s.current ≡ cur
      → (p : ℕ) → present p next chose ≡ present p h.hand s
  unfolding chose
  present-chose cur h e p =
      omega (arith, law.conserved p, h.counted p, ap (λ c. running_on p c s) e)

  chose-Valid : (cur : Option ℕ) (h : Hand cur s) → s.current ≡ cur → Valid next chose
  unfolding chose
  chose-Valid cur h e = record {
    placed = record {
      once = λ p. omega (arith, present-chose cur h e p, h.valid.placed.once p);
      blocked = h.valid.placed.blocked;
    };
    good = λ p k. h.valid.good p (omega (arith, present-chose cur h e p, k));
  }

  after-Valid : (cur : Option ℕ) (h : Hand cur s) → s.current ≡ cur → Valid next after
  after-Valid cur h e = Valid-Alike chose after like next (chose-Valid cur h e)

  alive-after :
      (c : ℕ)
      → (s.procs c).age < (s.procs c).lifespan
      → (after.procs c).age < (after.procs c).lifespan
  unfolding chose after
  alive-after c h = subst (λ (q : Process). q.age < q.lifespan) (like.procs c) h

  after-Done :
      (c : ℕ) → s.current ≡ some c → (s.procs c).status ≡ Status.running → Done c s → Done c after
  unfolding chose after
  after-Done c e r d =
      let q = like.procs c in
      record {
        gone = omega (
          arith,
          d.gone,
          law.conserved c,
          ap (occurs c) like.fork,
          ap (wait_count nr_resources c) like.resources,
          ap (λ x. running_on c x s) e,
          over_lem c c s r d,
        );
        over = subst (λ (x : Process). x.age ≡ x.lifespan) q d.over;
        released = ap (λ (x : Process). x.resources_holding) (sym q) ∙ d.released;
        acquired = ap (λ (x : Process). x.resources_to_acquire) (sym q) ∙ d.acquired;
      }

  lifetime_after : (cur : Option ℕ) → s.current ≡ cur → Prev s cur → Left after cur
  unfolding chose after
  lifetime_after _ e (Prev.nobody v) = Left.nobody
  lifetime_after _ e (Prev.waits c v b w) =
      Left.alive c (alive-after c (v.good c (omega (arith, w))).alive)
  lifetime_after _ e (Prev.runs c v r) =
      let here : chosen c (some c) ≡ 1 = chosen_self c in
      Left.alive c (alive-after c (v.good c (omega (arith, here))).alive)
  lifetime_after _ e (Prev.ends c v r d) =
      Left.ends c (ap (λ (q : Process). q.status) (sym (like.procs c)) ∙ r) (after-Done c e r d)

  pub after-Scheduled :
      (cur : Option ℕ)
      → s.current ≡ cur
      → Prev s cur
      → Scheduled cur s (record t { current = next })
  unfolding after chose
  after-Scheduled cur e prev = record {
    valid = after-Valid cur (Prev-Hand cur s prev) e;
    left = lifetime_after cur e prev;
    idle = law.working;
    clock =
        let k = Steady-Clocked chose after (Alike-Steady chose after like) in
        record { age = k.age; lifespan = k.lifespan; starts_at = k.starts_at; ticks = k.ticks };
    resources = sym like.resources;
    fork = sym like.fork;
    still = Alike-Still chose after like;
    counts = λ p. omega (arith, law.conserved p, ap (λ c. running_on p c s) e);
  }

pub reschedule-Scheduled :
    (sched : Scheduler) (cur : Option ℕ) (s : System)
    → Honours sched
    → s.current ≡ cur
    → Prev s cur
    → Scheduled cur s (reschedule sched s)
reschedule-Scheduled sched cur s h e prev =
    after-Scheduled s (sched.schedule s).0 (sched.schedule s).1 (h.schedules s) cur e prev

-- A running process waits for nothing.
