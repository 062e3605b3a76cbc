-- ===== src/Sched/Framework/Safety/Forks.antt =====
-- __fork_on_schedule keeps the invariant.
use os_pa.Common.{
  ℕ, ◌+◌, ◌≤◌, ◌<◌, ◌≡◌, ◌≢◌, refl, sym, ap, ◌∙◌, subst, true, false, Option, none, some, List, [],
  ◌∷◌, occurs, occurs-append, update_ne, leb, ltb, ◌==◌, if◌then◌else◌, Bool-cases, inl, inr, arith,
  ==→eq,
}
use os_pa.Sched.Types.{Status, is_blocked, Process, System, nr_resources}
use os_pa.Sched.Queues.{list_del, list_add_tail, set_status}
use os_pa.Sched.Policy.Contract.Laws.{chosen, running_on}
use os_pa.Sched.Framework.Simulation.{fork_process, fork_each, fork_on_schedule}
use os_pa.Sched.Framework.Safety.{queued, Placed, Valid, Done, Prev}
use os_pa.Sched.Framework.Safety.Places.{chosen_self, occurs-list_del, occurs-wait_count}
use os_pa.Sched.Framework.Waiting.Frame.{Still, Still-refl, Still-trans, set_status-Still}
use os_pa.Sched.Framework.Safety.Alike.{
  Valid-Alike, Valid-set_status, set_status-Steady, Clocked, Clocked-refl, Clocked-trans,
}

-- The queues after the fork of p.
abbrev moved : ℕ → System → System
moved p s = record s {
  forkqueue = list_del p s.forkqueue;
  readyqueue = list_add_tail p s.readyqueue;
}

queued-moved : (p c : ℕ) (s : System) → 0 < occurs p s.forkqueue → queued c (moved p s) ≡ queued c s
queued-moved p c s h =
    omega (arith, occurs-list_del c p s.forkqueue h, occurs-append c s.readyqueue (p ∷ []))

pub not_waiting :
    (hand : Option ℕ) (s : System) (p : ℕ)
    → Placed hand s
    → 0 < occurs p s.readyqueue + occurs p s.forkqueue + chosen p hand
    → (i : ℕ) → i < nr_resources
    → occurs p (s.resources i).waitqueue ≡ 0
not_waiting hand s p v h i r =
    omega (arith, v.once p, h, occurs-wait_count nr_resources p i s.resources r)

fork_process-Valid :
    (hand : Option ℕ) (p : ℕ) (s : System)
    → 0 < occurs p s.forkqueue
    → Valid hand s
    → Valid hand (fork_process p s)
fork_process-Valid hand p s h v =
    Valid-Alike (set_status p Status.ready (moved p s)) (fork_process p s)
      (record { procs = λ q. refl; ready = refl; fork = refl; resources = refl; ticks = refl }) hand
      (Valid-set_status hand (moved p s) p Status.ready
        (inr (not_waiting hand s p v.placed (omega (arith, h))))
        (record {
          placed = record {
            once = λ q. omega (arith, queued-moved p q s h, v.placed.once q);
            blocked = v.placed.blocked;
          };
          good = λ q k. v.good q (omega (arith, queued-moved p q s h, k));
        }))

procs-fork_process : (p c : ℕ) (s : System) → p ≢ c → (fork_process p s).procs c ≡ s.procs c
procs-fork_process p c s h = update_ne s.procs p c (record (s.procs p) { status = Status.ready }) h

-- A step that keeps the invariant, the counts and the process of the last tick keeps the rest too.
pub Done-kept :
    (c : ℕ) (s t : System) → t.procs c ≡ s.procs c → queued c t ≡ queued c s → Done c s → Done c t
Done-kept c s t e q d = record {
  gone = q ∙ d.gone;
  over = subst (λ (x : Process). x.age ≡ x.lifespan) (sym e) d.over;
  released = ap (λ (x : Process). x.resources_holding) e ∙ d.released;
  acquired = ap (λ (x : Process). x.resources_to_acquire) e ∙ d.acquired;
}

-- The process of the last tick is not in the fork queue.
away : (c p : ℕ) (s : System) → 0 < occurs p s.forkqueue → Prev s (some c) → p ≢ c
away c p s h (Prev.waits _ v b w) =
    λ e. omega (arith, h, w, v.placed.once c, ap (λ x. occurs x s.forkqueue) e)
away c p s h (Prev.runs _ v r) =
    λ e. omega (arith, h, v.placed.once c, chosen_self c, ap (λ x. occurs x s.forkqueue) e)
away c p s h (Prev.ends _ v r d) = λ e. omega (arith, h, d.gone, ap (λ x. occurs x s.forkqueue) e)

fork_process-Prev :
    (cur : Option ℕ) (p : ℕ) (s : System)
    → 0 < occurs p s.forkqueue
    → Prev s cur
    → Prev (fork_process p s) cur
fork_process-Prev _ p s h (Prev.nobody v) = Prev.nobody (fork_process-Valid none p s h v)
fork_process-Prev _ p s h (Prev.waits c v b w) =
    Prev.waits c (fork_process-Valid none p s h v)
      (ap (λ (x : Process). x.status) (procs-fork_process p c s (away c p s h (Prev.waits c v b w)))
        ∙ b)
      w
fork_process-Prev _ p s h (Prev.runs c v r) =
    Prev.runs c (fork_process-Valid (some c) p s h v) (
      ap (λ (x : Process). x.status) (procs-fork_process p c s (away c p s h (Prev.runs c v r)))
      ∙ r)
fork_process-Prev _ p s h (Prev.ends c v r d) =
    let same = procs-fork_process p c s (away c p s h (Prev.ends c v r d)) in
    Prev.ends c (fork_process-Valid none p s h v) (ap (λ (x : Process). x.status) same ∙ r)
      (Done-kept c s (fork_process p s) same (queued-moved p c s h) d)

running_on-fork_process :
    (cur : Option ℕ) (p q : ℕ) (s : System)
    → 0 < occurs p s.forkqueue
    → Prev s cur
    → running_on q cur (fork_process p s) ≡ running_on q cur s
running_on-fork_process none p q s h v = refl
running_on-fork_process (some c) p q s h v =
    ap
      (λ (x : Process).
        if is_blocked x.status then 0 else if ltb x.age x.lifespan then chosen q (some c) else 0)
      (procs-fork_process p c s (away c p s h v))

fork_process-Clocked : (p : ℕ) (s : System) → Clocked s (fork_process p s)
fork_process-Clocked p s =
    let k = set_status-Steady p Status.ready (moved p s) in
    record { age = k.age; lifespan = k.lifespan; starts_at = k.starts_at; ticks = refl }

fork_process-Still : (p : ℕ) (s : System) → Still s (fork_process p s)
fork_process-Still p s = set_status-Still p Status.ready s

-- The process is not due.
abbrev pub Late : System → ℕ → Type 0
Late s p = s.ticks < (s.procs p).starts_at

pub Late-Clocked : (s t : System) (p : ℕ) → Clocked s t → Late s p → Late t p
Late-Clocked s t p k h = omega (arith, h, k.ticks, k.starts_at p)

-- The state after the loop: the invariant holds, the process of the last tick is the same, and who
-- is left in the fork queue is not due.
pub record Forked (cur : Option ℕ) (s t : System) : Type 0 where
  pub prev : Prev t cur
  pub current : t.current ≡ s.current
  pub clock : Clocked s t
  pub resources : t.resources ≡ s.resources
  pub counts :
      (p : ℕ)
      → occurs p t.readyqueue + occurs p t.forkqueue ≡ occurs p s.readyqueue + occurs p s.forkqueue
  pub running : (p : ℕ) → running_on p cur t ≡ running_on p cur s
  pub late : (p : ℕ) → 0 < occurs p t.forkqueue → Late t p
  pub still : Still s t
  pub fewer : (p : ℕ) → occurs p t.forkqueue ≤ occurs p s.forkqueue

pub fork_due :
    (p : ℕ) (queue : List ℕ) (n : ℕ) (s : System)
    → leb (s.procs p).starts_at s.ticks ≡ true
    → fork_each (p ∷ queue) n s ≡ fork_each queue (n + 1) (fork_process p s)
unfolding fork_each
fork_due p queue n s due = rw (due, fork_each) refl

pub fork_early :
    (p : ℕ) (queue : List ℕ) (n : ℕ) (s : System)
    → leb (s.procs p).starts_at s.ticks ≡ false
    → fork_each (p ∷ queue) n s ≡ fork_each queue n s
unfolding fork_each
fork_early p queue n s early = rw (early, fork_each) refl

fork_each-Forked :
    (cur : Option ℕ) (queue : List ℕ) (n : ℕ) (s : System)
    → ((p : ℕ) → occurs p queue ≤ occurs p s.forkqueue)
    → ((p : ℕ) → occurs p queue < occurs p s.forkqueue → Late s p)
    → Prev s cur
    → Forked cur s (fork_each queue n s).1
unfolding fork_each
fork_each-Forked cur [] n s h l v = record {
  prev = v;
  current = refl;
  clock = Clocked-refl s;
  resources = refl;
  counts = λ p. refl;
  running = λ p. refl;
  late = l;
  still = Still-refl s;
  fewer = λ p. omega arith;
}
fork_each-Forked cur (p ∷ queue) n s h l v = elim (Bool-cases (leb (s.procs p).starts_at s.ticks)) [
  | inl due ↦
      let first : occurs p (p ∷ queue) ≡ 1 + occurs p queue = ground arith in
      let there : 0 < occurs p s.forkqueue = omega (arith, h p, first) in
      let u = fork_process p s in
      let k = fork_process-Clocked p s in
      let f =
        fork_each-Forked cur queue (n + 1) u
          (λ q. omega (arith, h q, occurs-list_del q p s.forkqueue there))
          (λ q x.
            Late-Clocked s u q k (l q (omega (arith, x, occurs-list_del q p s.forkqueue there))))
          (fork_process-Prev cur p s there v) in
      subst (λ r. Forked cur s r.1) (sym (fork_due p queue n s due))
        (record {
          prev = f.prev;
          current = f.current;
          clock = Clocked-trans s u (fork_each queue (n + 1) u).1 k f.clock;
          resources = f.resources;
          counts = λ q. omega (
            arith,
            f.counts q,
            occurs-list_del q p s.forkqueue there,
            occurs-append q s.readyqueue (p ∷ []),
          );
          running = λ q. f.running q ∙ running_on-fork_process cur p q s there v;
          late = f.late;
          still = Still-trans s u (fork_each queue (n + 1) u).1 (fork_process-Still p s) f.still;
          fewer = λ q. omega (arith, f.fewer q, occurs-list_del q p s.forkqueue there);
        })
  | inr early ↦
      subst (λ r. Forked cur s r.1) (sym (fork_early p queue n s early))
        (fork_each-Forked cur queue n s (λ q. omega (arith, h q))
          (λ q x. elim (Bool-cases (q == p)) [
            | inl same ↦ subst (Late s) (sym (==→eq q p same)) (ground (arith, early))
            | inr other ↦ l q (ground (arith, x, other))
          ])
          v)
]

pub fork_on_schedule-Forked :
    (cur : Option ℕ) (s : System) → Prev s cur → Forked cur s (fork_on_schedule s).1
unfolding fork_on_schedule
fork_on_schedule-Forked cur s v =
    fork_each-Forked cur s.forkqueue 0 s (λ p. omega arith) (λ p x. absurd (omega (arith, x))) v
