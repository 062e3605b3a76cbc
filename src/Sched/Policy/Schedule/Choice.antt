-- ===== src/Sched/Policy/Schedule/Choice.antt =====
-- What each schedule() of pa2.c chooses, except that of the aging scheduler.
use os_pa.Common.{
  ℕ, ◌<◌, ◌≡◌, refl, inl, inr, Bool, false, Option, none, some, List, [], ◌∷◌, ◌++◌, Bool-cases,
  ltb, ltb→lt, arith,
}
use os_pa.Sched.Types.{Process, System, is_blocked}
use os_pa.Sched.Queues.{list_del, set_ready}
use os_pa.Sched.Policy.Pick.{pick, better_sjf, better_stcf, better_prio}
use os_pa.Sched.Policy.Pick.First.{
  FirstLeast, FirstGreatest, InLifetime, time_left, pick_sjf-FirstLeast, pick_prio-FirstGreatest,
  pick_stcf-FirstLeast,
}
use os_pa.Sched.Policy.Schedule.{
  pick_head, pick_best, keep_or_pick, requeue_current, fcfs_schedule, sjf_schedule, stcf_schedule,
  rr_schedule, prio_schedule,
}

-- The current process is not blocked and has time left.
abbrev pub Runnable : Option ℕ → System → Type 0
Runnable none s = ⊥
Runnable (some c) s =
    (is_blocked (s.procs c).status ≡ false) × ((s.procs c).age < (s.procs c).lifespan)

-- The ready queue is empty and nothing is chosen, or the `Best` entry is chosen and leaves it.
pub data Chosen (Best : List ℕ → ℕ → List ℕ → Type 0) (s : System) (r : Option ℕ × System)
    : Type 0 where
  nothing : s.readyqueue ≡ [] → r ≡ (none, s) → Chosen Best s r
  best :
      (next : ℕ) (rest : List ℕ)
      → Best s.readyqueue next rest
      → r ≡ (some next, set_ready rest s)
      → Chosen Best s r

-- A runnable current process goes on, and only in its absence another one is chosen.
pub data Keeps (Best : List ℕ → ℕ → List ℕ → Type 0) (s : System) (r : Option ℕ × System)
    : Type 0 where
  goes_on : Runnable s.current s → r ≡ (s.current, s) → Keeps Best s r
  chooses : ¬ Runnable s.current s → Chosen Best s r → Keeps Best s r

-- A runnable current process is at the tail of the ready queue of `t`; else `t` is `s`.
pub data Requeues (s : System) (t : System) : Type 0 where
  joins :
      (c : ℕ)
      → s.current ≡ some c
      → Runnable (some c) s
      → t ≡ set_ready (s.readyqueue ++ c ∷ []) s
      → Requeues s t
  stays : ¬ Runnable s.current s → t ≡ s → Requeues s t

-- The current process competes with the ready queue, in which it comes last.
abbrev pub Competes : (System → List ℕ → ℕ → List ℕ → Type 0) → System → Option ℕ × System → Type 0
Competes Best s r = (t : System) × Requeues s t × Chosen (Best t) t r

abbrev pub First : List ℕ → ℕ → List ℕ → Type 0
First queue next rest = queue ≡ next ∷ rest

pick_head-Chosen :
    (queue : List ℕ) (s : System) → s.readyqueue ≡ queue → Chosen First s (pick_head queue s)
unfolding pick_head
pick_head-Chosen [] s e = Chosen.nothing e refl
pick_head-Chosen (first ∷ queue) s e = Chosen.best first queue e (ground arith)

pick_best-Chosen :
    (better : Process → Process → Bool) (Best : List ℕ → ℕ → List ℕ → Type 0) (queue : List ℕ)
    (s : System)
    → s.readyqueue ≡ queue
    → ((first : ℕ) (rest : List ℕ)
        → let r = pick better s.procs first (first ∷ rest) in
          Best (first ∷ rest) r (list_del r (first ∷ rest)))
    → Chosen Best s (pick_best better queue s)
unfolding pick_best
pick_best-Chosen better Best [] s e f = Chosen.nothing e refl
pick_best-Chosen better Best (first ∷ queue) s e f =
    Chosen.best (pick better s.procs first (first ∷ queue))
      (list_del (pick better s.procs first (first ∷ queue)) (first ∷ queue)) (rw e (f first queue))
      (rw e)

keep_or_pick-Keeps :
    (Best : List ℕ → ℕ → List ℕ → Type 0) (pick_next : System → Option ℕ × System) (c : Option ℕ)
    (s : System)
    → s.current ≡ c
    → Chosen Best s (pick_next s)
    → Keeps Best s (keep_or_pick pick_next c s)
unfolding keep_or_pick
keep_or_pick-Keeps Best pick_next none s e h = Keeps.chooses (rw e (λ x. x)) h
keep_or_pick-Keeps Best pick_next (some c) s e h =
    elim (Bool-cases (is_blocked (s.procs c).status)) [
      | inl b ↦ rw b (Keeps.chooses (rw e (λ x. ground arith)) h)
      | inr b ↦ elim (Bool-cases (ltb (s.procs c).age (s.procs c).lifespan)) [
        | inl l ↦ rw (b, l) (Keeps.goes_on (rw e (b, ltb→lt _ _ l)) (rw e))
        | inr l ↦ rw (b, l) (Keeps.chooses (rw e (λ x. ground arith)) h)
      ]
    ]

pub requeue_current-Requeues :
    (c : Option ℕ) (s : System) → s.current ≡ c → Requeues s (requeue_current c s)
unfolding requeue_current
requeue_current-Requeues none s e = Requeues.stays (rw e (λ x. x)) refl
requeue_current-Requeues (some c) s e = elim (Bool-cases (is_blocked (s.procs c).status)) [
  | inl b ↦ rw b (Requeues.stays (rw e (λ x. ground arith)) refl)
  | inr b ↦ elim (Bool-cases (ltb (s.procs c).age (s.procs c).lifespan)) [
    | inl l ↦ rw (b, l) (Requeues.joins c e (b, ltb→lt _ _ l) refl)
    | inr l ↦ rw (b, l) (Requeues.stays (rw e (λ x. ground arith)) refl)
  ]
]

-- fcfs_schedule never preempts, and otherwise chooses the head of the ready queue.
pub fcfs_schedule-Keeps : (s : System) → Keeps First s (fcfs_schedule s)
unfolding fcfs_schedule
fcfs_schedule-Keeps s =
    keep_or_pick-Keeps First _ s.current s refl (pick_head-Chosen s.readyqueue s refl)

-- sjf_schedule never preempts a runnable current process. Without one it chooses, and takes off
-- the ready queue, the first of the processes with the shortest lifespan.
pub sjf_schedule-Keeps :
    (s : System) → Keeps (FirstLeast (λ p. (s.procs p).lifespan)) s (sjf_schedule s)
unfolding sjf_schedule
sjf_schedule-Keeps s =
    keep_or_pick-Keeps _ _ s.current s refl
      (pick_best-Chosen better_sjf _ s.readyqueue s refl (pick_sjf-FirstLeast s.procs))

-- rr_schedule appends a runnable current process to the ready queue and chooses its head.
pub rr_schedule-Competes : (s : System) → Competes (λ t. First) s (rr_schedule s)
unfolding rr_schedule
rr_schedule-Competes s =
    let t = requeue_current s.current s in
    (t, requeue_current-Requeues s.current s refl, pick_head-Chosen t.readyqueue t refl)

-- prio_schedule chooses the first process of the highest priority, the runnable current process
-- being the last of the candidates.
pub prio_schedule-Competes :
    (s : System) → Competes (λ t. FirstGreatest (λ p. (t.procs p).prio)) s (prio_schedule s)
unfolding prio_schedule
prio_schedule-Competes s =
    let t = requeue_current s.current s in
    (
      t,
      requeue_current-Requeues s.current s refl,
      pick_best-Chosen better_prio _ t.readyqueue t refl (pick_prio-FirstGreatest t.procs),
    )

pub requeue_current-procs : (c : Option ℕ) (s : System) → (requeue_current c s).procs ≡ s.procs
unfolding requeue_current
requeue_current-procs none s = refl
requeue_current-procs (some c) s = ground arith

-- When no process has outlived its lifespan, stcf_schedule chooses the first process with the
-- least time left, the runnable current process being the last of the candidates.
pub stcf_schedule-Competes :
    (s : System)
    → InLifetime s.procs
    → Competes (λ t. FirstLeast (time_left t.procs)) s (stcf_schedule s)
unfolding stcf_schedule
stcf_schedule-Competes s h =
    let t = requeue_current s.current s in
    (
      t,
      requeue_current-Requeues s.current s refl,
      pick_best-Chosen better_stcf _ t.readyqueue t refl (λ first rest.
          pick_stcf-FirstLeast t.procs first rest (rw (requeue_current-procs s.current s) h)),
    )
