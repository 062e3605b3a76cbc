-- ===== src/Sched/Policy/Schedule/Aging.antt =====
-- The aging scheduler. Its loop raises priorities while it compares them, with `<=`: the candidate
-- has been raised when the next entry, which has not, is compared with it.
use os_pa.Common.{
  ℕ, ◌+◌, ◌<◌, ◌≡◌, refl, ap, ◌∙◌, subst, fun_ext, inl, inr, true, false, if_same, Option, none,
  some, List, [], ◌∷◌, ◌++◌, Bool-cases, ltb, leb, ◌==◌, ==_refl, arith, if◌then◌else◌, update,
  inc32, u32_mod,
}
use os_pa.Sched.Types.{Process, System}
use os_pa.Sched.Queues.{list_del, contains, set_prio}
use os_pa.Sched.Policy.Pick.{pick, better_prio}
use os_pa.Sched.Policy.Pick.First.{FirstGreatest, pick_prio-FirstGreatest}
use os_pa.Sched.Policy.Schedule.{
  requeue_current, reset_and_dispatch, pick_aging, pick_aged, pa_schedule,
}
use os_pa.Sched.Policy.Schedule.Choice.{Requeues, requeue_current-Requeues, requeue_current-procs}

-- No address stands twice in the queue.
abbrev pub Distinct : List ℕ → Type 0
Distinct [] = Unit
Distinct (x ∷ xs) = (contains x xs ≡ false) × Distinct xs

-- The priority of every process can be raised once more.
abbrev pub PrioFits : (ℕ → Process) → Type 0
PrioFits procs = (p : ℕ) → (procs p).prio + 1 < u32_mod

abbrev raise : Process → Process
raise p = record p { prio = inc32 p.prio }

-- Every process in the queue has its priority raised.
abbrev raised : (ℕ → Process) → List ℕ → ℕ → Process
raised procs queue p = if contains p queue then raise (procs p) else procs p

-- The candidate has been raised, and the rest of the queue has not.
module _ (procs : ℕ → Process) (fits : PrioFits procs) where
  record Halfway (next : ℕ) (queue : List ℕ) (s : System) : Type 0 where
    up : (s.procs next).prio ≡ (procs next).prio + 1
    same_prio : (p : ℕ) → contains p queue ≡ true → (s.procs p).prio ≡ (procs p).prio
    fresh : contains next queue ≡ false
    distinct : Distinct queue

  Halfway-step :
      (next pos : ℕ) (queue : List ℕ) (s : System)
      → Halfway next (pos ∷ queue) s
      → (leb (s.procs next).prio (s.procs pos).prio ≡ ltb (procs next).prio (procs pos).prio)
        × Halfway
            (if ltb (procs next).prio (procs pos).prio then pos else next)
            queue
            (set_prio pos (inc32 (s.procs pos).prio) s)
  Halfway-step next pos queue s h =
      let e : (s.procs pos).prio ≡ (procs pos).prio = h.same_prio pos (rw (==_refl pos)) in
      let bound : (procs pos).prio + 1 < u32_mod = fits pos in
      let apart : (next == pos) ≡ false = ground (arith, h.fresh) in
      (
        ground (arith, h.up, e),
        elim (Bool-cases (ltb (procs next).prio (procs pos).prio)) [
          | inl l ↦ rw l (record {
            up = ground (arith, e, bound);
            same_prio = λ p m. ground (arith, h.same_prio p, h.distinct.0, m);
            fresh = h.distinct.0;
            distinct = h.distinct.1;
          })
          | inr l ↦ rw l (record {
            up = ground (arith, h.up, apart);
            same_prio = λ p m. ground (arith, h.same_prio p, h.distinct.0, m);
            fresh = ground (arith, h.fresh);
            distinct = h.distinct.1;
          })
        ],
      )

  pick_aging-pick :
      (next : ℕ) (queue : List ℕ) (s : System)
      → Halfway next queue s
      → (pick_aging next queue s).0 ≡ pick better_prio procs next queue
  unfolding pick_aging pick
  pick_aging-pick next [] s h = refl
  pick_aging-pick next (pos ∷ queue) s h =
      let (e, h') = Halfway-step next pos queue s h in
      rw (e, pick_aging)
        (pick_aging-pick (if ltb (procs next).prio (procs pos).prio then pos else next) queue
          (set_prio pos (inc32 (s.procs pos).prio) s) h')

-- What the loop does to the processes, whatever it picks.
pick_aging-raised :
    (next : ℕ) (queue : List ℕ) (s : System)
    → Distinct queue
    → (pick_aging next queue s).1 ≡ record s { procs = raised s.procs queue }
unfolding pick_aging
pick_aging-raised next [] s d = refl
pick_aging-raised next (pos ∷ queue) s d =
    pick_aging-raised (if leb (s.procs next).prio (s.procs pos).prio then pos else next) queue
      (set_prio pos (inc32 (s.procs pos).prio) s) d.1
    ∙ ap (λ f. record s { procs = f }) (fun_ext λ p. ground (arith, d.0))

-- The processes after a call that chooses `next`: its priority is back at the original one, and
-- those that stay in the queue have gained one.
abbrev pub aged : (ℕ → Process) → List ℕ → ℕ → ℕ → Process
aged procs queue next p =
    if p == next
    then record (procs p) { prio = (procs p).prio_orig }
    else if contains p queue
    then record (procs p) { prio = (procs p).prio + 1 }
    else procs p

pub data Ages (s : System) (r : Option ℕ × System) : Type 0 where
  nothing : s.readyqueue ≡ [] → r ≡ (none, s) → Ages s r
  best :
      (next : ℕ) (rest : List ℕ)
      → FirstGreatest (λ p. (s.procs p).prio) s.readyqueue next rest
      → r ≡ (some next, record s { readyqueue = rest; procs = aged s.procs s.readyqueue next })
      → Ages s r

-- The first round compares the first entry with itself.
pick_aging_first :
    (first : ℕ) (queue : List ℕ) (s : System)
    → PrioFits s.procs
    → Distinct (first ∷ queue)
    → (pick_aging first (first ∷ queue) s).0 ≡ pick better_prio s.procs first (first ∷ queue)
unfolding pick_aging pick
pick_aging_first first queue s fits d =
    let t = set_prio first (inc32 (s.procs first).prio) s in
    let bound : (s.procs first).prio + 1 < u32_mod = fits first in
    let start : Halfway s.procs fits first queue t = record {
      up = ground (arith, bound);
      same_prio = λ p m. ground (arith, d.0, m);
      fresh = d.0;
      distinct = d.1;
    } in
    rw (if_same (leb (s.procs first).prio (s.procs first).prio) first, pick_aging)
      (rw (if_same (ltb (s.procs first).prio (s.procs first).prio) first, pick)
        (pick_aging-pick s.procs fits first queue t start))

procs_aged :
    (procs : ℕ → Process) (fits : PrioFits procs) (queue : List ℕ) (next : ℕ)
    → update
        (raised procs queue)
        next
        (record (raised procs queue next) { prio = (raised procs queue next).prio_orig })
      ≡ aged procs queue next
procs_aged procs fits queue next = fun_ext λ p. ground (arith, fits p)

pick_aged-Ages :
    (queue : List ℕ) (s : System)
    → s.readyqueue ≡ queue
    → PrioFits s.procs
    → Distinct queue
    → Ages s (pick_aged queue s)
unfolding pick_aged
pick_aged-Ages [] s e fits d = Ages.nothing e refl
pick_aged-Ages (first ∷ queue) s e fits d =
    let r = pick better_prio s.procs first (first ∷ queue) in
    Ages.best r (list_del r (first ∷ queue)) (rw e (pick_prio-FirstGreatest s.procs first queue))
      (ap (λ q. reset_and_dispatch q) split ∙ settled)
  where
    split : pick_aging first (first ∷ queue) s ≡ (
      pick better_prio s.procs first (first ∷ queue),
      record s { procs = raised s.procs (first ∷ queue) },
    )
    split =
        ground (
          arith,
          pick_aging_first first queue s fits d,
          pick_aging-raised first (first ∷ queue) s d,
        )

    settled :
        let r = pick better_prio s.procs first (first ∷ queue) in
        reset_and_dispatch (r, record s { procs = raised s.procs (first ∷ queue) }) ≡ (
          some r,
          record s { procs = aged s.procs s.readyqueue r; readyqueue = list_del r (first ∷ queue) },
        )
    settled =
        let r = pick better_prio s.procs first (first ∷ queue) in
        subst
          (λ q.
            reset_and_dispatch (r, record s { procs = raised s.procs q })
            ≡ (some r, record s { procs = aged s.procs s.readyqueue r; readyqueue = list_del r q }))
          e
          (ap (λ f. (some r, record s { procs = f; readyqueue = list_del r s.readyqueue }))
            (procs_aged s.procs fits s.readyqueue r))

Distinct-append : (q : List ℕ) (c : ℕ) → contains c q ≡ false → Distinct q → Distinct (q ++ c ∷ [])
Distinct-append [] c h d = (refl, tt)
Distinct-append (x ∷ q) c h d =
    (contains-append x q c (ground (arith, h)) d.0, Distinct-append q c (ground (arith, h)) d.1)
  where
    contains-append :
        (x : ℕ) (q : List ℕ) (c : ℕ)
        → (x == c) ≡ false
        → contains x q ≡ false
        → contains x (q ++ c ∷ []) ≡ false
    contains-append x [] c n h = rw n
    contains-append x (y ∷ q) c n h = ground (arith, contains-append x q c n (ground (arith, h)))

Requeues-Distinct :
    {s t : System}
    → Requeues s t
    → ((c : ℕ) → s.current ≡ some c → contains c s.readyqueue ≡ false)
    → Distinct s.readyqueue
    → Distinct t.readyqueue
Requeues-Distinct {s} (Requeues.joins c e r q) out d =
    rw q (Distinct-append s.readyqueue c (out c e) d)
Requeues-Distinct (Requeues.stays n q) out d = rw q d

-- With distinct candidates and no priority at the limit of its word, pa_schedule chooses the first
-- candidate of the highest priority, the runnable current process being the last of them, though
-- its loop tests with `<=`. It resets the priority of the chosen one and raises the others by one.
pub pa_schedule-Ages :
    (s : System)
    → PrioFits s.procs
    → Distinct s.readyqueue
    → ((c : ℕ) → s.current ≡ some c → contains c s.readyqueue ≡ false)
    → (t : System) × Requeues s t × Ages t (pa_schedule s)
unfolding pa_schedule
pa_schedule-Ages s fits d out =
    let t = requeue_current s.current s in
    let r : Requeues s t = requeue_current-Requeues s.current s refl in
    (
      t,
      r,
      pick_aged-Ages t.readyqueue t refl (rw (requeue_current-procs s.current s) fits)
          (Requeues-Distinct r out d),
    )
