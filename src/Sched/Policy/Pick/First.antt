-- ===== src/Sched/Policy/Pick/First.antt =====
-- The selection loop of pa2.c against a description that names no loop: which entry is picked.
use os_pa.Common.{
  ℕ, ◌<◌, ◌≤◌, ◌≡◌, refl, sym, ap, subst, ◌-◌, u32_mod, sub32_lem, fun_ext, inl, inr, Bool, true,
  false, List, [], ◌∷◌, ◌++◌, All, Bool-cases, ltb→lt, ltb→ge, ne→==, arith, ==_refl,
}
use os_pa.Sched.Types.{Process}
use os_pa.Sched.Queues.{list_del}
use os_pa.Sched.Policy.Pick.{pick, better_sjf, better_stcf, better_prio, remaining}

-- `next` stands in the queue behind entries that are all `Ahead` and before entries that are all
-- `Behind`, and `rest` is the queue without it.
pub record Split (Ahead Behind : ℕ → Type 0) (queue : List ℕ) (next : ℕ) (rest : List ℕ)
    : Type 0 where
  pub before : List ℕ
  pub after : List ℕ
  pub whole : queue ≡ before ++ next ∷ after
  pub remains : rest ≡ before ++ after
  pub ahead : All Ahead before
  pub behind : All Behind after

-- `next` is the first entry of the queue with the least key, or with the greatest.
abbrev pub FirstLeast : (ℕ → ℕ) → List ℕ → ℕ → List ℕ → Type 0
FirstLeast key queue next rest =
    Split (λ p. key next < key p) (λ p. key next ≤ key p) queue next rest

abbrev pub FirstGreatest : (ℕ → ℕ) → List ℕ → ℕ → List ℕ → Type 0
FirstGreatest key queue next rest =
    Split (λ p. key p < key next) (λ p. key p ≤ key next) queue next rest

All-map : {P Q : ℕ → Type 0} (xs : List ℕ) → ((a : ℕ) → P a → Q a) → All P xs → All Q xs
All-map [] f h = tt
All-map (x ∷ xs) f h = (f x h.0, All-map xs f h.1)

-- A test that compares as a strict order of keys does.
pub record IsOrder (better : ℕ → ℕ → Bool) : Type 0 where
  pub irrefl : (a : ℕ) → better a a ≡ false
  pub trans : (a b c : ℕ) → better a b ≡ true → better b c ≡ true → better a c ≡ true
  pub weak : (a b c : ℕ) → better a c ≡ true → better b c ≡ false → better a b ≡ true

module _ (better : Process → Process → Bool) (procs : ℕ → Process) where
  abbrev beats : ℕ → ℕ → Bool
  beats a b = better (procs a) (procs b)

  -- The loop keeps its candidate, or moves to an entry that beats it and all that it has passed.
  data Picked (next : ℕ) (queue : List ℕ) (r : ℕ) : Type 0 where
    kept : r ≡ next → All (λ p. beats p next ≡ false) queue → Picked next queue r
    moved :
        (pre post : List ℕ)
        → queue ≡ pre ++ r ∷ post
        → beats r next ≡ true
        → All (λ p. beats r p ≡ true) pre
        → All (λ p. beats p r ≡ false) post
        → Picked next queue r

module _ (better : Process → Process → Bool) (procs : ℕ → Process)
    (o : IsOrder (λ a b. better (procs a) (procs b))) where
  pass_better :
      (next pos : ℕ) (queue : List ℕ) (r : ℕ)
      → better (procs pos) (procs next) ≡ true
      → Picked better procs pos queue r
      → Picked better procs next (pos ∷ queue) r
  pass_better next pos queue r e (Picked.kept same rest) =
      Picked.moved [] queue (rw same) (rw same e) tt (rw same rest)
  pass_better next pos queue r e (Picked.moved pre post q b ahead behind) =
      Picked.moved (pos ∷ pre) post (ap (◌∷◌ pos) q) (o.trans r pos next b e) (b, ahead) behind

  pass_worse :
      (next pos : ℕ) (queue : List ℕ) (r : ℕ)
      → better (procs pos) (procs next) ≡ false
      → Picked better procs next queue r
      → Picked better procs next (pos ∷ queue) r
  pass_worse next pos queue r e (Picked.kept same rest) = Picked.kept same (e, rest)
  pass_worse next pos queue r e (Picked.moved pre post q b ahead behind) =
      Picked.moved (pos ∷ pre) post (ap (◌∷◌ pos) q) b (o.weak r pos next b e, ahead) behind

  pick-Picked :
      (next : ℕ) (queue : List ℕ) → Picked better procs next queue (pick better procs next queue)
  unfolding pick
  pick-Picked next [] = Picked.kept refl tt
  pick-Picked next (pos ∷ queue) = elim (Bool-cases (better (procs pos) (procs next))) [
    | inl e ↦ rw e (pass_better next pos queue _ e (pick-Picked pos queue))
    | inr e ↦ rw e (pass_worse next pos queue _ e (pick-Picked next queue))
  ]

  -- Taking out an entry that beats all before it takes out that very occurrence.
  list_del_first :
      (r : ℕ) (pre post : List ℕ)
      → All (λ p. better (procs r) (procs p) ≡ true) pre
      → list_del r (pre ++ r ∷ post) ≡ pre ++ post
  list_del_first r [] post h = rw (==_refl r)
  list_del_first r (x ∷ pre) post h =
      rw (ne→== r x (λ e. self e h.0)) (ap (◌∷◌ x) (list_del_first r pre post h.1))
    where
      self : r ≡ x → better (procs r) (procs x) ≡ true → ⊥
      self e b = ground (arith, o.irrefl x, e, b)

  Picked-Split :
      (first : ℕ) (queue : List ℕ) (r : ℕ)
      → Picked better procs first queue r
      → Split
          (λ p. better (procs r) (procs p) ≡ true)
          (λ p. better (procs p) (procs r) ≡ false)
          (first ∷ queue)
          r
          (list_del r (first ∷ queue))
  Picked-Split first queue r (Picked.kept same rest) = record {
    before = [];
    after = queue;
    whole = rw same;
    remains = rw (same, ==_refl first);
    ahead = tt;
    behind = rw same rest;
  }
  Picked-Split first queue r (Picked.moved pre post q b ahead behind) = record {
    before = first ∷ pre;
    after = post;
    whole = ap (◌∷◌ first) q;
    remains = rw q (list_del_first r (first ∷ pre) post (b, ahead));
    ahead = (b, ahead);
    behind = behind;
  }

  -- The loop begins at the candidate itself.
  pick_again :
      (first : ℕ) (queue : List ℕ)
      → pick better procs first (first ∷ queue) ≡ pick better procs first queue
  unfolding pick
  pick_again first queue = rw (o.irrefl first)

  pub pick-Split :
      (first : ℕ) (queue : List ℕ)
      → let r = pick better procs first (first ∷ queue) in
        Split
          (λ p. better (procs r) (procs p) ≡ true)
          (λ p. better (procs p) (procs r) ≡ false)
          (first ∷ queue)
          r
          (list_del r (first ∷ queue))
  pick-Split first queue =
      subst
        (λ r.
          Split (λ p. better (procs r) (procs p) ≡ true) (λ p. better (procs p) (procs r) ≡ false)
            (first ∷ queue) r (list_del r (first ∷ queue)))
        (sym (pick_again first queue)) (Picked-Split first queue _ (pick-Picked first queue))

Split-map :
    {A B A' B' : ℕ → Type 0} (queue : List ℕ) (next : ℕ) (rest : List ℕ)
    → ((p : ℕ) → A p → A' p)
    → ((p : ℕ) → B p → B' p)
    → Split A B queue next rest
    → Split A' B' queue next rest
Split-map queue next rest f g s = record {
  before = s.before;
  after = s.after;
  whole = s.whole;
  remains = s.remains;
  ahead = All-map s.before f s.ahead;
  behind = All-map s.after g s.behind;
}

better_sjf-IsOrder : (procs : ℕ → Process) → IsOrder (λ a b. better_sjf (procs a) (procs b))
better_sjf-IsOrder procs = record {
  irrefl = λ a. ground arith;
  trans = λ a b c h k. ground arith;
  weak = λ a b c h k. ground arith;
}

better_stcf-IsOrder : (procs : ℕ → Process) → IsOrder (λ a b. better_stcf (procs a) (procs b))
better_stcf-IsOrder procs = record {
  irrefl = λ a. ground arith;
  trans = λ a b c h k. ground arith;
  weak = λ a b c h k. ground arith;
}

better_prio-IsOrder : (procs : ℕ → Process) → IsOrder (λ a b. better_prio (procs a) (procs b))
better_prio-IsOrder procs = record {
  irrefl = λ a. ground arith;
  trans = λ a b c h k. ground arith;
  weak = λ a b c h k. ground arith;
}

-- No process has run past its lifespan, which fits an unsigned int.
abbrev pub InLifetime : (ℕ → Process) → Type 0
InLifetime procs = (p : ℕ) → ((procs p).age ≤ (procs p).lifespan) × ((procs p).lifespan < u32_mod)

-- The time that a process has left.
abbrev pub time_left : (ℕ → Process) → ℕ → ℕ
time_left procs p = (procs p).lifespan - (procs p).age

remaining-time_left :
    (procs : ℕ → Process) → InLifetime procs → (p : ℕ) → remaining (procs p) ≡ time_left procs p
remaining-time_left procs h p = sub32_lem (procs p).lifespan (procs p).age (h p).0 (h p).1

module _ (procs : ℕ → Process) (first : ℕ) (queue : List ℕ) where
  pub pick_sjf-FirstLeast :
      let r = pick better_sjf procs first (first ∷ queue) in
      FirstLeast (λ p. (procs p).lifespan) (first ∷ queue) r (list_del r (first ∷ queue))
  pick_sjf-FirstLeast =
      Split-map _ _ _ (λ p. ltb→lt _ _) (λ p. ltb→ge _ _)
        (pick-Split better_sjf procs (better_sjf-IsOrder procs) first queue)

  pub pick_prio-FirstGreatest :
      let r = pick better_prio procs first (first ∷ queue) in
      FirstGreatest (λ p. (procs p).prio) (first ∷ queue) r (list_del r (first ∷ queue))
  pick_prio-FirstGreatest =
      Split-map _ _ _ (λ p. ltb→lt _ _) (λ p. ltb→ge _ _)
        (pick-Split better_prio procs (better_prio-IsOrder procs) first queue)

  pub pick_stcf-FirstLeast :
      InLifetime procs
      → let r = pick better_stcf procs first (first ∷ queue) in
        FirstLeast (time_left procs) (first ∷ queue) r (list_del r (first ∷ queue))
  pick_stcf-FirstLeast h =
      subst
        (λ key.
          let r = pick better_stcf procs first (first ∷ queue) in
          FirstLeast key (first ∷ queue) r (list_del r (first ∷ queue)))
        (fun_ext (remaining-time_left procs h))
        (Split-map _ _ _ (λ p. ltb→lt _ _) (λ p. ltb→ge _ _)
          (pick-Split better_stcf procs (better_stcf-IsOrder procs) first queue))
