-- ===== src/Sched/Framework/Safety/ReleaseLoop.antt =====
-- __run_current_release keeps the invariant.
use os_pa.Common.{
  ℕ, ◌+◌, ◌-◌, ◌≤◌, ◌<◌, ◌≡◌, ◌≢◌, refl, sym, ap, ◌∙◌, subst, true, false, Option, none, some,
  update_ne, List, [], ◌∷◌, ◌++◌, append-nil, append_assoc, All, All-snoc, update_self, dec32,
  dec32_lem, u32_mod, ◌==◌, Bool-cases, inl, inr, arith, ==→ne,
}
use os_pa.Sched.Types.{ResourceSchedule, Process, Resource, System, Event, nr_resources}
use os_pa.Sched.Queues.{set_holding, print_event}
use os_pa.Sched.Policy.Tables.{Scheduler}
use os_pa.Sched.Policy.Contract.Laws.{Honours}
use os_pa.Sched.Framework.Simulation.{release_each, run_current_release}
use os_pa.Sched.Framework.Safety.{Held, Differs, Distinct}
use os_pa.Sched.Framework.Safety.Lists.{
  All-left, All-right, All-both, Distinct-without, Distinct-middle, Distinct-replace,
}
use os_pa.Sched.Framework.Safety.Alike.{Alike}
use os_pa.Sched.Framework.Safety.Hollow.{
  Hollow, Times, Times-refl, Times-trans, Alike-Times, Hollow-Alike, set_holding-Hollow,
  set_holding-Times,
}
use os_pa.Sched.Framework.Waiting.{ids, Carries, hand_of}
use os_pa.Sched.Framework.Waiting.Frame.{View, View-refl, View-write, Carries-frame, Carries-Alike}
use os_pa.Sched.Framework.Waiting.Gives.{Carries-drop}
use os_pa.Sched.Framework.Safety.Woken.{release-Released}

-- A resource in use, before the tick is charged to it.
abbrev pub Charged : ℕ → (ℕ → Resource) → ℕ → ℕ → ResourceSchedule → Type 0
Charged c resources n m rs =
    ((resources rs.resource_id).owner ≡ some c)
    × (0 < rs.duration)
    × (n + rs.duration ≤ m + 1)
    × (rs.resource_id < nr_resources)

-- The loop ends, and what c holds is in order.
pub record Emptied (n m c : ℕ) (s : System) (r : Option System) : Type 0 where
  pub t : System
  pub result : r ≡ some t
  pub hollow : Hollow n m c t
  pub times : Times (some c) s t
  pub holds : All (Held c t.resources n m) (t.procs c).resources_holding
  pub distinct : Distinct (t.procs c).resources_holding
  pub carries : Carries (hand_of (some c)) s (hand_of (some c)) t

module _ (n m c : ℕ) (sched : Scheduler) (honours : Honours sched) (aged : 0 < n)
    (small : m < u32_mod) where
  Emptied-from :
      (s t : System) (r : Option System)
      → Times (some c) s t
      → Carries (hand_of (some c)) s (hand_of (some c)) t
      → Emptied n m c t r
      → Emptied n m c s r
  Emptied-from s t r k x e = record {
    t = e.t;
    result = e.result;
    hollow = e.hollow;
    times = Times-trans (some c) s t e.t k e.times;
    holds = e.holds;
    distinct = e.distinct;
    carries = λ all h. e.carries all (x all h);
  }

  charge : ResourceSchedule → ResourceSchedule
  charge rs = record rs { duration = dec32 rs.duration }

  release_later :
      (kept rest : List ResourceSchedule) (rs : ResourceSchedule) (s : System)
      → (dec32 rs.duration == 0) ≡ false
      → release_each sched c kept (rs ∷ rest) s
        ≡ release_each sched c
            (kept ++ charge rs ∷ [])
            rest
            (set_holding c (kept ++ charge rs ∷ rest) s)
  unfolding release_each charge
  release_later kept rest rs s e = rw (e, release_each) refl

  abbrev given_up : List ResourceSchedule → ResourceSchedule → System → System
  given_up l rs u = set_holding c l (print_event (Event.released (u.procs c).pid rs.resource_id) u)

  release_due :
      (kept rest : List ResourceSchedule) (rs : ResourceSchedule) (s u : System)
      → (dec32 rs.duration == 0) ≡ true
      → sched.release rs.resource_id (set_holding c (kept ++ charge rs ∷ rest) s) ≡ some u
      → release_each sched c kept (rs ∷ rest) s
        ≡ release_each sched c kept rest (given_up (kept ++ rest) rs u)
  unfolding release_each charge
  release_due kept rest rs s u e e' = rw (e, e', release_each) refl

  holding-set_holding :
      (l : List ResourceSchedule) (s : System) → ((set_holding c l s).procs c).resources_holding ≡ l
  holding-set_holding l s =
      ap (λ (q : Process). q.resources_holding)
        (update_self s.procs c (record (s.procs c) { resources_holding = l }))

  -- Entries of other resources keep their owner.
  kept-entries :
      (P : (ℕ → Resource) → ResourceSchedule → Type 0) (id : ℕ) (r r' : ℕ → Resource)
      (l : List ResourceSchedule)
      → ((rs : ResourceSchedule)
          → (r' rs.resource_id).owner ≡ (r rs.resource_id).owner
          → P r rs
          → P r' rs)
      → ((i : ℕ) → id ≢ i → (r' i).owner ≡ (r i).owner)
      → All (Differs id) l
      → All (P r) l
      → All (P r') l
  kept-entries P id r r' l move owners d h =
      All-both (Differs id) (P r) (P r') l
        (λ rs ne k. move rs (owners rs.resource_id (λ e. ne (sym e))) k) d h

  print_event-Alike : (e : Event) (s : System) → Alike s (print_event e s)
  print_event-Alike e s = record {
    procs = λ q. refl;
    ready = refl;
    fork = refl;
    resources = refl;
    ticks = refl;
  }

  given_up-Hollow :
      (l : List ResourceSchedule) (rs : ResourceSchedule) (u : System)
      → Hollow n m c u
      → Hollow n m c (given_up l rs u)
  given_up-Hollow l rs u h =
      let e = Event.released (u.procs c).pid rs.resource_id in
      set_holding-Hollow n m c l (print_event e u)
        (Hollow-Alike n m c u (print_event e u) (print_event-Alike e u) refl h)

  given_up-Times :
      (kept rest : List ResourceSchedule) (rs : ResourceSchedule) (s t u : System)
      → t ≡ set_holding c (kept ++ charge rs ∷ rest) s
      → Times (some c) t u
      → Times (some c) s (given_up (kept ++ rest) rs u)
  given_up-Times kept rest rs s t u e k =
      let ev = Event.released (u.procs c).pid rs.resource_id in
      let first : Times (some c) s t =
        subst (Times (some c) s) (sym e) (set_holding-Times c (kept ++ charge rs ∷ rest) s) in
      let p = print_event ev u in
      Times-trans (some c) s p (given_up (kept ++ rest) rs u)
        (Times-trans (some c) s u p (Times-trans (some c) s t u first k)
          (Alike-Times (some c) u p (print_event-Alike ev u)))
        (set_holding-Times c (kept ++ rest) p)

  ids-charge :
      (kept rest : List ResourceSchedule) (rs : ResourceSchedule)
      → ids (kept ++ charge rs ∷ rest) ≡ ids (kept ++ rs ∷ rest)
  unfolding charge
  ids-charge [] rest rs = refl
  ids-charge (x ∷ kept) rest rs = ap (λ l. x.resource_id ∷ l) (ids-charge kept rest rs)

  -- A tick is charged to an entry.
  charge-Carries :
      (kept rest : List ResourceSchedule) (rs : ResourceSchedule) (s : System)
      → (s.procs c).resources_holding ≡ kept ++ rs ∷ rest
      → Carries (hand_of (some c)) s (hand_of (some c)) (set_holding c (kept ++ charge rs ∷ rest) s)
  charge-Carries kept rest rs s list =
      Carries-frame (hand_of (some c)) (hand_of (some c)) s
        (set_holding c (kept ++ charge rs ∷ rest) s)
        (λ p.
          View-write s c (record (s.procs c) { resources_holding = kept ++ charge rs ∷ rest }) p
            (record {
              age = refl;
              plans = refl;
              held = ids-charge kept rest rs ∙ sym (ap ids list);
            }))
        (λ i. refl) (λ i w. omega arith) (λ p. omega arith) (λ p. omega arith)

  -- The entry of a released resource goes.
  given_up-Carries :
      (kept rest : List ResourceSchedule) (rs : ResourceSchedule) (u : System)
      → (u.procs c).resources_holding ≡ kept ++ charge rs ∷ rest
      → (u.resources rs.resource_id).owner ≡ none
      → Carries (hand_of (some c)) u (hand_of (some c)) (given_up (kept ++ rest) rs u)
  given_up-Carries kept rest rs u list freed all h =
      let p = print_event (Event.released (u.procs c).pid rs.resource_id) u in
      let q = record (p.procs c) { resources_holding = kept ++ rest } in
      let v = set_holding c (kept ++ rest) p in
      let here : v.procs c ≡ q = update_self p.procs c q in
      Carries-drop c kept rest rs p v
        (λ x ne.
          subst (View (p.procs x)) (sym (update_ne p.procs c x q ne)) (View-refl (p.procs x)))
        (ap (λ (x : Process). x.age) here) (ap (λ (x : Process). x.resources_to_acquire) here)
        (ap ids list ∙ ids-charge kept rest rs) (ap (λ (x : Process). x.resources_holding) here)
        refl refl (λ x. refl) freed all
        (Carries-Alike (hand_of (some c)) u p
          (print_event-Alike (Event.released (u.procs c).pid rs.resource_id) u) all h)

  release_each-Emptied :
      (kept rest : List ResourceSchedule) (s : System)
      → Hollow n m c s
      → (s.procs c).resources_holding ≡ kept ++ rest
      → All (Held c s.resources n m) kept
      → All (Charged c s.resources n m) rest
      → Distinct (kept ++ rest)
      → Emptied n m c s (release_each sched c kept rest s)
  unfolding release_each charge
  release_each-Emptied kept [] s h list held charged d = record {
    t = s;
    result = refl;
    hollow = h;
    times = Times-refl (some c) s;
    holds = subst (All (Held c s.resources n m)) (sym (list ∙ append-nil kept)) held;
    distinct = subst Distinct (sym list) d;
    carries = λ all x. x;
  }
  release_each-Emptied kept (rs ∷ rest) s h list held charged d =
      let one = charged.0 in
      let down : dec32 rs.duration ≡ rs.duration - 1 =
        dec32_lem rs.duration one.1 (omega (arith, one.2, aged, small)) in
      let t = set_holding c (kept ++ charge rs ∷ rest) s in
      let first = charge-Carries kept rest rs s list in
      let h' : Hollow n m c t = set_holding-Hollow n m c (kept ++ charge rs ∷ rest) s h in
      elim (Bool-cases (dec32 rs.duration == 0)) [
        | inr later ↦
            let step = kept ++ charge rs ∷ [] in
            let some_left : 0 < dec32 rs.duration =
              omega (arith, ==→ne (dec32 rs.duration) 0 later) in
            subst (Emptied n m c s) (sym (release_later kept rest rs s later)) (
              Emptied-from s t _ (set_holding-Times c (kept ++ charge rs ∷ rest) s) first (
                release_each-Emptied step rest t h'
                  (holding-set_holding (kept ++ charge rs ∷ rest) s
                    ∙ sym (append_assoc kept (charge rs ∷ []) rest))
                  (All-snoc (Held c s.resources n m) (charge rs) kept
                    (one.0, some_left, omega (arith, one.2, down, some_left), one.3) held)
                  charged.1
                  (subst Distinct (sym (append_assoc kept (charge rs ∷ []) rest))
                    (Distinct-replace kept rs (charge rs) rest refl d))))
        | inl due ↦
            let rel = release-Released n m c rs.resource_id t h' one.3 one.0 sched honours in
            let v = given_up (kept ++ rest) rs rel.u in
            let apart = Distinct-middle kept rs rest d in
            subst (Emptied n m c s) (sym (release_due kept rest rs s rel.u due rel.result)) (
              Emptied-from s v _ (given_up-Times kept rest rs s t rel.u refl rel.times)
                (λ all x.
                  given_up-Carries kept rest rs rel.u
                    (rel.holding ∙ holding-set_holding (kept ++ charge rs ∷ rest) s) rel.freed all
                    (rel.carries all (first all x)))
                (release_each-Emptied kept rest v
                  (given_up-Hollow (kept ++ rest) rs rel.u rel.hollow)
                  (holding-set_holding (kept ++ rest)
                    (print_event (Event.released (rel.u.procs c).pid rs.resource_id) rel.u))
                  (kept-entries (λ r x. Held c r n m x) rs.resource_id s.resources rel.u.resources
                    kept (λ x e k. (e ∙ k.0, k.1, k.2, k.3)) rel.owners
                    (All-left (Differs rs.resource_id) kept rest apart) held)
                  (kept-entries (λ r x. Charged c r n m x) rs.resource_id s.resources
                    rel.u.resources rest (λ x e k. (e ∙ k.0, k.1, k.2, k.3)) rel.owners
                    (All-right (Differs rs.resource_id) kept rest apart) charged.1)
                  (Distinct-without kept rs rest d)))
      ]

  pub run_current_release-Emptied :
      (s : System)
      → Hollow n m c s
      → All (Charged c s.resources n m) (s.procs c).resources_holding
      → Distinct (s.procs c).resources_holding
      → Emptied n m c s (run_current_release sched c s)
  unfolding run_current_release
  run_current_release-Emptied s h charged d =
      release_each-Emptied [] (s.procs c).resources_holding s h refl tt charged d
