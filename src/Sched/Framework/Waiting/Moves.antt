-- ===== src/Sched/Framework/Waiting/Moves.antt =====
-- The acquisitions of the running process c.
use os_pa.Common.{
  ℕ, ◌+◌, ◌≤◌, ◌<◌, ◌≡◌, ◌≢◌, ap, ◌∙◌, sym, subst, none, some, List, [], ◌∷◌, ◌++◌, All, occurs,
  occurs-append, false, ◌==◌, Bool-cases, inl, inr, ==→eq, ==→ne, ==_refl, arith, if◌then◌else◌,
}
use mathlib.Core.Option.{some-injective}
use os_pa.Sched.Types.{ResourceSchedule, System, nr_resources}
use os_pa.Sched.Policy.Contract.Laws.{chosen}
use os_pa.Sched.Framework.Safety.{queued}
use os_pa.Sched.Framework.Safety.Places.{chosen_self}
use os_pa.Sched.Framework.Waiting.Plans.{ids-append, first_due-later, first_due-now, Ordered-take}
use os_pa.Sched.Framework.Waiting.{
  ids, first_due, Due, Holds, Ordered, Served, Tidy, Carries, hand_of,
}
use os_pa.Sched.Framework.Waiting.Frame.{View, Due-View, Holds-View, Ordered-View}

module _ (c : ℕ) (kept rest : List ResourceSchedule) (rs : ResourceSchedule) (s : System)
    (list : (s.procs c).resources_to_acquire ≡ kept ++ rs ∷ rest)
    (later : All (λ x. (s.procs c).age < x.at) kept) (due : rs.at ≡ (s.procs c).age)
    (free : (i : ℕ) → i < nr_resources → occurs c (s.resources i).waitqueue ≡ 0) where
  pub next_Due : Due rs.resource_id (s.procs c)
  next_Due =
      ap (first_due (s.procs c).age) list
      ∙ first_due-later (s.procs c).age kept (rs ∷ rest) later
      ∙ first_due-now (s.procs c).age rs rest due

  only_Due : (i : ℕ) → Due i (s.procs c) → rs.resource_id ≡ i
  only_Due i d = some-injective _ _ (sym next_Due ∙ d)

  not_c : (i w : ℕ) → i < nr_resources → 0 < occurs w (s.resources i).waitqueue → c ≢ w
  not_c i w r k e = omega (arith, k, free i r, ap (λ x. occurs x (s.resources i).waitqueue) e)

  -- c takes the resource.
  module _ (t : System) (others : (p : ℕ) → c ≢ p → View (s.procs p) (t.procs p))
      (plans : (t.procs c).resources_to_acquire ≡ kept ++ rest)
      (held : (t.procs c).resources_holding ≡ (s.procs c).resources_holding ++ rs ∷ [])
      (owner : (t.resources rs.resource_id).owner ≡ some c)
      (owners : (i : ℕ) → rs.resource_id ≢ i → (t.resources i).owner ≡ (s.resources i).owner)
      (waiters : (i : ℕ) → (t.resources i).waitqueue ≡ (s.resources i).waitqueue)
      (ready : t.readyqueue ≡ s.readyqueue)
      (places : (p : ℕ) → queued p t + chosen p (some c) ≡ queued p s + chosen p (some c)) where
    held_by_c : (i : ℕ) → Holds i (s.procs c) → Holds i (t.procs c)
    held_by_c i h =
        let e : ids (t.procs c).resources_holding
            ≡ ids (s.procs c).resources_holding ++ rs.resource_id ∷ [] =
          ap ids held ∙ ids-append (s.procs c).resources_holding (rs ∷ []) in
        omega (
          arith,
          h,
          ap (occurs i) e,
          occurs-append i (ids (s.procs c).resources_holding) (rs.resource_id ∷ []),
        )

    now_held : Holds rs.resource_id (t.procs c)
    now_held =
        let own : occurs rs.resource_id (rs.resource_id ∷ []) ≡ 1 =
          ground (arith, ==_refl rs.resource_id) in
        omega (
          arith,
          own,
          ap (occurs rs.resource_id)
              (ap ids held ∙ ids-append (s.procs c).resources_holding (rs ∷ [])),
          occurs-append rs.resource_id (ids (s.procs c).resources_holding) (rs.resource_id ∷ []),
        )

    taken-Holds :
        (all : List ℕ)
        → Tidy all (hand_of (some c)) s
        → (i o : ℕ) → i < nr_resources
        → (t.resources i).owner ≡ some o
        → Holds i (t.procs o)
    taken-Holds all h i o r e = elim (Bool-cases (rs.resource_id == i)) [
      | inl same ↦
          let id : rs.resource_id ≡ i = ==→eq rs.resource_id i same in
          let o_is : c ≡ o =
            some-injective _ _ (sym owner ∙ ap (λ x. (t.resources x).owner) id ∙ e) in
          subst (λ x. Holds i (t.procs x)) o_is (subst (λ x. Holds x (t.procs c)) id now_held)
      | inr other ↦
          let old = h.holds i o r (sym (owners i (==→ne rs.resource_id i other)) ∙ e) in
          elim (Bool-cases (c == o)) [
            | inl own ↦
                let k : c ≡ o = ==→eq c o own in
                subst (λ x. Holds i (t.procs x)) k
                  (held_by_c i (subst (λ x. Holds i (s.procs x)) (sym k) old))
            | inr far ↦ Holds-View (others o (==→ne c o far)) i old
          ]
    ]

    taken_there :
        (all : List ℕ)
        → Tidy all (hand_of (some c)) s
        → (i o : ℕ) → i < nr_resources
        → (t.resources i).owner ≡ some o
        → 0 < queued o t + chosen o (some c)
    taken_there all h i o r e = elim (Bool-cases (rs.resource_id == i)) [
      | inl same ↦
          let o_is : c ≡ o =
            some-injective _ _
              (sym owner ∙ ap (λ x. (t.resources x).owner) (==→eq rs.resource_id i same) ∙ e) in
          omega (arith, chosen_self c, ap (λ x. chosen x (some c)) o_is)
      | inr other ↦
          omega (arith, h.there i o r (sym (owners i (==→ne rs.resource_id i other)) ∙ e), places o)
    ]

    taken_served : (i : ℕ) → Served (hand_of (some c)) s i → Served (hand_of (some c)) t i
    taken_served i x = elim (Bool-cases (rs.resource_id == i)) [
      | inl same ↦
          Served.owned c
            (ap (λ y. (t.resources y).owner) (sym (==→eq rs.resource_id i same)) ∙ owner)
      | inr other ↦ elsewhere (==→ne rs.resource_id i other) x
    ]
      where
        elsewhere :
            rs.resource_id ≢ i → Served (hand_of (some c)) s i → Served (hand_of (some c)) t i
        elsewhere ne (Served.owned o e) = Served.owned o (owners i ne ∙ e)
        elsewhere ne (Served.wanted q k d) = elim (Bool-cases (c == q)) [
          | inl own ↦
              absurd (ne (only_Due i (subst (λ x. Due i (s.procs x)) (sym (==→eq c q own)) d)))
          | inr far ↦
              Served.wanted q (omega (arith, k, ap (occurs q) ready))
                (Due-View (others q (==→ne c q far)) i d)
        ]

    taken-Ordered : (p : ℕ) → Ordered (s.procs p) → Ordered (t.procs p)
    taken-Ordered p h = elim (Bool-cases (c == p)) [
      | inl own ↦
          let k : c ≡ p = ==→eq c p own in
          subst (λ x. Ordered (t.procs x)) k
            (Ordered-take kept rest rs (s.procs c) (t.procs c) later due list plans held
              (subst (λ x. Ordered (s.procs x)) (sym k) h))
      | inr far ↦ Ordered-View (others p (==→ne c p far)) h
    ]

    pub Carries-take : Carries (hand_of (some c)) s (hand_of (some c)) t
    Carries-take all h = record {
      due = λ i w r k.
          let k' : 0 < occurs w (s.resources i).waitqueue =
            omega (arith, k, ap (occurs w) (waiters i)) in
          Due-View (others w (not_c i w r k')) i (h.due i w r k');
      holds = taken-Holds all h;
      there = taken_there all h;
      served =
          λ i w r k. taken_served i (h.served i w r (omega (arith, k, ap (occurs w) (waiters i))));
      ordered = λ p k. taken-Ordered p (h.ordered p k);
    }

  -- c waits for the resource, which has an owner.
  module _ (t : System) (still : (p : ℕ) → View (s.procs p) (t.procs p)) (o : ℕ)
      (owner : (s.resources rs.resource_id).owner ≡ some o)
      (owners : (i : ℕ) → (t.resources i).owner ≡ (s.resources i).owner)
      (waiters : (i w : ℕ)
        → occurs w (t.resources i).waitqueue
          ≤ occurs w (s.resources i).waitqueue
            + (if rs.resource_id == i then chosen w (some c) else 0))
      (ready : t.readyqueue ≡ s.readyqueue)
      (places : (p : ℕ) → queued p t ≡ queued p s + chosen p (some c)) where
    far_chosen : (w : ℕ) → (c == w) ≡ false → chosen w (some c) ≡ 0
    far_chosen w h = ground (arith, ==→ne c w h)

    was_waiting :
        (i w : ℕ)
        → (c == w) ≡ false
        → 0 < occurs w (t.resources i).waitqueue
        → 0 < occurs w (s.resources i).waitqueue
    was_waiting i w far k = ground (arith, k, waiters i w, far_chosen w far)

    own_queue :
        (i : ℕ) → i < nr_resources → 0 < occurs c (t.resources i).waitqueue → rs.resource_id ≡ i
    own_queue i r k = elim (Bool-cases (rs.resource_id == i)) [
      | inl same ↦ ==→eq rs.resource_id i same
      | inr other ↦ absurd (ground (arith, k, waiters i c, free i r, other))
    ]

    waits-Due :
        (all : List ℕ)
        → Tidy all (hand_of (some c)) s
        → (i w : ℕ) → i < nr_resources
        → 0 < occurs w (t.resources i).waitqueue
        → Due i (t.procs w)
    waits-Due all h i w r k = elim (Bool-cases (c == w)) [
      | inl own ↦
          let e : c ≡ w = ==→eq c w own in
          let id = own_queue i r (subst (λ x. 0 < occurs x (t.resources i).waitqueue) (sym e) k) in
          Due-View (still w) i
            (subst (λ x. Due i (s.procs x)) e (subst (λ x. Due x (s.procs c)) id next_Due))
      | inr far ↦ Due-View (still w) i (h.due i w r (was_waiting i w far k))
    ]

    waits_served : (i : ℕ) → Served (hand_of (some c)) s i → Served (hand_of none) t i
    waits_served i (Served.owned o' e) = Served.owned o' (owners i ∙ e)
    waits_served i (Served.wanted q k d) = elim (Bool-cases (c == q)) [
      | inl own ↦
          let id = only_Due i (subst (λ x. Due i (s.procs x)) (sym (==→eq c q own)) d) in
          Served.owned o (owners i ∙ ap (λ x. (s.resources x).owner) (sym id) ∙ owner)
      | inr far ↦
          Served.wanted q (omega (arith, k, ap (occurs q) ready, far_chosen q far))
            (Due-View (still q) i d)
    ]

    pub Carries-block : Carries (hand_of (some c)) s (hand_of none) t
    Carries-block all h = record {
      due = waits-Due all h;
      holds = λ i x r e. Holds-View (still x) i (h.holds i x r (sym (owners i) ∙ e));
      there = λ i x r e. omega (arith, h.there i x r (sym (owners i) ∙ e), places x);
      served = λ i w r k. elim (Bool-cases (rs.resource_id == i)) [
        | inl same ↦
            Served.owned o (
              owners i
              ∙ ap (λ x. (s.resources x).owner) (sym (==→eq rs.resource_id i same))
              ∙ owner)
        | inr other ↦ waits_served i (h.served i w r (ground (arith, k, waiters i w, other)))
      ];
      ordered = λ p k. Ordered-View (still p) (h.ordered p k);
    }
