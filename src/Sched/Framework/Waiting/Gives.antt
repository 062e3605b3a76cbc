-- ===== src/Sched/Framework/Waiting/Gives.antt =====
-- The running process c ages, gives resources up, and ends.
use os_pa.Common.{
  none-ne-some, ℕ, ◌+◌, ◌≤◌, ◌<◌, ◌≡◌, ◌≢◌, ap, ◌∙◌, sym, subst, none, some, List, [], ◌∷◌, ◌++◌,
  All, occurs, false, ◌==◌, Bool-cases, inl, inr, ==→eq, ==→ne, arith,
}
use os_pa.Sched.Types.{ResourceSchedule, Resource, System, nr_resources}
use os_pa.Sched.Policy.Contract.Laws.{chosen}
use os_pa.Sched.Framework.Safety.{queued}
use os_pa.Sched.Framework.Waiting.{
  ids, first_due, Due, Holds, Ascending, Ordered, Served, Tidy, Carries, hand_of,
}
use os_pa.Sched.Framework.Waiting.Frame.{View, Still, Due-View, Holds-View, Ordered-View}
use os_pa.Sched.Framework.Waiting.Plans.{Ordered-same, ids-middle, above-without, none_due}

-- Nothing is due for c, and the other processes are the same.
module _ (c : ℕ) (s t : System)
    (idle : (i : ℕ) → first_due (s.procs c).age (s.procs c).resources_to_acquire ≢ some i)
    (others : (p : ℕ) → c ≢ p → View (s.procs p) (t.procs p))
    (free : (i : ℕ) → i < nr_resources → occurs c (s.resources i).waitqueue ≡ 0)
    (resources : t.resources ≡ s.resources) (ready : t.readyqueue ≡ s.readyqueue)
    (places : (p : ℕ) → queued p t ≡ queued p s) where
  waiter :
      (i w : ℕ) → 0 < occurs w (t.resources i).waitqueue → 0 < occurs w (s.resources i).waitqueue
  waiter i w k = omega (arith, k, ap (λ (r : ℕ → Resource). occurs w (r i).waitqueue) resources)

  owner : (i o : ℕ) → (t.resources i).owner ≡ some o → (s.resources i).owner ≡ some o
  owner i o e = ap (λ (r : ℕ → Resource). (r i).owner) (sym resources) ∙ e

  kept-Due : (i p : ℕ) → Due i (s.procs p) → Due i (t.procs p)
  kept-Due i p d = elim (Bool-cases (c == p)) [
    | inl own ↦ absurd (idle i (subst (λ x. Due i (s.procs x)) (sym (==→eq c p own)) d))
    | inr far ↦ Due-View (others p (==→ne c p far)) i d
  ]

  still_served : (i : ℕ) → Served (hand_of (some c)) s i → Served (hand_of (some c)) t i
  still_served i (Served.owned o e) =
      Served.owned o (ap (λ (r : ℕ → Resource). (r i).owner) resources ∙ e)
  still_served i (Served.wanted q k d) =
      Served.wanted q (omega (arith, k, ap (occurs q) ready)) (kept-Due i q d)

  -- c ages.
  pub Carries-age :
      (t.procs c).resources_to_acquire ≡ (s.procs c).resources_to_acquire
      → ids (t.procs c).resources_holding ≡ ids (s.procs c).resources_holding
      → Carries (hand_of (some c)) s (hand_of (some c)) t
  Carries-age plans held all h = record {
    due = λ i w r k. kept-Due i w (h.due i w r (waiter i w k));
    holds = λ i o r e. elim (Bool-cases (c == o)) [
      | inl own ↦
          let x : c ≡ o = ==→eq c o own in
          subst (λ y. Holds i (t.procs y)) x
            (subst (λ l. 0 < occurs i l) (sym held)
              (subst (λ y. Holds i (s.procs y)) (sym x) (h.holds i o r (owner i o e))))
      | inr far ↦ Holds-View (others o (==→ne c o far)) i (h.holds i o r (owner i o e))
    ];
    there = λ i o r e. omega (arith, h.there i o r (owner i o e), places o);
    served = λ i w r k. still_served i (h.served i w r (waiter i w k));
    ordered = λ p k. elim (Bool-cases (c == p)) [
      | inl own ↦
          let x : c ≡ p = ==→eq c p own in
          subst (λ y. Ordered (t.procs y)) x
            (Ordered-same (s.procs c) (t.procs c) plans held
              (subst (λ y. Ordered (s.procs y)) (sym x) (h.ordered p k)))
      | inr far ↦ Ordered-View (others p (==→ne c p far)) (h.ordered p k)
    ];
  }

-- A resource loses its owner, and a waiter, if there is any, is ready.
module _ (c id : ℕ) (s t : System) (still : Still s t) (freed : (t.resources id).owner ≡ none)
    (owners : (i : ℕ) → id ≢ i → (t.resources i).owner ≡ (s.resources i).owner)
    (fewer : (i w : ℕ) → occurs w (t.resources i).waitqueue ≤ occurs w (s.resources i).waitqueue)
    (ready : (p : ℕ) → occurs p s.readyqueue ≤ occurs p t.readyqueue)
    (places : (p : ℕ) → queued p t + chosen p (some c) ≡ queued p s + chosen p (some c))
    (woken : (w : ℕ)
      → 0 < occurs w (t.resources id).waitqueue
      → (q : ℕ) × (0 < occurs q t.readyqueue) × (0 < occurs q (s.resources id).waitqueue)) where
  other_owner : (i o : ℕ) → (t.resources i).owner ≡ some o → id ≢ i
  other_owner i o e x = none-ne-some o (sym freed ∙ ap (λ y. (t.resources y).owner) x ∙ e)

  old_owner : (i o : ℕ) → (t.resources i).owner ≡ some o → (s.resources i).owner ≡ some o
  old_owner i o e = sym (owners i (other_owner i o e)) ∙ e

  elsewhere : (i : ℕ) → id ≢ i → Served (hand_of (some c)) s i → Served (hand_of (some c)) t i
  elsewhere i ne (Served.owned o e) = Served.owned o (owners i ne ∙ e)
  elsewhere i ne (Served.wanted q k d) =
      Served.wanted q (omega (arith, k, ready q)) (Due-View (still q) i d)

  at_id :
      (all : List ℕ)
      → Tidy all (hand_of (some c)) s
      → (i w : ℕ) → i < nr_resources
      → id ≡ i
      → 0 < occurs w (t.resources i).waitqueue
      → Served (hand_of (some c)) t i
  at_id all h i w r same k =
      let (q, now, before) =
        woken w (subst (λ x. 0 < occurs w (t.resources x).waitqueue) (sym same) k) in
      Served.wanted q (omega (arith, now)) (
        Due-View (still q) i
          (h.due i q r (subst (λ x. 0 < occurs q (s.resources x).waitqueue) same before)))

  pub Carries-release : Carries (hand_of (some c)) s (hand_of (some c)) t
  Carries-release all h = record {
    due = λ i w r k. Due-View (still w) i (h.due i w r (omega (arith, k, fewer i w)));
    holds = λ i o r e. Holds-View (still o) i (h.holds i o r (old_owner i o e));
    there = λ i o r e. omega (arith, h.there i o r (old_owner i o e), places o);
    served = λ i w r k. elim (Bool-cases (id == i)) [
      | inl same ↦ at_id all h i w r (==→eq id i same) k
      | inr other ↦ elsewhere i (==→ne id i other) (h.served i w r (omega (arith, k, fewer i w)))
    ];
    ordered = λ p k. Ordered-View (still p) (h.ordered p k);
  }

-- An entry of a resource without an owner leaves the list of c.
module _ (c : ℕ) (kept rest : List ResourceSchedule) (rs : ResourceSchedule) (s t : System)
    (others : (p : ℕ) → c ≢ p → View (s.procs p) (t.procs p))
    (age : (t.procs c).age ≡ (s.procs c).age)
    (plans : (t.procs c).resources_to_acquire ≡ (s.procs c).resources_to_acquire)
    (list : ids (s.procs c).resources_holding ≡ ids (kept ++ rs ∷ rest))
    (held : (t.procs c).resources_holding ≡ kept ++ rest) (resources : t.resources ≡ s.resources)
    (ready : t.readyqueue ≡ s.readyqueue) (places : (p : ℕ) → queued p t ≡ queued p s)
    (freed : (s.resources rs.resource_id).owner ≡ none) where
  owner_before : (i o : ℕ) → (t.resources i).owner ≡ some o → (s.resources i).owner ≡ some o
  owner_before i o e = ap (λ (r : ℕ → Resource). (r i).owner) (sym resources) ∙ e

  after-Due : (i p : ℕ) → Due i (s.procs p) → Due i (t.procs p)
  after-Due i p d = elim (Bool-cases (c == p)) [
    | inl own ↦
        let x : c ≡ p = ==→eq c p own in
        subst (λ y. Due i (t.procs y)) x
          (ap (λ n. first_due n (t.procs c).resources_to_acquire) age
            ∙ ap (first_due (s.procs c).age) plans
            ∙ subst (λ y. Due i (s.procs y)) (sym x) d)
    | inr far ↦ Due-View (others p (==→ne c p far)) i d
  ]

  served_after : (i : ℕ) → Served (hand_of (some c)) s i → Served (hand_of (some c)) t i
  served_after i (Served.owned o e) =
      Served.owned o (ap (λ (r : ℕ → Resource). (r i).owner) resources ∙ e)
  served_after i (Served.wanted q k d) =
      Served.wanted q (omega (arith, k, ap (occurs q) ready)) (after-Due i q d)

  after-Holds :
      (i o : ℕ) → (s.resources i).owner ≡ some o → Holds i (s.procs o) → Holds i (t.procs o)
  after-Holds i o e h = elim (Bool-cases (c == o)) [
    | inl own ↦
        let x : c ≡ o = ==→eq c o own in
        let ne : rs.resource_id ≢ i =
          λ y. none-ne-some o (sym freed ∙ ap (λ z. (s.resources z).owner) y ∙ e) in
        subst (λ y. Holds i (t.procs y)) x
          (omega (
            arith,
            subst (λ y. Holds i (s.procs y)) (sym x) h,
            ap (occurs i) list,
            ids-middle i kept rest rs ne,
            ap (λ l. occurs i (ids l)) held,
          ))
    | inr far ↦ Holds-View (others o (==→ne c o far)) i h
  ]

  after-Ordered : (p : ℕ) → Ordered (s.procs p) → Ordered (t.procs p)
  after-Ordered p h = elim (Bool-cases (c == p)) [
    | inl own ↦
        let x : c ≡ p = ==→eq c p own in
        let k : Ordered (s.procs c) = subst (λ y. Ordered (s.procs y)) (sym x) h in
        subst (λ y. Ordered (t.procs y)) x
          (
            subst Ascending (sym plans) k.0,
            subst (All (λ y. All (λ x. x < y.resource_id) (ids (t.procs c).resources_holding)))
                (sym plans)
                (subst
                  (λ l.
                    All (λ (y : ResourceSchedule). All (λ x. x < y.resource_id) (ids l))
                      (s.procs c).resources_to_acquire)
                  (sym held)
                  (above-without (s.procs c).resources_to_acquire kept rest rs (
                    subst
                      (λ l.
                        All (λ (y : ResourceSchedule). All (λ x. x < y.resource_id) l)
                          (s.procs c).resources_to_acquire)
                      list k.1))),
          )
    | inr far ↦ Ordered-View (others p (==→ne c p far)) h
  ]

  waiter_before :
      (i w : ℕ) → 0 < occurs w (t.resources i).waitqueue → 0 < occurs w (s.resources i).waitqueue
  waiter_before i w k =
      omega (arith, k, ap (λ (r : ℕ → Resource). occurs w (r i).waitqueue) resources)

  pub Carries-drop : Carries (hand_of (some c)) s (hand_of (some c)) t
  Carries-drop all h = record {
    due = λ i w r k. after-Due i w (h.due i w r (waiter_before i w k));
    holds = λ i o r e. after-Holds i o (owner_before i o e) (h.holds i o r (owner_before i o e));
    there = λ i o r e. omega (arith, h.there i o r (owner_before i o e), places o);
    served = λ i w r k. served_after i (h.served i w r (waiter_before i w k));
    ordered = λ p k. after-Ordered p (h.ordered p k);
  }

-- A process that has and plans nothing leaves.
module _ (c : ℕ) (s : System) (released : (s.procs c).resources_holding ≡ [])
    (acquired : (s.procs c).resources_to_acquire ≡ []) where
  far_chosen : (p : ℕ) → (c == p) ≡ false → chosen p (some c) ≡ 0
  far_chosen p h = ground (arith, ==→ne c p h)

  not_owner : (i : ℕ) → Holds i (s.procs c) → ⊥
  not_owner i h = omega (arith, h, ap (λ l. occurs i (ids l)) released)

  no-Due : (i : ℕ) → Due i (s.procs c) → ⊥
  no-Due i d = none-ne-some i (
      sym (
        none_due (s.procs c).age (s.procs c).resources_to_acquire (subst (All _) (sym acquired) tt))
      ∙ d)

  without : (i : ℕ) → Served (hand_of (some c)) s i → Served (hand_of none) s i
  without i (Served.owned o e) = Served.owned o e
  without i (Served.wanted q k d) = elim (Bool-cases (c == q)) [
    | inl own ↦ absurd (no-Due i (subst (λ x. Due i (s.procs x)) (sym (==→eq c q own)) d))
    | inr far ↦ Served.wanted q (omega (arith, k, far_chosen q far)) d
  ]

  owner_stays :
      (i o : ℕ) → Holds i (s.procs o) → 0 < queued o s + chosen o (some c) → 0 < queued o s
  owner_stays i o h k = elim (Bool-cases (c == o)) [
    | inl own ↦ absurd (not_owner i (subst (λ x. Holds i (s.procs x)) (sym (==→eq c o own)) h))
    | inr far ↦ omega (arith, k, far_chosen o far)
  ]

  pub Carries-end : Carries (hand_of (some c)) s (hand_of none) s
  Carries-end all h = record {
    due = h.due;
    holds = h.holds;
    there = λ i o r e. omega (arith, owner_stays i o (h.holds i o r e) (h.there i o r e));
    served = λ i w r k. without i (h.served i w r k);
    ordered = h.ordered;
  }
