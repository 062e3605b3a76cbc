-- ===== src/Sched/Framework/Waiting/Plans.antt =====
-- The acquisitions ahead of a process and the order of the resources.
use os_pa.Common.{
  ℕ, ◌≤◌, ◌<◌, ◌≡◌, ◌≢◌, refl, ap, ◌∙◌, sym, subst, none, some, List, [], ◌∷◌, ◌++◌, All, occurs,
  false, ◌==◌, if_true, if_false, ==_refl, arith,
}
use os_pa.Sched.Types.{ResourceSchedule, Process}
use os_pa.Sched.Framework.Waiting.{ids, first_due, Ascending, Ordered}

pub ids-append :
    (before after : List ResourceSchedule) → ids (before ++ after) ≡ ids before ++ ids after
ids-append [] after = refl
ids-append (rs ∷ before) after = ap (λ l. rs.resource_id ∷ l) (ids-append before after)

-- An entry that is not due is passed.
pub first_due-later :
    (n : ℕ) (before after : List ResourceSchedule)
    → All (λ rs. n < rs.at) before
    → first_due n (before ++ after) ≡ first_due n after
unfolding first_due
first_due-later n [] after h = refl
first_due-later n (rs ∷ before) after h =
    if_false _ _ (later rs.at h.0) ∙ first_due-later n before after h.1
  where
    later : (x : ℕ) → n < x → (x == n) ≡ false
    later x k = ground arith

pub first_due-now :
    (n : ℕ) (rs : ResourceSchedule) (rest : List ResourceSchedule)
    → rs.at ≡ n
    → first_due n (rs ∷ rest) ≡ some rs.resource_id
unfolding first_due
first_due-now n rs rest e = if_true _ _ (ap (λ x. x == n) e ∙ ==_refl n)

pub none_due : (n : ℕ) (l : List ResourceSchedule) → All (λ rs. n < rs.at) l → first_due n l ≡ none
unfolding first_due
none_due n [] h = refl
none_due n (rs ∷ l) h = if_false _ _ (later rs.at h.0) ∙ none_due n l h.1
  where
    later : (x : ℕ) → n < x → (x == n) ≡ false
    later x k = ground arith

-- Nothing is before the entry that is due, if the plans are in order.
first_of :
    (kept rest : List ResourceSchedule) (rs : ResourceSchedule) (n : ℕ)
    → All (λ x. n < x.at) kept
    → rs.at ≡ n
    → Ascending (kept ++ rs ∷ rest)
    → kept ≡ []
first_of [] rest rs n later due a = refl
first_of (x ∷ kept) rest rs n later due a = absurd (omega (arith, later.0, due, before kept a.0))
  where
    before :
        (l : List ResourceSchedule)
        → All (λ y. (x.at ≤ y.at) × (x.resource_id < y.resource_id)) (l ++ rs ∷ rest)
        → x.at ≤ rs.at
    before [] h = h.0.0
    before (y ∷ l) h = before l h.1

-- A new entry is above.
above-snoc :
    (x b : ℕ) (l : List ResourceSchedule)
    → All (λ i. i < b) (ids l)
    → (rs : ResourceSchedule) → rs.resource_id ≡ x
    → x < b
    → All (λ i. i < b) (ids (l ++ rs ∷ []))
above-snoc x b [] h rs e lt = (omega (arith, e, lt), tt)
above-snoc x b (y ∷ l) h rs e lt = (h.0, above-snoc x b l h.1 rs e lt)

both :
    (l held : List ResourceSchedule) (rs : ResourceSchedule)
    → All (λ y. (rs.at ≤ y.at) × (rs.resource_id < y.resource_id)) l
    → All (λ y. All (λ x. x < y.resource_id) (ids held)) l
    → All (λ y. All (λ x. x < y.resource_id) (ids (held ++ rs ∷ []))) l
both [] held rs h k = tt
both (y ∷ l) held rs h k =
    (above-snoc rs.resource_id y.resource_id held k.0 rs refl h.0.1, both l held rs h.1 k.1)

-- The order is kept when the first entry that is due is acquired.
pub Ordered-take :
    (kept rest : List ResourceSchedule) (rs : ResourceSchedule) (q q' : Process)
    → All (λ x. q.age < x.at) kept
    → rs.at ≡ q.age
    → q.resources_to_acquire ≡ kept ++ rs ∷ rest
    → q'.resources_to_acquire ≡ kept ++ rest
    → q'.resources_holding ≡ q.resources_holding ++ rs ∷ []
    → Ordered q
    → Ordered q'
Ordered-take kept rest rs q q' later due e e' k h =
    let a : Ascending (kept ++ rs ∷ rest) = subst Ascending e h.0 in
    let first : kept ≡ [] = first_of kept rest rs q.age later due a in
    let list : q.resources_to_acquire ≡ rs ∷ rest = e ∙ ap (λ l. l ++ rs ∷ rest) first in
    let asc : Ascending (rs ∷ rest) = subst Ascending list h.0 in
    let above : All (λ y. All (λ x. x < y.resource_id) (ids q.resources_holding)) (rs ∷ rest) =
      subst (All (λ y. All (λ x. x < y.resource_id) (ids q.resources_holding))) list h.1 in
    (
      subst Ascending (sym (e' ∙ ap (λ l. l ++ rest) first)) asc.1,
      subst (All (λ y. All (λ x. x < y.resource_id) (ids q'.resources_holding)))
          (sym (e' ∙ ap (λ l. l ++ rest) first))
          (subst (λ l. All (λ (y : ResourceSchedule). All (λ x. x < y.resource_id) (ids l)) rest)
            (sym k) (both rest q.resources_holding rs asc.0 above.1)),
    )

pub Ordered-same :
    (q q' : Process)
    → q'.resources_to_acquire ≡ q.resources_to_acquire
    → ids q'.resources_holding ≡ ids q.resources_holding
    → Ordered q
    → Ordered q'
Ordered-same q q' plans held h =
    subst
      (λ l.
        Ascending l
        × All (λ (y : ResourceSchedule). All (λ x. x < y.resource_id) (ids q'.resources_holding)) l)
      (sym plans)
      (
        h.0,
        subst
            (λ l.
              All (λ (y : ResourceSchedule). All (λ x. x < y.resource_id) l) q.resources_to_acquire)
            (sym held) h.1,
      )

pub ids-middle :
    (i : ℕ) (kept rest : List ResourceSchedule) (rs : ResourceSchedule)
    → rs.resource_id ≢ i
    → occurs i (ids (kept ++ rs ∷ rest)) ≡ occurs i (ids (kept ++ rest))
ids-middle i [] rest rs ne = ground (arith, ne)
ids-middle i (x ∷ kept) rest rs ne = omega (arith, ids-middle i kept rest rs ne)

pub All-ids-without :
    (P : ℕ → Type 0) (kept rest : List ResourceSchedule) (rs : ResourceSchedule)
    → All P (ids (kept ++ rs ∷ rest))
    → All P (ids (kept ++ rest))
All-ids-without P [] rest rs h = h.1
All-ids-without P (x ∷ kept) rest rs h = (h.0, All-ids-without P kept rest rs h.1)

pub above-without :
    (plans kept rest : List ResourceSchedule) (rs : ResourceSchedule)
    → All (λ y. All (λ x. x < y.resource_id) (ids (kept ++ rs ∷ rest))) plans
    → All (λ y. All (λ x. x < y.resource_id) (ids (kept ++ rest))) plans
above-without [] kept rest rs h = tt
above-without (y ∷ plans) kept rest rs h = (
  All-ids-without (λ x. x < y.resource_id) kept rest rs h.0,
  above-without plans kept rest rs h.1,
)
