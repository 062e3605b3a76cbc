-- ===== src/Sched/Framework/Safety/Lists.antt =====
-- Lists of resource schedules: entries in the middle, and distinct resources.
use os_pa.Common.{◌≡◌, sym, ◌∙◌, List, [], ◌∷◌, ◌++◌, All, All-snoc}
use os_pa.Sched.Types.{ResourceSchedule}
use os_pa.Sched.Framework.Safety.{Differs, Distinct}

module _ {ℓ κ} {A : Type ℓ} (P : A → Type κ) where
  pub All-middle : (before : List A) (x : A) (after : List A) → All P (before ++ x ∷ after) → P x
  All-middle [] x after h = h.0
  All-middle (y ∷ before) x after h = All-middle before x after h.1

  pub All-without :
      (before : List A) (x : A) (after : List A)
      → All P (before ++ x ∷ after)
      → All P (before ++ after)
  All-without [] x after h = h.1
  All-without (y ∷ before) x after h = (h.0, All-without before x after h.1)

  pub All-left : (before after : List A) → All P (before ++ after) → All P before
  All-left [] after h = tt
  All-left (x ∷ before) after h = (h.0, All-left before after h.1)

  pub All-right : (before after : List A) → All P (before ++ after) → All P after
  All-right [] after h = h
  All-right (x ∷ before) after h = All-right before after h.1

  pub All-replace :
      (before : List A) (x y : A) (after : List A)
      → P y
      → All P (before ++ x ∷ after)
      → All P (before ++ y ∷ after)
  All-replace [] x y after new h = (new, h.1)
  All-replace (z ∷ before) x y after new h = (h.0, All-replace before x y after new h.1)

pub All-weaken {ℓ κ μ} :
    {A : Type ℓ} (P : A → Type κ) (Q : A → Type μ) (xs : List A)
    → ((x : A) → P x → Q x)
    → All P xs
    → All Q xs
All-weaken P Q [] f h = tt
All-weaken P Q (x ∷ xs) f h = (f x h.0, All-weaken P Q xs f h.1)

-- The same with a fact about each entry at hand.
pub All-both {ℓ κ μ ν} :
    {A : Type ℓ} (P : A → Type κ) (Q : A → Type μ) (R : A → Type ν) (xs : List A)
    → ((x : A) → P x → Q x → R x)
    → All P xs
    → All Q xs
    → All R xs
All-both P Q R [] f h k = tt
All-both P Q R (x ∷ xs) f h k = (f x h.0 k.0, All-both P Q R xs f h.1 k.1)

pub Distinct-snoc :
    (rs : ResourceSchedule) (held : List ResourceSchedule)
    → All (Differs rs.resource_id) held
    → Distinct held
    → Distinct (held ++ rs ∷ [])
Distinct-snoc rs [] h d = (tt, tt)
Distinct-snoc rs (x ∷ held) h d =
    (All-snoc (Differs x.resource_id) rs held (λ e. h.0 (sym e)) d.0, Distinct-snoc rs held h.1 d.1)

pub Distinct-without :
    (before : List ResourceSchedule) (x : ResourceSchedule) (after : List ResourceSchedule)
    → Distinct (before ++ x ∷ after)
    → Distinct (before ++ after)
Distinct-without [] x after d = d.1
Distinct-without (y ∷ before) x after d =
    (All-without (Differs y.resource_id) before x after d.0, Distinct-without before x after d.1)

-- The entry in the middle differs from the others.
pub Distinct-middle :
    (before : List ResourceSchedule) (x : ResourceSchedule) (after : List ResourceSchedule)
    → Distinct (before ++ x ∷ after)
    → All (Differs x.resource_id) (before ++ after)
Distinct-middle [] x after d = d.0
Distinct-middle (y ∷ before) x after d = (
  λ e. All-middle (Differs y.resource_id) before x after d.0 (sym e),
  Distinct-middle before x after d.1,
)

-- Another duration.
pub Distinct-replace :
    (before : List ResourceSchedule) (x y : ResourceSchedule) (after : List ResourceSchedule)
    → y.resource_id ≡ x.resource_id
    → Distinct (before ++ x ∷ after)
    → Distinct (before ++ y ∷ after)
Distinct-replace [] x y after e d =
    (All-weaken (Differs x.resource_id) (Differs y.resource_id) after (λ z n k. n (k ∙ e)) d.0, d.1)
Distinct-replace (z ∷ before) x y after e d = (
  All-replace (Differs z.resource_id) before x y after
      (λ k. All-middle (Differs z.resource_id) before x after d.0 (sym e ∙ k)) d.0,
  Distinct-replace before x y after e d.1,
)
