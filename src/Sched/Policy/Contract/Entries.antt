-- ===== src/Sched/Policy/Contract/Entries.antt =====
-- list_del of list_head.h takes the first entry of a process out of a queue.
use os_pa.Common.{
  ℕ, ◌≡◌, ◌≢◌, sym, ap, ◌∙◌, true, List, [], ◌∷◌, ◌++◌, All, ◌||◌, ◌==◌, ==→eq, ==→ne, ne→==,
  ==_refl, if_true, if_false, Bool-cases, inl, inr, arith,
}
use os_pa.Sched.Queues.{contains, list_del}

-- `rest` is the queue without the first entry of w.
pub record TakesFirst (w : ℕ) (queue rest : List ℕ) : Type 0 where
  pub before : List ℕ
  pub after : List ℕ
  pub whole : queue ≡ before ++ w ∷ after
  pub remains : rest ≡ before ++ after
  pub first : All (λ x. w ≢ x) before

pub list_del-TakesFirst :
    (w : ℕ) (queue : List ℕ) → contains w queue ≡ true → TakesFirst w queue (list_del w queue)
list_del-TakesFirst w [] h = absurd (ground (arith, h))
list_del-TakesFirst w (x ∷ queue) h = elim (Bool-cases (w == x)) [
  | inl same ↦ record {
    before = [];
    after = queue;
    whole = ap (λ y. y ∷ queue) (sym (==→eq w x same));
    remains = if_true _ _ same;
    first = tt;
  }
  | inr other ↦
      let later = list_del-TakesFirst w queue (ap (λ b. b || contains w queue) (sym other) ∙ h) in
      record {
        before = x ∷ later.before;
        after = later.after;
        whole = ap (λ q. x ∷ q) later.whole;
        remains = if_false _ _ other ∙ ap (λ q. x ∷ q) later.remains;
        first = (==→ne w x other, later.first);
      }
]

list_del-append :
    (w : ℕ) (before after : List ℕ)
    → All (λ x. w ≢ x) before
    → list_del w (before ++ w ∷ after) ≡ before ++ after
list_del-append w [] after h = if_true _ _ (==_refl w)
list_del-append w (x ∷ before) after h =
    if_false _ _ (ne→== w x h.0) ∙ ap (λ q. x ∷ q) (list_del-append w before after h.1)

contains-append : (w : ℕ) (before after : List ℕ) → contains w (before ++ w ∷ after) ≡ true
contains-append w [] after = ap (λ b. b || contains w after) (==_refl w)
contains-append w (x ∷ before) after = ground (arith, contains-append w before after)

pub TakesFirst-list_del :
    (w : ℕ) (queue rest : List ℕ) → TakesFirst w queue rest → list_del w queue ≡ rest
TakesFirst-list_del w queue rest h =
    ap (list_del w) h.whole ∙ list_del-append w h.before h.after h.first ∙ sym h.remains

pub TakesFirst-contains :
    (w : ℕ) (queue rest : List ℕ) → TakesFirst w queue rest → contains w queue ≡ true
TakesFirst-contains w queue rest h = ap (contains w) h.whole ∙ contains-append w h.before h.after
