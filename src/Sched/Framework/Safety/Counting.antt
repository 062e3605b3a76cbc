-- ===== src/Sched/Framework/Safety/Counting.antt =====
-- Lists of addresses by their counts.
use os_pa.Common.{
  ℕ, ◌+◌, ◌≤◌, ◌<◌, ◌≡◌, refl, List, [], ◌∷◌, ◌++◌, ◌==◌, ==_refl, length, occurs, arith, ap,
  Bool-cases, inl, inr, ==→eq,
}
use os_pa.Sched.Queues.{list_del}
use os_pa.Sched.Framework.Safety.Places.{occurs-list_del}

length-list_del :
    (x : ℕ) (queue : List ℕ) → 0 < occurs x queue → length (list_del x queue) + 1 ≡ length queue
length-list_del x [] h = absurd (omega (arith, h))
length-list_del x (y ∷ queue) h = ground (arith, length-list_del x queue)

-- A list in which everything occurs as often at least is as long at least.
pub occurs-le-length :
    (xs ys : List ℕ) → ((p : ℕ) → occurs p xs ≤ occurs p ys) → length xs ≤ length ys
occurs-le-length [] ys h = omega arith
occurs-le-length (x ∷ xs) ys h =
    let own : occurs x (x ∷ xs) ≡ 1 + occurs x xs = ground arith in
    let there : 0 < occurs x ys = omega (arith, h x, own) in
    let shorter =
      occurs-le-length xs (list_del x ys) (λ p. omega (arith, h p, occurs-list_del p x ys there)) in
    omega (arith, shorter, length-list_del x ys there)

pub occurs-eq-length :
    (xs ys : List ℕ) → ((p : ℕ) → occurs p xs ≡ occurs p ys) → length xs ≡ length ys
occurs-eq-length xs ys h = omega (
  arith,
  occurs-le-length xs ys (λ p. omega (arith, h p)),
  occurs-le-length ys xs (λ p. omega (arith, h p)),
)

-- A sum over a list of addresses.
pub total : (ℕ → ℕ) → List ℕ → ℕ
total f [] = 0
total f (x ∷ xs) = f x + total f xs

pub total-eq : (f g : ℕ → ℕ) (xs : List ℕ) → ((p : ℕ) → f p ≡ g p) → total f xs ≡ total g xs
unfolding total
total-eq f g [] h = refl
total-eq f g (x ∷ xs) h = omega (arith, h x, total-eq f g xs h)

total-le : (f g : ℕ → ℕ) (xs : List ℕ) → ((p : ℕ) → f p ≤ g p) → total f xs ≤ total g xs
unfolding total
total-le f g [] h = omega arith
total-le f g (x ∷ xs) h = omega (arith, h x, total-le f g xs h)

-- It falls when it falls at an entry and rises nowhere.
pub total-lt :
    (f g : ℕ → ℕ) (xs : List ℕ) (c : ℕ)
    → ((p : ℕ) → f p ≤ g p)
    → f c < g c
    → 0 < occurs c xs
    → total f xs < total g xs
unfolding total
total-lt f g [] c h lt there = absurd (omega (arith, there))
total-lt f g (x ∷ xs) c h lt there = elim (Bool-cases (c == x)) [
  | inl same ↦ omega (arith, total-le f g xs h, lt, ap f (==→eq c x same), ap g (==→eq c x same))
  | inr other ↦ omega (arith, h x, total-lt f g xs c h lt (ground (arith, there, other)))
]

pub total-nil : (f : ℕ → ℕ) → total f [] ≡ 0
unfolding total
total-nil f = refl

pub total-append : (f : ℕ → ℕ) (xs : List ℕ) (x : ℕ) → total f (xs ++ x ∷ []) ≡ total f xs + f x
unfolding total
total-append f [] x = omega arith
total-append f (y ∷ xs) x = omega (arith, total-append f xs x)

pub total-eq_on :
    (f g : ℕ → ℕ) (xs : List ℕ) → ((p : ℕ) → 0 < occurs p xs → f p ≡ g p) → total f xs ≡ total g xs
unfolding total
total-eq_on f g [] h = refl
total-eq_on f g (x ∷ xs) h =
    let rest = total-eq_on f g xs (λ p k. h p (ground (arith, k))) in
    omega (arith, h x (ground (arith, ==_refl x)), rest)
