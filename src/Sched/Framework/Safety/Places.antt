-- ===== src/Sched/Framework/Safety/Places.antt =====
-- The places of processes under the operations on queues.
use os_pa.Common.{
  ℕ, zero, suc, ◌+◌, ◌≤◌, ◌<◌, ◌≡◌, refl, ap, Bool, true, false, ◌||◌, not, some, List, [], ◌∷◌,
  occurs, update, ◌==◌, if◌then◌else◌, if_true, if_false, Bool-cases, inl, inr, arith, ==→eq, ==→ne,
}
use os_pa.Sched.Types.{Resource, System, nr_resources}
use os_pa.Sched.Queues.{list_del, contains}
use os_pa.Sched.Policy.Contract.Laws.{chosen}
use os_pa.Sched.Framework.Simulation.{is_waiting, is_detached}
use os_pa.Sched.Framework.Safety.{wait_count, queued}

pub chosen_self : (c : ℕ) → chosen c (some c) ≡ 1
chosen_self c = ground arith

pub occurs-contains : (p : ℕ) (queue : List ℕ) → 0 < occurs p queue → contains p queue ≡ true
occurs-contains p [] h = absurd (omega (arith, h))
occurs-contains p (x ∷ queue) h = ground (arith, occurs-contains p queue)

pub contains-occurs : (p : ℕ) (queue : List ℕ) → contains p queue ≡ true → 0 < occurs p queue
contains-occurs p [] h = absurd (ground arith)
contains-occurs p (x ∷ queue) h = ground (arith, contains-occurs p queue)

pub not-contains : (p : ℕ) (queue : List ℕ) → occurs p queue ≡ 0 → contains p queue ≡ false
not-contains p [] h = refl
not-contains p (x ∷ queue) h = ground (arith, not-contains p queue)

pub occurs-list_del :
    (p x : ℕ) (queue : List ℕ)
    → 0 < occurs x queue
    → occurs p (list_del x queue) + (if p == x then 1 else 0) ≡ occurs p queue
occurs-list_del p x [] h = absurd (omega (arith, h))
occurs-list_del p x (y ∷ queue) h = ground (arith, occurs-list_del p x queue)

wait_count-above :
    (n p id : ℕ) (resources : ℕ → Resource) (r : Resource)
    → n ≤ id
    → wait_count n p (update resources id r) ≡ wait_count n p resources
unfolding wait_count
wait_count-above zero p id resources r h = refl
wait_count-above (suc n) p id resources r h = ground (arith, wait_count-above n p id resources r)

-- One wait queue is replaced.
pub wait_count-update :
    (n p id : ℕ) (resources : ℕ → Resource) (r : Resource)
    → id < n
    → wait_count n p (update resources id r) + occurs p (resources id).waitqueue
      ≡ wait_count n p resources + occurs p r.waitqueue
unfolding wait_count
wait_count-update zero p id resources r h = elim h [ ]
wait_count-update (suc n) p id resources r h = elim (Bool-cases (id == n)) [
  | inl same ↦ omega (
    arith,
    h,
    wait_count-above n p id resources r (omega (arith, ==→eq id n same)),
    ap (λ (x : Resource). occurs p x.waitqueue) (if_true r (resources n) same),
    ap (λ x. occurs p (resources x).waitqueue) (==→eq id n same),
  )
  | inr other ↦ omega (
    arith,
    wait_count-update n p id resources r (omega (arith, h, ==→ne id n other)),
    ap (λ (x : Resource). occurs p x.waitqueue) (if_false r (resources n) other),
  )
]

pub occurs-wait_count :
    (n p id : ℕ) (resources : ℕ → Resource)
    → id < n
    → occurs p (resources id).waitqueue ≤ wait_count n p resources
unfolding wait_count
occurs-wait_count zero p id resources h = elim h [ ]
occurs-wait_count (suc n) p id resources h = elim (Bool-cases (id == n)) [
  | inl same ↦ rw (==→eq id n same) (omega arith)
  | inr other ↦ omega (
    arith,
    ==→ne id n other,
    occurs-wait_count n p id resources (omega (arith, h, ==→ne id n other)),
  )
]

not-waiting : (n p : ℕ) (s : System) → wait_count n p s.resources ≡ 0 → is_waiting n p s ≡ false
unfolding is_waiting wait_count
not-waiting zero p s h = refl
not-waiting (suc n) p s h =
    ground (arith, not-contains p (s.resources n).waitqueue, not-waiting n p s)

none_true : {a b c : Bool} → a ≡ false → b ≡ false → c ≡ false → (a || b || c) ≡ false
none_true e f g = ground (arith, e, f, g)

-- A process in no queue is detached.
pub detached : (p : ℕ) (s : System) → queued p s ≡ 0 → is_detached p s ≡ true
unfolding is_detached
detached p s h =
    let r = not-contains p s.readyqueue (omega (arith, h)) in
    let f = not-contains p s.forkqueue (omega (arith, h)) in
    let w = not-waiting nr_resources p s (omega (arith, h)) in ap not (none_true r f w)
