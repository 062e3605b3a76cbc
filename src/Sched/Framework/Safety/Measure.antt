-- ===== src/Sched/Framework/Safety/Measure.antt =====
-- What falls in each round: the time left, then the processes that can run, then the wait for forks.
use os_pa.Common.{
  ℕ, ◌+◌, ◌-◌, ◌*◌, ◌≤◌, ◌<◌, ◌≡◌, ◌⊎◌, refl, ap, Option, none, some, List, [], ◌∷◌, ◌++◌, length,
  occurs, occurs-append, ltb, if◌then◌else◌, inl, inr, arith,
}
use os_pa.Sched.Types.{is_blocked, System, nr_resources}
use os_pa.Sched.Policy.Contract.Laws.{chosen, running_on}
use os_pa.Sched.Framework.Safety.{wait_count, queued, present}
use os_pa.Sched.Framework.Safety.Counting.{occurs-le-length, occurs-eq-length, total, total-eq}
use os_pa.Sched.Framework.Safety.Rounds.{Turned}

abbrev pub hand_list : Option ℕ → List ℕ
hand_list none = []
hand_list (some c) = c ∷ []

-- The current process, if it runs on.
abbrev pub running_list : Option ℕ → System → List ℕ
running_list none s = []
running_list (some c) s =
    if is_blocked (s.procs c).status
    then []
    else if ltb (s.procs c).age (s.procs c).lifespan
    then c ∷ []
    else []

occurs-hand_list : (p : ℕ) (hand : Option ℕ) → occurs p (hand_list hand) ≡ chosen p hand
occurs-hand_list p none = refl
occurs-hand_list p (some c) = omega arith

occurs-running_list :
    (p : ℕ) (cur : Option ℕ) (s : System) → occurs p (running_list cur s) ≡ running_on p cur s
occurs-running_list p none s = refl
occurs-running_list p (some c) s = ground arith

-- The processes that can run or will be forked.
abbrev pub active : System → ℕ
active s = length (s.readyqueue ++ s.forkqueue ++ running_list s.current s)

abbrev pub time_left : System → ℕ → ℕ
time_left s p = (s.procs p).lifespan - (s.procs p).age

-- The measure, for the processes `all`, which start at `last` at the latest.
abbrev pub measure : List ℕ → ℕ → System → ℕ
measure all last s = total (time_left s) all * (length all + 1) + active s + (last - s.ticks)

-- Each place is taken by one of the processes, and each process has a place or is at its end.
pub record Bounded (all : List ℕ) (last : ℕ) (s : System) : Type 0 where
  pub places : (p : ℕ) → queued p s + running_on p s.current s ≤ occurs p all
  pub found :
      (p : ℕ)
      → 0 < occurs p all
      → (0 < queued p s + running_on p s.current s) ⊎ ((s.procs p).age ≡ (s.procs p).lifespan)
  pub starts : (p : ℕ) → 0 < occurs p all → (s.procs p).starts_at ≤ last

pub active_few : (all : List ℕ) (last : ℕ) (s : System) → Bounded all last s → active s ≤ length all
active_few all last s b =
    occurs-le-length (s.readyqueue ++ s.forkqueue ++ running_list s.current s) all (λ p. omega (
      arith,
      occurs-append p (s.readyqueue ++ s.forkqueue) (running_list s.current s),
      occurs-append p s.readyqueue s.forkqueue,
      occurs-running_list p s.current s,
      b.places p,
    ))

-- The same after the choice.
abbrev pub chosen_active : System → ℕ
chosen_active v = length (v.readyqueue ++ v.forkqueue ++ hand_list v.current)

module _ (all : List ℕ) (last : ℕ) (s v : System) (b : Bounded all last s) (t : Turned s v) where
  pub turned-active : chosen_active v ≡ active s
  turned-active =
      occurs-eq-length (v.readyqueue ++ v.forkqueue ++ hand_list v.current)
        (s.readyqueue ++ s.forkqueue ++ running_list s.current s)
        (λ p. omega (
          arith,
          occurs-append p (s.readyqueue ++ s.forkqueue) (running_list s.current s),
          occurs-append p s.readyqueue s.forkqueue,
          occurs-running_list p s.current s,
          occurs-append p (v.readyqueue ++ v.forkqueue) (hand_list v.current),
          occurs-append p v.readyqueue v.forkqueue,
          occurs-hand_list p v.current,
          t.counts p,
        ))

  pub turned-present : (p : ℕ) → present p v.current v ≡ queued p s + running_on p s.current s
  turned-present p = omega (arith, t.counts p, ap (wait_count nr_resources p) t.resources)

  pub turned-left : total (time_left v) all ≡ total (time_left s) all
  turned-left =
      total-eq (time_left v) (time_left s) all
        (λ p. omega (arith, t.clock.age p, t.clock.lifespan p))

  pub turned-found :
      (p : ℕ)
      → 0 < occurs p all
      → (0 < present p v.current v) ⊎ ((v.procs p).age ≡ (v.procs p).lifespan)
  turned-found p h = elim (b.found p h) [
    | inl placed ↦ inl (omega (arith, placed, turned-present p))
    | inr over ↦ inr (omega (arith, over, t.clock.age p, t.clock.lifespan p))
  ]

  pub turned-starts : (p : ℕ) → 0 < occurs p all → (v.procs p).starts_at ≤ last
  turned-starts p h = omega (arith, b.starts p h, t.clock.starts_at p)
