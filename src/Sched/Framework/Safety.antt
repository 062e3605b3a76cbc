-- ===== src/Sched/Framework/Safety.antt =====
-- What holds of the simulator's state while its assertions do.
--
-- A process stands in at most one place: the ready queue, the fork queue, one wait queue, or the
-- hand of the processor. `hand` is the process that is chosen, taken off its queue.
pub mod Places
pub mod Alike
mod Forks
mod Turns
mod Retire
pub mod Lists
mod Owners
mod Acquisitions
mod Waits
mod AcquireLoop
mod Hollow
mod WakeUps
mod Woken
mod ReleaseLoop
mod Aged
mod Ticks
mod Execute
mod Rounds
mod Runs
mod Counting
pub mod Start
mod Measure
mod Falls
pub mod Termination
pub mod Completion
pub mod Order
use os_pa.Common.{
  ℕ, zero, suc, ◌+◌, ◌≤◌, ◌<◌, ◌≡◌, ◌≢◌, Option, none, some, List, [], ◌∷◌, All, occurs, u32_mod,
}
use os_pa.Sched.Types.{Status, ResourceSchedule, Process, Resource, System, nr_resources}
use os_pa.Sched.Policy.Contract.Laws.{chosen}

-- How often a process stands in the wait queues below `n`.
unfoldable pub wait_count : ℕ → ℕ → (ℕ → Resource) → ℕ
wait_count zero p resources = 0
wait_count (suc n) p resources = occurs p (resources n).waitqueue + wait_count n p resources

abbrev pub queued : ℕ → System → ℕ
queued p s = occurs p s.readyqueue + occurs p s.forkqueue + wait_count nr_resources p s.resources

abbrev pub present : ℕ → Option ℕ → System → ℕ
present p hand s = queued p s + chosen p hand

-- An acquisition that is ahead of a process of this age fits into its life.
abbrev pub Plan : ℕ → ℕ → ResourceSchedule → Type 0
Plan age lifespan rs =
    (age ≤ rs.at)
    × (0 < rs.duration)
    × (rs.at + rs.duration ≤ lifespan)
    × (rs.resource_id < nr_resources)

-- A resource in use: the process owns it, and its release falls into its life.
abbrev pub Held : ℕ → (ℕ → Resource) → ℕ → ℕ → ResourceSchedule → Type 0
Held p resources age lifespan rs =
    ((resources rs.resource_id).owner ≡ some p)
    × (0 < rs.duration)
    × (age + rs.duration ≤ lifespan)
    × (rs.resource_id < nr_resources)

abbrev pub Differs : ℕ → ResourceSchedule → Type 0
Differs id rs = rs.resource_id ≢ id

abbrev pub Distinct : List ResourceSchedule → Type 0
Distinct [] = Unit {0}
Distinct (rs ∷ rest) = All (Differs rs.resource_id) rest × Distinct rest

-- A process with time left.
pub record Good (resources : ℕ → Resource) (p : ℕ) (q : Process) : Type 0 where
  pub alive : q.age < q.lifespan
  pub small : q.lifespan < u32_mod
  pub plans : All (Plan q.age q.lifespan) q.resources_to_acquire
  pub holds : All (Held p resources q.age q.lifespan) q.resources_holding
  pub distinct : Distinct q.resources_holding

-- The places, and the status of the processes that wait.
pub record Placed (hand : Option ℕ) (s : System) : Type 0 where
  pub once : (p : ℕ) → present p hand s ≤ 1
  pub blocked :
      (i w : ℕ)
      → i < nr_resources
      → 0 < occurs w (s.resources i).waitqueue
      → (s.procs w).status ≡ Status.blocked

abbrev pub AllGood : Option ℕ → System → Type 0
AllGood hand s = (p : ℕ) → 0 < present p hand s → Good s.resources p (s.procs p)

pub record Valid (hand : Option ℕ) (s : System) : Type 0 where
  pub placed : Placed hand s
  pub good : AllGood hand s

-- A process whose time is up.
pub record Done (c : ℕ) (s : System) : Type 0 where
  pub gone : queued c s ≡ 0
  pub over : (s.procs c).age ≡ (s.procs c).lifespan
  pub released : (s.procs c).resources_holding ≡ []
  pub acquired : (s.procs c).resources_to_acquire ≡ []

-- What the process of the last tick left: it waits for a resource, it has time left, or none.
pub data Prev (s : System) : Option ℕ → Type 0 where
  nobody : Valid none s → Prev s none
  waits :
      (c : ℕ)
      → Valid none s
      → (s.procs c).status ≡ Status.blocked
      → 0 < wait_count nr_resources c s.resources
      → Prev s (some c)
  runs : (c : ℕ) → Valid (some c) s → (s.procs c).status ≡ Status.running → Prev s (some c)
  ends : (c : ℕ) → Valid none s → (s.procs c).status ≡ Status.running → Done c s → Prev s (some c)
