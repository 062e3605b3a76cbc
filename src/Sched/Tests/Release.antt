-- ===== src/Sched/Tests/Release.antt =====
-- The release of a resource that two processes wait for.
use os_pa.Common.{ℕ, ◌≡◌, refl, none, some, List, [], ◌∷◌, ◌==◌, if◌then◌else◌, arith, Option}
use os_pa.Sched.Types.{Status, System}
use os_pa.Sched.Policy.Pick.{pick}
use os_pa.Sched.Policy.Resources.{fcfs_release, prio_release, pcp_release, pip_release}
use os_pa.Sched.Policy.Schedule.Choice.{First}
use os_pa.Sched.Policy.Contract.Waiters.{WakesBest, FirstOfPrio, freed, restored, release_wakes}
use os_pa.Sched.Tests.{three, busy}

-- Process 1 owns the resource 0, and processes 2 and 3 wait for it.
abbrev awaited : System
awaited = record busy {
  procs = λ p. record (three p) { status = if p == 1 then Status.running else Status.blocked };
  readyqueue = [];
  resources = λ id. record {
    owner = if id == 0 then some 1 else none;
    waitqueue = if id == 0 then 2 ∷ 3 ∷ [] else [];
  };
}

release_wakes_example :
    WakesBest First 0 (freed 0 awaited) (fcfs_release 0 awaited)
    × WakesBest (FirstOfPrio awaited) 0 (freed 0 awaited) (prio_release 0 awaited)
    × WakesBest
        (FirstOfPrio (restored 0 1 awaited))
        0
        (restored 0 1 awaited)
        (pcp_release 0 awaited)
    × WakesBest
        (FirstOfPrio (restored 0 1 awaited))
        0
        (restored 0 1 awaited)
        (pip_release 0 awaited)
release_wakes_example = release_wakes 0 1 awaited (omega arith) refl refl (refl, (refl, tt))

abbrev ready_of : Option System → List ℕ
ready_of none = []
ready_of (some s) = s.readyqueue

-- The head of the queue, and the waiter of the highest priority.
fcfs_wakes : ready_of (fcfs_release 0 awaited) ≡ 2 ∷ []
unfolding fcfs_release
fcfs_wakes = refl

pip_wakes : ready_of (pip_release 0 awaited) ≡ 3 ∷ []
unfolding pip_release pick
pip_wakes = refl
