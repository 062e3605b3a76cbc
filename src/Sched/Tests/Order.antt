-- ===== src/Sched/Tests/Order.antt =====
-- Two processes that share two resources, in one order and crosswise.
use Prim.Native.String.{String}
use os_pa.Common.{ℕ, List, All, ◌<◌, codes, atoi, ◌≡◌, refl, [], ◌∷◌, arith}
use os_pa.Sched.Types.{System}
use os_pa.Sched.Policy.Schedule.{rr_schedule}
use os_pa.Sched.Policy.Resources.{fcfs_acquire, fcfs_release}
use os_pa.Sched.Policy.Tables.{Policy}
use os_pa.Sched.Framework.Simulation.{Outcome}
use os_pa.Sched.Framework.Loader.Descriptions.{Acquire, Description, script, after_script}
use os_pa.Sched.Framework.Program.{run_script, Exit}
use os_pa.Sched.Framework.Safety.Start.{AllFormed, first_loader}
use os_pa.Sched.Framework.Safety.Completion.{StartBy, round_count}
use os_pa.Sched.Framework.Safety.Order.{Completed, InOrder, run_script_completes}
use os_pa.Sched.Tests.{blank}

abbrev needs : String → String → String → Acquire
needs id at duration = record { id = codes id; at = codes at; duration = codes duration }

abbrev runner : String → Acquire → Acquire → Description
runner pid first second = record {
  pid = codes pid;
  start = codes "0";
  lifespan = codes "6";
  prio = codes "1";
  acquires = first ∷ second ∷ [];
}

abbrev in_order : List Description
in_order =
    runner "1" (needs "3" "1" "4") (needs "5" "2" "3")
    ∷ runner "2" (needs "3" "1" "4") (needs "5" "3" "2")
    ∷ []

-- Each takes first what the other takes second.
abbrev crosswise : List Description
crosswise =
    runner "1" (needs "3" "1" "4") (needs "5" "2" "3")
    ∷ runner "2" (needs "5" "1" "4") (needs "3" "2" "3")
    ∷ []

in_order-AllFormed : AllFormed in_order
unfolding atoi
in_order-AllFormed = (
  record {
    young = refl;
    lives = omega arith;
    small = omega arith;
    free = refl;
    plans = (
      (omega arith, omega arith, omega arith, omega arith),
      ((omega arith, omega arith, omega arith, omega arith), tt),
    );
  },
  (
    record {
      young = refl;
      lives = omega arith;
      small = omega arith;
      free = refl;
      plans = (
        (omega arith, omega arith, omega arith, omega arith),
        ((omega arith, omega arith, omega arith, omega arith), tt),
      );
    },
    tt,
  ),
)

in_order-InOrder : All InOrder in_order
unfolding atoi
in_order-InOrder = (
  (((omega arith, omega arith), tt), (tt, tt)),
  ((((omega arith, omega arith), tt), (tt, tt)), tt),
)

in_order-StartBy : All (StartBy 0) in_order
unfolding atoi
in_order-StartBy = (omega arith, (omega arith, tt))

in_order-round_count : round_count in_order 0 < 100
unfolding atoi
in_order-round_count = omega arith

run_script_completes_example :
    (t : System) × (run_script 100 Policy.rr (script in_order) blank
      ≡ Exit.simulated (Outcome.finished t))
    × Completed
        (after_script in_order (first_loader blank)).system.forkqueue
        (after_script in_order (first_loader blank)).system
        t
run_script_completes_example =
    run_script_completes 100 0 Policy.rr in_order blank refl in_order-AllFormed in_order-InOrder
      in_order-StartBy in_order-round_count (omega arith)

abbrev ages_of : Exit → List ℕ
ages_of (Exit.simulated (Outcome.finished s)) = (s.procs 0).age ∷ (s.procs 1).age ∷ []
ages_of e = []

-- In round robin the two that cross stop after two ticks each, and the simulation ends with them.
crosswise_stops : ages_of (run_script 100 Policy.rr (script crosswise) blank) ≡ 2 ∷ 2 ∷ []
unfolding atoi run_script rr_schedule fcfs_acquire
crosswise_stops = refl

in_order_ends : ages_of (run_script 100 Policy.rr (script in_order) blank) ≡ 6 ∷ 6 ∷ []
unfolding atoi run_script rr_schedule fcfs_acquire fcfs_release
in_order_ends = refl
