-- ===== src/Sched/Tests.antt =====
-- Runs of the schedulers on concrete systems, and the theorems on them.
mod Order
mod Release
use Prim.Native.String.{String}
use os_pa.Common.{
  List, All, true, false, ◌<◌, ◌≢◌, codes, ◌++◌, atoi, ℕ, ◌≡◌, refl, none, some, [], ◌∷◌, ◌==◌,
  if◌then◌else◌, arith,
}
use os_pa.Sched.Types.{Status, Process, System, Event}
use os_pa.Sched.Policy.Pick.{pick}
use os_pa.Sched.Policy.Pick.First.{FirstLeast, FirstGreatest, InLifetime, time_left}
use os_pa.Sched.Policy.Schedule.{
  fcfs_schedule, sjf_schedule, stcf_schedule, rr_schedule, prio_schedule, pa_schedule,
}
use os_pa.Sched.Policy.Schedule.Choice.{
  Keeps, Competes, First, Requeues, fcfs_schedule-Keeps, sjf_schedule-Keeps, rr_schedule-Competes,
  prio_schedule-Competes, stcf_schedule-Competes,
}
use os_pa.Sched.Policy.Resources.{pip_acquire, pcp_acquire}
use os_pa.Sched.Policy.Inversion.{ServesOrOutranks, pip_acquire-ServesOrOutranks}
use os_pa.Sched.Policy.Tables.{Policy, scheduler_of}
use os_pa.Sched.Policy.Contract.Laws.{Honours}
use os_pa.Sched.Policy.Contract.Policies.{scheduler_of-Honours}
use os_pa.Sched.Framework.Simulation.{Outcome}
use os_pa.Sched.Framework.Loader.{Loader, Loaded, load_script}
use os_pa.Sched.Framework.Loader.Descriptions.{
  Description, script, after_script, load_script-script,
}
use os_pa.Sched.Framework.Loader.Errors.{Inner, Refused, run_script-Refused}
use os_pa.Sched.Framework.Program.{run_script, main, Exit}
use os_pa.Sched.Framework.Safety.Start.{AllFormed, first_loader, run_script_never_fails}
use os_pa.Sched.Framework.Safety.Termination.{Ended}
use os_pa.Sched.Framework.Safety.Completion.{StartBy, round_count, run_script_ends}
use os_pa.Sched.Policy.Schedule.Aging.{Ages, pa_schedule-Ages}

-- Process 1 has run for one of its five ticks; 2 and 3 wait, with three ticks each. Process p has
-- the priority p.
abbrev three : ℕ → Process
three p = record {
  pid = p;
  status = if p == 1 then Status.running else Status.ready;
  age = if p == 1 then 1 else 0;
  lifespan = if p == 1 then 5 else 3;
  prio = if p == 1 then 1 else if p == 2 then 2 else 3;
  prio_orig = 1;
  starts_at = 0;
  resources_to_acquire = [];
  resources_holding = [];
}

abbrev busy : System
busy = record {
  procs = three;
  current = some 1;
  readyqueue = 2 ∷ 3 ∷ [];
  resources = λ id. record { owner = none; waitqueue = [] };
  forkqueue = [];
  ticks = 1;
  events = [];
}

fcfs_schedule-Keeps_example : Keeps First busy (fcfs_schedule busy)
fcfs_schedule-Keeps_example = fcfs_schedule-Keeps busy

sjf_schedule-Keeps_example : Keeps (FirstLeast (λ p. (three p).lifespan)) busy (sjf_schedule busy)
sjf_schedule-Keeps_example = sjf_schedule-Keeps busy

rr_schedule-Competes_example : Competes (λ t. First) busy (rr_schedule busy)
rr_schedule-Competes_example = rr_schedule-Competes busy

prio_schedule-Competes_example :
    Competes (λ t. FirstGreatest (λ p. (t.procs p).prio)) busy (prio_schedule busy)
prio_schedule-Competes_example = prio_schedule-Competes busy

three-InLifetime : InLifetime three
three-InLifetime p = ground arith

stcf_schedule-Competes_example :
    Competes (λ t. FirstLeast (time_left t.procs)) busy (stcf_schedule busy)
stcf_schedule-Competes_example = stcf_schedule-Competes busy three-InLifetime

pa_schedule-Ages_example : (t : System) × Requeues busy t × Ages t (pa_schedule busy)
pa_schedule-Ages_example =
    pa_schedule-Ages busy (λ p. ground arith) (refl, (refl, tt)) (λ c e. ground (arith, e))

-- The shortest job, the least time left, the turn of the ready queue, and the highest priority.
sjf_idle : (sjf_schedule (record busy { current = none })).0 ≡ some 2
unfolding sjf_schedule pick
sjf_idle = refl

stcf_picks : (stcf_schedule busy).0 ≡ some 2
unfolding stcf_schedule pick
stcf_picks = refl

rr_picks : rr_schedule busy ≡ (some 2, record busy { readyqueue = 3 ∷ 1 ∷ [] })
unfolding rr_schedule
rr_picks = refl

prio_picks : (prio_schedule busy).0 ≡ some 3
unfolding prio_schedule pick
prio_picks = refl

pa_picks : (pa_schedule busy).0 ≡ some 3
unfolding pa_schedule
pa_picks = refl

scheduler_of-Honours_example : Honours (scheduler_of Policy.pip)
scheduler_of-Honours_example = scheduler_of-Honours Policy.pip

-- Process 1 of `busy` finds the resource 0 owned by process 2, and takes the resource 1.
abbrev contended : System
contended = record busy {
  resources = λ id. record { owner = if id == 0 then some 2 else none; waitqueue = [] };
}

pip_acquire-ServesOrOutranks_example :
    (t : System) × (pip_acquire 0 contended ≡ some (false, t))
    × ServesOrOutranks 1 2 contended (prio_schedule t)
pip_acquire-ServesOrOutranks_example =
    pip_acquire-ServesOrOutranks 0 1 2 contended (omega arith) refl refl refl

-- Two descriptions, of which the second acquires a resource.
abbrev two_descriptions : List Description
two_descriptions =
    record {
      pid = codes "1";
      start = codes "0";
      lifespan = codes "3";
      prio = codes "7";
      acquires = [];
    }
    ∷ record {
      pid = codes "2";
      start = codes "2";
      lifespan = codes "10";
      prio = codes "0";
      acquires = record { id = codes "4"; at = codes "1"; duration = codes "5" } ∷ [];
    }
    ∷ []

-- No process yet.
abbrev blank : System
blank = record {
  procs = λ p. record {
    pid = 0;
    status = Status.ready;
    age = 0;
    lifespan = 0;
    prio = 0;
    prio_orig = 0;
    starts_at = 0;
    resources_to_acquire = [];
    resources_holding = [];
  };
  current = none;
  readyqueue = [];
  resources = λ id. record { owner = none; waitqueue = [] };
  forkqueue = [];
  ticks = 0;
  events = [];
}

abbrev loader : Loader
loader = record { system = blank; p = none; next_address = 0 }

load_script-script_example :
    load_script (script two_descriptions) loader
    ≡ Loaded.loading (after_script two_descriptions loader)
load_script-script_example = load_script-script two_descriptions loader

two_descriptions-AllFormed : AllFormed two_descriptions
unfolding atoi
two_descriptions-AllFormed = (
  record { young = refl; lives = omega arith; small = omega arith; free = refl; plans = tt },
  (
    record {
      young = refl;
      lives = omega arith;
      small = omega arith;
      free = refl;
      plans = ((omega arith, omega arith, omega arith, omega arith), tt);
    },
    tt,
  ),
)

run_script_never_fails_example :
    (o : Outcome) × (run_script 100 Policy.pcp (script two_descriptions) blank ≡ Exit.simulated o)
    × (o ≢ Outcome.failed)
run_script_never_fails_example =
    run_script_never_fails 100 Policy.pcp two_descriptions blank refl two_descriptions-AllFormed

-- A lifespan without a process, behind the two descriptions.
run_script-Refused_example :
    run_script 100 Policy.rr
      (script two_descriptions ++ (codes "lifespan" ∷ codes "5" ∷ []) ∷ script two_descriptions)
      blank
    ≡ Exit.bad_script
run_script-Refused_example =
    run_script-Refused 100 Policy.rr two_descriptions (codes "lifespan" ∷ codes "5" ∷ [])
      Exit.bad_script (script two_descriptions) blank
      (Refused.misplaced (codes "lifespan") (codes "5" ∷ []) Inner.lifespan)

two_descriptions-StartBy : All (StartBy 2) two_descriptions
unfolding atoi
two_descriptions-StartBy = (omega arith, (omega arith, tt))

two_descriptions-round_count : round_count two_descriptions 2 < 100
unfolding atoi
two_descriptions-round_count = omega arith

run_script_ends_example :
    (t : System) × (run_script 100 Policy.rr (script two_descriptions) blank
      ≡ Exit.simulated (Outcome.finished t))
    × Ended (after_script two_descriptions (first_loader blank)).system.forkqueue t
run_script_ends_example =
    run_script_ends 100 2 Policy.rr two_descriptions blank refl two_descriptions-AllFormed
      two_descriptions-StartBy two_descriptions-round_count (omega arith)

abbrev proc : String → String → String → List (List ℕ)
proc pid start lifespan = codes pid ∷ codes start ∷ codes lifespan ∷ codes "end" ∷ [] ∷ []

-- OS-PA2/testcases/multi
abbrev multi : List (List ℕ)
multi =
    proc "process 1" "\tstart 0" "\tlifespan 3"
    ++ proc "process 2" "\tstart 0" "\tlifespan 10"
    ++ proc "process 3" "\tstart 0" "\tlifespan 8"
    ++ proc "process 4" "\tstart 0" "\tlifespan 3"
    ++ proc "process 5" "\tstart 1" "\tlifespan 1"

-- The ticks at which processes finish, the last first.
abbrev exits : List (ℕ × Event) → List (ℕ × ℕ)
exits [] = []
exits ((tick, Event.exited pid) ∷ events) = (tick, pid) ∷ exits events
exits (_ ∷ events) = exits events

abbrev exits_of : Exit → List (ℕ × ℕ)
exits_of (Exit.simulated (Outcome.finished s)) = exits s.events
exits_of e = []

-- ./sched -f, -s and -S on testcases/multi.
multi_fcfs :
    exits_of (main 40 (codes "f") (some multi) blank)
    ≡ (25, 5) ∷ (24, 4) ∷ (21, 3) ∷ (13, 2) ∷ (3, 1) ∷ []
unfolding main atoi fcfs_schedule
multi_fcfs = refl

multi_sjf :
    exits_of (main 40 (codes "s") (some multi) blank)
    ≡ (25, 2) ∷ (15, 3) ∷ (7, 4) ∷ (4, 5) ∷ (3, 1) ∷ []
unfolding main atoi sjf_schedule pick
multi_sjf = refl

multi_stcf :
    exits_of (main 40 (codes "S") (some multi) blank)
    ≡ (25, 2) ∷ (15, 3) ∷ (7, 4) ∷ (4, 1) ∷ (2, 5) ∷ []
unfolding main atoi stcf_schedule pick
multi_stcf = refl
