-- ===== src/Sched/Types.antt =====
-- The data of OS-PA2: process.h, resource.h and the globals of sched.c.
--
-- A pointer is a number, the address of a process; `none` is NULL. `System` holds every global:
-- the processes by address, `current`, `readyqueue`, `resources`, `__forkqueue` and `ticks`, and
-- what the run has written to stderr, newest first. An intrusive list (list_head.h, a copy of the
-- Linux kernel's) is the list of the addresses that it chains, in traversal order.
use os_pa.Common.{ℕ, Bool, true, false, Option, List}

-- enum process_status
pub data Status : Type 0 where
  ready running blocked exit : Status

abbrev pub is_blocked : Status → Bool
is_blocked Status.blocked = true
is_blocked _ = false

abbrev pub is_running : Status → Bool
is_running Status.running = true
is_running _ = false

-- struct resource_schedule
pub record ResourceSchedule : Type 0 where
  pub resource_id : ℕ
  pub at : ℕ
  pub duration : ℕ

-- struct process
pub record Process : Type 0 where
  pub pid : ℕ
  pub status : Status
  pub age : ℕ
  pub lifespan : ℕ
  pub prio : ℕ
  pub prio_orig : ℕ
  pub starts_at : ℕ
  pub resources_to_acquire : List ResourceSchedule
  pub resources_holding : List ResourceSchedule

-- struct resource
pub record Resource : Type 0 where
  pub owner : Option ℕ
  pub waitqueue : List ℕ

-- What `__print_event` and the idle message write.
pub data Event : Type 0 where
  forked exited ran : ℕ → Event
  waits acquired released : ℕ → ℕ → Event
  idle : Event

pub record System : Type 0 where
  pub procs : ℕ → Process
  pub current : Option ℕ
  pub readyqueue : List ℕ
  pub resources : ℕ → Resource
  pub forkqueue : List ℕ
  pub ticks : ℕ
  pub events : List (ℕ × Event)

-- NR_RESOURCES and MAX_PRIO
abbrev pub nr_resources : ℕ
nr_resources = 16

abbrev pub max_prio : ℕ
max_prio = 64
