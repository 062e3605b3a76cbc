-- ===== src/Sched/Policy/Tables.antt =====
-- struct scheduler of sched.h, and the eight tables of pa2.c. The callbacks forked() and exiting()
-- are NULL in every table, initialize() is NULL or returns 0, and finalize() does nothing.
use os_pa.Common.{ℕ, Bool, Option}
use os_pa.Sched.Types.{System}
use os_pa.Sched.Policy.Schedule.{
  fcfs_schedule, sjf_schedule, stcf_schedule, rr_schedule, prio_schedule, pa_schedule,
}
use os_pa.Sched.Policy.Resources.{
  fcfs_acquire, fcfs_release, prio_release, pcp_acquire, pcp_release, pip_acquire, pip_release,
}

pub record Scheduler : Type 0 where
  pub acquire : ℕ → System → Option (Bool × System)
  pub release : ℕ → System → Option System
  pub schedule : System → Option ℕ × System

-- The eight values of `sched` that the command line selects.
pub data Policy : Type 0 where
  fcfs sjf stcf rr prio pa pcp pip : Policy

unfoldable pub scheduler_of : Policy → Scheduler
scheduler_of Policy.fcfs = record {
  acquire = fcfs_acquire;
  release = fcfs_release;
  schedule = fcfs_schedule;
}
scheduler_of Policy.sjf = record {
  acquire = fcfs_acquire;
  release = fcfs_release;
  schedule = sjf_schedule;
}
scheduler_of Policy.stcf = record {
  acquire = fcfs_acquire;
  release = fcfs_release;
  schedule = stcf_schedule;
}
scheduler_of Policy.rr = record {
  acquire = fcfs_acquire;
  release = fcfs_release;
  schedule = rr_schedule;
}
scheduler_of Policy.prio = record {
  acquire = fcfs_acquire;
  release = prio_release;
  schedule = prio_schedule;
}
scheduler_of Policy.pa = record {
  acquire = fcfs_acquire;
  release = prio_release;
  schedule = pa_schedule;
}
scheduler_of Policy.pcp = record {
  acquire = pcp_acquire;
  release = pcp_release;
  schedule = prio_schedule;
}
scheduler_of Policy.pip = record {
  acquire = pip_acquire;
  release = pip_release;
  schedule = prio_schedule;
}
