-- ===== src/Sched/Policy/Contract/Policies.antt =====
-- The contract holds of all eight schedulers.
use os_pa.Sched.Policy.Tables.{Policy, scheduler_of}
use os_pa.Sched.Policy.Contract.Laws.{Honours}
use os_pa.Sched.Policy.Contract.Schedules.{
  fcfs_schedule-Schedules, sjf_schedule-Schedules, stcf_schedule-Schedules, rr_schedule-Schedules,
  prio_schedule-Schedules, pa_schedule-Schedules,
}
use os_pa.Sched.Policy.Contract.Claims.{
  fcfs_acquire-Acquires, pcp_acquire-Acquires, pip_acquire-Acquires,
}
use os_pa.Sched.Policy.Contract.Wakes.{
  fcfs_release-Releases, prio_release-Releases, pcp_release-Releases, pip_release-Releases,
}

-- Every scheduler honours the contract, priorities aside. schedule() changes the ready queue only:
-- each process stands in it and in the choice as often as it stood in it and ran on before, and
-- nothing is chosen only if the queue is left empty. acquire() by a current process takes a free
-- resource, and at an owned one blocks the process at the end of the wait queue. release() by the
-- owner, when all who wait are blocked, leaves the resource free and takes one waiter, if there is
-- any, out of the wait queue and puts it, ready, at the end of the ready queue.
pub scheduler_of-Honours : (policy : Policy) → Honours (scheduler_of policy)
unfolding scheduler_of
scheduler_of-Honours Policy.fcfs = record {
  schedules = fcfs_schedule-Schedules;
  acquires = λ id c s r e. fcfs_acquire-Acquires id c s e r;
  releases = λ id c s r e o b. fcfs_release-Releases id c s e o b r;
}
scheduler_of-Honours Policy.sjf = record {
  schedules = sjf_schedule-Schedules;
  acquires = λ id c s r e. fcfs_acquire-Acquires id c s e r;
  releases = λ id c s r e o b. fcfs_release-Releases id c s e o b r;
}
scheduler_of-Honours Policy.stcf = record {
  schedules = stcf_schedule-Schedules;
  acquires = λ id c s r e. fcfs_acquire-Acquires id c s e r;
  releases = λ id c s r e o b. fcfs_release-Releases id c s e o b r;
}
scheduler_of-Honours Policy.rr = record {
  schedules = rr_schedule-Schedules;
  acquires = λ id c s r e. fcfs_acquire-Acquires id c s e r;
  releases = λ id c s r e o b. fcfs_release-Releases id c s e o b r;
}
scheduler_of-Honours Policy.prio = record {
  schedules = prio_schedule-Schedules;
  acquires = λ id c s r e. fcfs_acquire-Acquires id c s e r;
  releases = λ id c s r e o b. prio_release-Releases id c s e o b r;
}
scheduler_of-Honours Policy.pa = record {
  schedules = pa_schedule-Schedules;
  acquires = λ id c s r e. fcfs_acquire-Acquires id c s e r;
  releases = λ id c s r e o b. prio_release-Releases id c s e o b r;
}
scheduler_of-Honours Policy.pcp = record {
  schedules = prio_schedule-Schedules;
  acquires = λ id c s r e. pcp_acquire-Acquires id c s e r;
  releases = λ id c s r e o b. pcp_release-Releases id c s e o b r;
}
scheduler_of-Honours Policy.pip = record {
  schedules = prio_schedule-Schedules;
  acquires = λ id c s r e. pip_acquire-Acquires id c s e r;
  releases = λ id c s r e o b. pip_release-Releases id c s e o b r;
}
