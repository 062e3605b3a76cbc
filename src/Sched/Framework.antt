-- ===== src/Sched/Framework.antt =====
-- sched.c: the simulator that calls the scheduler: forks, exits, scheduled acquisitions and
-- releases, and the main loop. A failed assertion is `none`.
pub mod Simulation
pub mod Loader
pub mod Program
mod Waiting
pub mod Safety
