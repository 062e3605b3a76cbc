-- ===== src/Sched/Policy/Contract.antt =====
-- What the simulator may rely on, whichever of the eight schedulers of pa2.c is selected.
--
-- The schedulers differ in which process they choose or wake and in the priorities that they write.
-- `unprio` forgets the priorities, and the laws speak of the rest of the state.
mod Schedules
mod Claims
mod Wakes
pub mod Waiters
pub mod Policies
pub mod Entries
pub mod Laws
