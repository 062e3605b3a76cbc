-- ===== src/Sched/Policy.antt =====
-- pa2.c: the callbacks of the eight schedulers, and the table of each.
--
-- A callback that may fail an assertion or follow NULL returns `none` there. `schedule` does
-- neither. What pa2.c repeats (the test of `current` on top of each schedule(), the wake-up at the
-- end of each release()) is written once.
pub mod Pick
pub mod Schedule
pub mod Resources
pub mod Inversion
pub mod Tables
pub mod Contract
