-- ===== src/Sched.antt =====
-- OS-PA2, the processor scheduler simulator: process.h, resource.h, sched.h, pa2.c and sched.c.
pub mod Types
pub mod Queues
pub mod Policy
pub mod Framework
mod Tests
