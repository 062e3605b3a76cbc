-- ===== src/Vm.antt =====
-- OS-PA3, the virtual memory simulator: vm.h, pa3.c and vm.c.
pub mod Types
pub mod Tlb
pub mod Page
pub mod Fork
pub mod Mmu
pub mod Console
pub mod Frames
mod Tests
