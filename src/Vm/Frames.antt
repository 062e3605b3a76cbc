-- ===== src/Vm/Frames.antt =====
-- The page frames of OS-PA3: what `mapcounts` means, and that the operations of pa3.c keep it.
pub mod Count
pub mod Sound
pub mod Write
pub mod Alloc
pub mod Place
pub mod Free
pub mod Fault
pub mod Full
pub mod Copies
pub mod Fork
pub mod Switch
pub mod Exclusive
pub mod Sharing
