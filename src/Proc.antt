-- ===== src/Proc.antt =====
-- The process side of the kernel: kernel/proc.
pub mod Queue
pub mod Pcb
pub mod Semaphore
pub mod Sleep
pub mod Futex
pub mod Signal
mod Tests
