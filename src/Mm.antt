-- ===== src/Mm.antt =====
-- Memory management: kernel/mm.
pub mod Mem
pub mod PageTable
pub mod PageRef
pub mod Ranges
pub mod Segment
pub mod Mmap
pub mod Slab
pub mod Kalloc
mod Tests
