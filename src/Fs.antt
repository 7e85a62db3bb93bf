-- ===== src/Fs.antt =====
-- Files: kernel/fs.
pub mod Pipe
pub mod File
pub mod FdTable
pub mod PathUtils
mod Tests
