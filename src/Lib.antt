-- ===== src/Lib.antt =====
-- A verification library for the kernel of Hobby-OS, a teaching operating system for RISC-V in C++.
--
-- The parts, and how they interact:
--   Prelude   names, lists, words and bits that the others share.
--   Data      containers (kernel/lib). Data.HashMap is hash_map.h, Data.LinkedList list.h, and Data.LruCache
--             lru_cache.h, which keeps the nodes of a list in a map; its theorems use theirs.
--   Proc      threads of control (kernel/proc). Proc.Queue is the queue threaded through a field of the
--             PCBs, which Proc.Pcb (run queue and dispatcher: pcb.cpp, scheduler.cpp, list/proclist.cpp)
--             and Proc.Semaphore (sync/sem.cpp, sync/cond.cpp) use; a semaphore puts the PCB that it
--             wakes into the run queue. Proc.Sleep is the sleep queue of scheduler.cpp, which does the
--             same when a time has come. Proc.Futex is sync/futex.cpp, which finds a queue of PCBs by an
--             address, with Data.HashMap and Mm.PageTable. Proc.Signal is signal/signal_handler.cpp
--             with its callers in trap/syscall/syscall.cpp and process/process.cpp.
--   Mm        memory (kernel/mm). Mm.PageRef is vm/page_meta.cpp, Mm.Segment vm/segment.cpp, Mm.Mmap
--             vm/mmap.cpp, and Mm.Ranges the loop that the last two share; Mm.Kalloc is the choice of
--             a size class in kalloc/kalloc.cpp, Mm.Slab a slab of kalloc/slab.cpp, Mm.Mem the byte and
--             string functions of mem.h, and Mm.PageTable the three levels of tables of vm/pmt.cpp
--             with `createPMT` of vm/vm.cpp. Theorems on them are about the user's half of a root: in the
--             kernel's half every root has the same superpages.
--   Fs        files (kernel/fs). Fs.Pipe is pipe/pipe.cpp, Fs.File file.cpp, and Fs.FdTable fd_table.cpp,
--             whose slots own files; Fs.PathUtils is path_utils.h.
--
-- State and operations: an object is a record with the fields of its class, a method a function that
-- returns its answer and the new object, under the name of the method in lower case with underscores.
-- PCBs and other shared objects are addresses, and a field of theirs is a function from addresses. An
-- operation that holds a lock from its first to its last line is one step; where a method yields the
-- processor (read and write of a pipe, wait of a semaphore or a futex) the model is the part between
-- two yields, and theorems are about sequences of such steps. `int` results are integers, and -1 is
-- `negsuc 0`.
-- Words are numbers, and their sums and differences wrap at 2 ^ 64 or 2 ^ 32 where the code's do.
--
-- Fuel: `Queue.remove`, `force_remove` and `Pcb.dispatch` follow pointers, and take fuel for the length
-- of the queue; `check_range` takes the length of the range and one more, since each round passes an
-- address; `alloc_va` takes fuel for the pages of the mapping area; `raise` takes the 13 steps from the
-- smallest size class to the largest; a loop over a string takes fuel for its text, and `erase_if` for
-- the nodes of the list. The theorems on these say that so much is enough.
--
-- Arguments in place of code that is not modelled: the answers of an inode's methods and of the buddy
-- allocator, whether memory was there for a descriptor or a page, the address of a new object, and
-- whether the process may write or read a range of its stack.
--
-- Not modelled: device drivers, assembly, start-up and the user programs; the caches of slabs, the buddy
-- allocator, the rest of vm/vm.cpp, processes, the ELF loader, path lookup, the caches of inodes, paths
-- and blocks, and ext2 have no module.
pub mod Prelude
pub mod Data
pub mod Proc
pub mod Mm
pub mod Fs
