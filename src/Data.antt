-- ===== src/Data.antt =====
-- The containers of kernel/lib: the hash map, the linked list and the LRU cache over both.
pub mod HashMap
pub mod LinkedList
pub mod LruCache
mod Tests
