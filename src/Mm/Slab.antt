-- ===== src/Mm/Slab.antt =====
-- kernel/mm/kalloc/slab.cpp and slab.h: a block of memory cut into slots of one size. The first word
-- of a free slot, of 32 bits with the lowest byte first, holds the index of the next one; `memory` has
-- a byte at each address. The block and the place of the header are arguments; `none` is a panic.
pub mod Words
pub mod FreeList
pub mod Creates
use hobby_os.Prelude.{
  ℕ, zero, suc, ◌+◌, ◌-◌, ◌*◌, ◌/◌, ◌%◌, ◌^◌, Bool, ◌&&◌, Option, none, some, ◌==◌, ltb, leb,
  if◌then◌else◌, add64, sub64, mul64, add32, sub32, half_word, update,
}
use hobby_os.Mm.Mmap.{page_round_down}

pub record Slab : Type 0 where
  pub free : ℕ
  pub free_slots : ℕ
  pub max_slots : ℕ
  pub start : ℕ
  -- `m_objSize` and `m_slabSize` of the cache
  pub obj_size : ℕ
  pub slab_size : ℕ
  pub memory : ℕ → ℕ

abbrev pub free_end : ℕ
free_end = 2 ^ 32 - 1

-- A `uint32_t` in memory.
unfoldable pub load32 : (ℕ → ℕ) → ℕ → ℕ
load32 memory a =
    memory a + memory (a + 1) * 2 ^ 8 + memory (a + 2) * 2 ^ 16 + memory (a + 3) * 2 ^ 24

unfoldable pub store32 : (ℕ → ℕ) → ℕ → ℕ → ℕ → ℕ
store32 memory a v =
    update
      (update (update (update memory a (v % 2 ^ 8)) (a + 1) (v / 2 ^ 8 % 2 ^ 8)) (a + 2)
        (v / 2 ^ 16 % 2 ^ 8))
      (a + 3) (v / 2 ^ 24 % 2 ^ 8)

-- The address of a slot.
abbrev pub slot_at : Slab → ℕ → ℕ
slot_at s i = add64 s.start (mul64 i s.obj_size)

-- The loop over the slots from `i` on, with `n` rounds left, which writes to the memory.
unfoldable pub link : ℕ → ℕ → Slab → (ℕ → ℕ) → ℕ → ℕ
link zero i s memory = memory
link (suc n) i s memory = link n (i + 1) s (store32 memory (slot_at s i) (i + 1))

abbrev pub fresh : ℕ → ℕ → ℕ → ℕ → (ℕ → ℕ) → Slab
fresh room start obj_size slab_size memory = record {
  free = 0;
  free_slots = room / obj_size % half_word;
  max_slots = room / obj_size % half_word;
  start = start;
  obj_size = obj_size;
  slab_size = slab_size;
  memory = memory;
}

unfoldable pub linked : Slab → Slab
linked s =
    let last = sub32 s.max_slots 1 in
    record s { memory = store32 (link last 0 s s.memory) (slot_at s last) free_end }

-- `block` is the answer of the buddy allocator and `header` is `sizeof(Slab)`.
unfoldable pub create_small : ℕ → ℕ → ℕ → ℕ → (ℕ → ℕ) → Slab
create_small header block obj_size slab_size memory =
    linked (fresh (sub64 slab_size header) (add64 block header) obj_size slab_size memory)

unfoldable pub create_large : ℕ → ℕ → ℕ → (ℕ → ℕ) → Slab
create_large block obj_size slab_size memory =
    linked (fresh slab_size block obj_size slab_size memory)

abbrev pub popped : Slab → ℕ → Slab
popped s i = record s { free = load32 s.memory (slot_at s i); free_slots = sub32 s.free_slots 1 }

unfoldable pub get_slot : Slab → Option ℕ × Slab
get_slot s = if s.free_slots == 0 then (none, s) else (some (slot_at s s.free), popped s s.free)

abbrev pub index_of : Slab → ℕ → ℕ
index_of s p = sub64 p s.start / s.obj_size % half_word

abbrev pub pushed : Slab → ℕ → Slab
pushed s i = record s {
  memory = store32 s.memory (slot_at s i) s.free;
  free = i;
  free_slots = add32 s.free_slots 1;
}

unfoldable pub free_slot : Slab → ℕ → Option Slab
free_slot s p = if s.free_slots == s.max_slots then none else some (pushed s (index_of s p))

abbrev pub empty : Slab → Bool
empty s = s.free_slots == s.max_slots

abbrev pub full : Slab → Bool
full s = s.free_slots == 0

abbrev pub contains : Slab → ℕ → Bool
contains s obj = leb s.start obj && ltb obj (page_round_down (add64 s.start s.slab_size))
