-- ===== src/Mm/Kalloc.antt =====
-- kernel/mm/kalloc/kalloc.cpp and kmem_cache.cpp: the size classes of kmalloc, and the slabs that their
-- objects come from. A class is the index of its cache.
pub mod Classes
use hobby_os.Prelude.{
  ℕ, zero, suc, ◌+◌, ◌-◌, ◌*◌, ◌^◌, Bool, true, false, Option, none, some, List, [], ◌∷◌, ltb, ◌==◌,
  if◌then◌else◌,
}

abbrev pub smb_start_pow : ℕ
smb_start_pow = 5

abbrev pub smb_size : ℕ
smb_size = 13

-- `while (size > 1 << pow) pow++`, with n steps before it gives up.
unfoldable pub raise : ℕ → ℕ → ℕ → ℕ
raise size pow zero = pow
raise size pow (suc n) =
    let rest = raise size (suc pow) n in if ltb (2 ^ pow) size then rest else pow

-- Which cache `kmalloc` asks, or a panic, or a null pointer for nothing.
pub data Choice : Type 0 where
  null : Choice
  panic : Choice
  entry : ℕ → Choice

unfoldable pub kmalloc : ℕ → Choice
unfolding raise
kmalloc size =
    if size == 0
    then null
    else if ltb (2 ^ (smb_start_pow + smb_size - 1)) size
    then panic
    else entry (raise size smb_start_pow smb_size - smb_start_pow)

-- The size of the objects of a cache, as `init` sets it.
abbrev pub obj_size : ℕ → ℕ
obj_size i = 2 ^ (smb_start_pow + i)

-- `setObjSize` and the constructor: the size of a slab, from a page on, for objects of at most 2 ^ 31
-- bytes.
unfoldable pub slab_size : ℕ → ℕ
unfolding raise
slab_size size = 2 ^ raise size 12 19
