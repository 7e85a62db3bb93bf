-- ===== src/Mm/PageRef.antt =====
-- kernel/mm/vm/page_meta.cpp and page_meta.h: how many owners a physical page has, in a chained hash
-- table. A page that is not in the table has one owner. The chain of a bucket is a list, and the
-- array of buckets a function of the index. The spin lock around each operation makes it one step.
pub mod Chains
pub mod Owners
use hobby_os.Prelude.{
  ℕ, ◌/◌, ◌%◌, ◌^◌, Bool, true, false, ◌&&◌, Option, none, some, List, [], ◌∷◌, ◌==◌, if◌then◌else◌,
  bit_and, bit_xor, mul64, add32, sub32, half_word, update,
}

pub record PageMeta : Type 0 where
  pub pa : ℕ
  pub refcount : ℕ

-- `s_buckets`
abbrev pub Buckets : Type 0
Buckets = ℕ → List PageMeta

abbrev pub bucket_mask : ℕ
bucket_mask = 1023

-- `hash`: PAGE_SHIFT is 12, and the result is cast to 32 bits.
unfoldable pub hash : ℕ → ℕ
hash pa =
    let page = pa / 2 ^ 12 in
    let key = mul64 (bit_xor page (page / 2 ^ 16)) 0x45d9f3b in bit_and key bucket_mask % half_word

-- `init`: all buckets empty.
unfoldable pub init : Buckets
init i = []

-- The walk of `find` along a chain.
unfoldable pub find_in : ℕ → List PageMeta → Option PageMeta
find_in pa [] = none
find_in pa (m ∷ ms) = let rest = find_in pa ms in if m.pa == pa then some m else rest

unfoldable pub find : Buckets → ℕ → Option PageMeta
unfolding find_in
find b pa = find_in pa (b (hash pa))

-- A write to the `refcount` of the node that `find` returned.
unfoldable pub set_count : ℕ → ℕ → List PageMeta → List PageMeta
set_count pa n [] = []
set_count pa n (m ∷ ms) =
    if m.pa == pa then record m { refcount = n } ∷ ms else m ∷ set_count pa n ms

-- The walk of `erase`.
unfoldable pub erase_in : ℕ → List PageMeta → List PageMeta
erase_in pa [] = []
erase_in pa (m ∷ ms) = if m.pa == pa then ms else m ∷ erase_in pa ms

unfoldable pub erase : Buckets → ℕ → Buckets
unfolding erase_in
erase b pa = update b (hash pa) (erase_in pa (b (hash pa)))

unfoldable pub inc_ref : Buckets → ℕ → Buckets
unfolding find set_count
inc_ref b pa = elim (find b pa) [
  | some m ↦ update b (hash pa) (set_count pa (add32 m.refcount 1) (b (hash pa)))
  | none ↦ update b (hash pa) (record { pa = pa; refcount = 2 } ∷ b (hash pa))
]

-- The Boolean says that the caller was the last owner and frees the page.
unfoldable pub dec_ref : Buckets → ℕ → Bool × Buckets
unfolding find set_count erase
dec_ref b pa = elim (find b pa) [
  | none ↦ (true, b)
  | some m ↦
      let n = sub32 m.refcount 1 in
      let b' : Buckets = update b (hash pa) (set_count pa n (b (hash pa))) in
      if n == 0 then (true, erase b' pa) else (false, b')
]

unfoldable pub get_ref : Buckets → ℕ → ℕ
unfolding find
get_ref b pa = elim (find b pa) [ some m ↦ m.refcount | none ↦ 1 ]
