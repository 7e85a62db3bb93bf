-- ===== src/Mm/Slab/Words.antt =====
-- The slots of kernel/mm/kalloc/slab.cpp in memory: where they lie, and the words in them.
use hobby_os.Prelude.{
  ℕ, suc, false, ◌+◌, ◌*◌, ◌/◌, ◌%◌, ◌^◌, ◌≤◌, ◌<◌, ◌≡◌, ◌≢◌, ◌⊎◌, inl, inr, ap, ◌∙◌, arith, sub64,
  word, half_word, ltb, Bool-cases, ltb→lt,
}
use native.Mathlib.Nat.{mul-le-mul_right, mul-div_cancel}
use hobby_os.Mm.Slab.{Slab, free_end, slot_at, index_of, load32, store32}

pub load32-store32 : (memory : ℕ → ℕ) (a v : ℕ) → v < 2 ^ 32 → load32 (store32 memory a v) a ≡ v
unfolding load32 store32
load32-store32 memory a v h = ground (arith, h)

pub load32_apart :
    (memory : ℕ → ℕ) (a v b : ℕ)
    → (a + 4 ≤ b) ⊎ (b + 4 ≤ a)
    → load32 (store32 memory a v) b ≡ load32 memory b
unfolding load32 store32
load32_apart memory a v b (inl h) = ground (arith, h)
load32_apart memory a v b (inr h) = ground (arith, h)

-- The slots have room for a word, they lie in the address space, and an index is not `free_end`.
pub record Fits (s : Slab) : Type 0 where
  pub wide : 4 ≤ s.obj_size
  pub fits : s.start + s.max_slots * s.obj_size < word
  pub few : s.max_slots < free_end

pub slot_at-plain :
    (s : Slab) (i : ℕ)
    → i < s.max_slots
    → Fits s
    → (slot_at s i ≡ s.start + i * s.obj_size)
      × (i * s.obj_size + s.obj_size ≤ s.max_slots * s.obj_size)
slot_at-plain s i below h = let fits = h.fits in (omega (arith, room, fits), room)
  where
    room : i * s.obj_size + s.obj_size ≤ s.max_slots * s.obj_size
    room =
        omega
          (arith, mul-le-mul_right {m = suc i} {n = s.max_slots} s.obj_size (omega (arith, below)))

pub index_of-slot_at : (s : Slab) (i : ℕ) → i < s.max_slots → Fits s → index_of s (slot_at s i) ≡ i
index_of-slot_at s i below h =
    let (plain, room) = slot_at-plain s i below h in
    let fits = h.fits in
    let few = h.few in
    let wide = h.wide in
    let offset : sub64 (slot_at s i) s.start ≡ i * s.obj_size = omega (arith, plain, room, fits) in
    ap (λ x. x / s.obj_size % half_word) offset
    ∙ ap (λ x. x % half_word) (mul-div_cancel i (omega (arith, wide)))
    ∙ omega (arith, below, few)

ahead : (s : Slab) (i j : ℕ) → i < j → j < s.max_slots → Fits s → slot_at s i + 4 ≤ slot_at s j
ahead s i j lt below h =
    let (plain_i, room_i) = slot_at-plain s i (omega (arith, lt, below)) h in
    let (plain_j, room_j) = slot_at-plain s j below h in
    let wide = h.wide in
    omega (
      arith,
      plain_i,
      plain_j,
      wide,
      mul-le-mul_right {m = suc i} {n = j} s.obj_size (omega (arith, lt)),
    )

pub slots_apart :
    (s : Slab) (i j : ℕ)
    → i < s.max_slots
    → j < s.max_slots
    → i ≢ j
    → Fits s
    → (slot_at s i + 4 ≤ slot_at s j) ⊎ (slot_at s j + 4 ≤ slot_at s i)
slots_apart s i j a b ne h = elim (Bool-cases (ltb i j)) [
  | inl before ↦ inl (ahead s i j (ltb→lt i j before) b h)
  | inr behind ↦ inr (ahead s j i (not_before i j behind ne) a h)
]
  where
    not_before : (i j : ℕ) → ltb i j ≡ false → i ≢ j → j < i
    not_before i j e ne = ground arith
