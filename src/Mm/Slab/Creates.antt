-- ===== src/Mm/Slab/Creates.antt =====
-- New slabs in kernel/mm/kalloc/slab.cpp: every slot is free.
use hobby_os.Prelude.{
  split_le, ℕ, zero, suc, ◌+◌, ◌-◌, ◌*◌, ◌/◌, ◌%◌, ◌≤◌, ◌<◌, ◌≡◌, inl, inr, refl, sym, ap, ◌∙◌,
  List, [], ◌∷◌, length, Absent, Distinct, arith, sub32, word, half_word,
}
use mathlib.Core.Path.{subst}
use native.Mathlib.Nat.{div-le_self, div-mul-le_self, le-div_iff_mul-le}
use hobby_os.Mm.Slab.{Slab, load32, store32, free_end, slot_at, link, linked, fresh, create_large}
use hobby_os.Mm.Slab.Words.{Fits, slots_apart, load32-store32, load32_apart}
use hobby_os.Mm.Slab.FreeList.{Chain, Below, Apart, Slots, next_of}

-- n numbers from i on.
abbrev pub upto : ℕ → ℕ → List ℕ
upto i zero = []
upto i (suc n) = i ∷ upto (i + 1) n

length-upto : (i n : ℕ) → length (upto i n) ≡ n
length-upto i zero = refl
length-upto i (suc n) = omega (arith, length-upto (i + 1) n)

Absent-upto : (x i n : ℕ) → x < i → Absent x (upto i n)
Absent-upto x i zero h = tt
Absent-upto x i (suc n) h = (omega (arith, h), Absent-upto x (i + 1) n (omega (arith, h)))

Distinct-upto : (i n : ℕ) → Distinct (upto i n)
Distinct-upto i zero = tt
Distinct-upto i (suc n) = (Absent-upto i (i + 1) n (omega arith), Distinct-upto (i + 1) n)

Below-upto : (i n m : ℕ) → i + n ≤ m → Below m (upto i n)
Below-upto i zero m h = tt
Below-upto i (suc n) m h = (omega (arith, h), Below-upto (i + 1) n m (omega (arith, h)))

Apart-none : (is : List ℕ) → Apart is []
Apart-none [] = tt
Apart-none (i ∷ is) = (tt, Apart-none is)

Chain-upto :
    (next : ℕ → ℕ) (i n : ℕ)
    → ((j : ℕ) → i ≤ j → j < i + n → next j ≡ j + 1)
    → next (i + n) ≡ free_end
    → Chain next i (upto i (suc n))
Chain-upto next i zero step last = (refl, ap next (omega arith) ∙ last)
Chain-upto next i (suc n) step last = (
  refl,
  subst (λ k. Chain next k (upto (i + 1) (suc n))) (sym (step i (omega arith) (omega arith)))
      (Chain-upto next (i + 1) n (λ j a b. step j (omega (arith, a)) (omega (arith, b)))
        (ap next (omega arith) ∙ last)),
)

link-before :
    (n i : ℕ) (s : Slab) (memory : ℕ → ℕ) (j : ℕ)
    → Fits s
    → i + n ≤ s.max_slots
    → j < i
    → load32 (link n i s memory) (slot_at s j) ≡ load32 memory (slot_at s j)
unfolding link
link-before zero i s memory j h room before = refl
link-before (suc n) i s memory j h room before =
    link-before n (i + 1) s (store32 memory (slot_at s i) (i + 1)) j h (omega (arith, room))
      (omega (arith, before))
    ∙ load32_apart memory (slot_at s i) (i + 1) (slot_at s j) (
        slots_apart s i j (omega (arith, room)) (omega (arith, room, before))
          (omega (arith, before)) h)

link-read :
    (n i : ℕ) (s : Slab) (memory : ℕ → ℕ) (j : ℕ)
    → Fits s
    → i + n ≤ s.max_slots
    → i ≤ j
    → j < i + n
    → load32 (link n i s memory) (slot_at s j) ≡ j + 1
unfolding link
link-read zero i s memory j h room from to = absurd (omega (arith, from, to))
link-read (suc n) i s memory j h room from to = elim (split_le i j from) [
  | inl e ↦
      let few = h.few in
      subst (λ k. load32 (link (suc n) i s memory) (slot_at s k) ≡ k + 1) e
        (link-before n (i + 1) s (store32 memory (slot_at s i) (i + 1)) i h (omega (arith, room))
            (omega arith)
          ∙ load32-store32 memory (slot_at s i) (i + 1) (omega (arith, room, few)))
  | inr l ↦
      link-read n (i + 1) s (store32 memory (slot_at s i) (i + 1)) j h (omega (arith, room)) l
        (omega (arith, to))
]

-- The words of the slots when the last one is `n`.
abbrev ended : Slab → ℕ → ℕ → ℕ
ended s n j = load32 (store32 (link n 0 s s.memory) (slot_at s n) free_end) (slot_at s j)

Chain-ended :
    (s : Slab) (n : ℕ) → Fits s → s.max_slots ≡ n + 1 → Chain (ended s n) 0 (upto 0 (suc n))
Chain-ended s n h size =
    Chain-upto (ended s n) 0 n
      (λ j from to.
        load32_apart (link n 0 s s.memory) (slot_at s n) free_end (slot_at s j)
          (slots_apart s n j (omega (arith, size)) (omega (arith, to, size)) (omega (arith, to)) h)
        ∙ link-read n 0 s s.memory j h (omega (arith, size)) from to)
      (ap (ended s n) (omega arith)
        ∙ load32-store32 (link n 0 s s.memory) (slot_at s n) free_end (omega arith))

linked-Slots :
    (s : Slab) (n : ℕ)
    → Fits s
    → s.free ≡ 0
    → s.free_slots ≡ s.max_slots
    → s.max_slots ≡ n + 1
    → Slots (linked s) (upto 0 (suc n)) []
unfolding linked
linked-Slots s n h first free size = record {
  chain =
      subst (λ i. Chain (next_of (linked s)) i (upto 0 (suc n))) (sym first)
        (subst (λ k. Chain (ended s k) 0 (upto 0 (suc n))) (sym last) (Chain-ended s n h size));
  count = omega (arith, free, size, length-upto 0 (suc n));
  total = omega (arith, size, length-upto 0 (suc n));
  free_once = Distinct-upto 0 (suc n);
  taken_once = tt;
  apart = Apart-none (upto 0 (suc n));
  free_below = Below-upto 0 (suc n) s.max_slots (omega (arith, size));
  taken_below = tt;
  fits = record { wide = h.wide; fits = h.fits; few = h.few };
}
  where
    last : sub32 s.max_slots 1 ≡ n
    last = omega (arith, size, h.few)

-- The quotient of a block that has room for a slot.
quotient : (room size : ℕ) → 0 < size → size ≤ room → (n : ℕ) × (room / size ≡ n + 1)
quotient room size wide h =
    let one = (le-div_iff_mul-le {x = 1} {y = room} wide).1 (omega (arith, h)) in
    (room / size - 1, omega (arith, one))

fresh-Slots :
    (room start obj_size slab_size : ℕ) (memory : ℕ → ℕ)
    → 4 ≤ obj_size
    → obj_size ≤ room
    → room < free_end
    → start + room < word
    → Slots (linked (fresh room start obj_size slab_size memory)) (upto 0 (room / obj_size)) []
fresh-Slots room start obj_size slab_size memory wide h few fits =
    let (n, size) = quotient room obj_size (omega (arith, wide)) h in
    let below = div-le_self room obj_size in
    let whole : room / obj_size % half_word ≡ room / obj_size = omega (arith, below, few) in
    let inside = div-mul-le_self room obj_size in
    subst (λ m. Slots (linked (fresh room start obj_size slab_size memory)) (upto 0 m) [])
      {x = suc n} (omega (arith, size))
      (linked-Slots (fresh room start obj_size slab_size memory) n
        (record {
          wide = wide;
          fits = subst (λ m. start + m * obj_size < word) (sym whole) (omega (arith, inside, fits));
          few = omega (arith, below, few);
        })
        refl refl (whole ∙ size))

-- A new slab for large objects, whose block holds slots only.
pub create_large-Slots :
    (block obj_size slab_size : ℕ) (memory : ℕ → ℕ)
    → 4 ≤ obj_size
    → obj_size ≤ slab_size
    → slab_size < free_end
    → block + slab_size < word
    → Slots (create_large block obj_size slab_size memory) (upto 0 (slab_size / obj_size)) []
unfolding create_large
create_large-Slots block obj_size slab_size memory wide h few fits =
    fresh-Slots slab_size block obj_size slab_size memory wide h few fits
