-- ===== src/Mm/Slab/FreeList.antt =====
-- The free list of a slab in kernel/mm/kalloc/slab.cpp, against two lists of indices.
use hobby_os.Prelude.{
  ℕ, suc, ◌+◌, ◌^◌, ◌*◌, ◌≤◌, ◌<◌, ◌≡◌, ◌≢◌, refl, sym, ap, ◌∙◌, false, none, some, List, [], ◌∷◌,
  ◌++◌, length, ◌==◌, All, Absent, Distinct, arith,
}
use mathlib.Core.Path.{subst}
use hobby_os.Proc.Queue.Remove.{Absent-append, Distinct-middle}
use hobby_os.Mm.Slab.Words.{
  Fits, slot_at-plain, index_of-slot_at, slots_apart, load32-store32, load32_apart,
}
use hobby_os.Mm.Slab.{Slab, load32, free_end, slot_at, popped, pushed, get_slot, free_slot}

-- From the index `i` on, the words lead through the indices.
abbrev pub Chain : (ℕ → ℕ) → ℕ → List ℕ → Type 0
Chain next i [] = i ≡ free_end
Chain next i (x ∷ xs) = (i ≡ x) × Chain next (next x) xs

-- The first word of a slot.
abbrev pub next_of : Slab → ℕ → ℕ
next_of s i = load32 s.memory (slot_at s i)

abbrev pub Below : ℕ → List ℕ → Type 0
Below n = All (λ i. i < n)

-- No index of `is` is in `js`.
abbrev pub Apart : List ℕ → List ℕ → Type 0
Apart is js = All (λ i. Absent i js) is

-- The slots `is` are free, in this order, and `js` are taken.
pub record Slots (s : Slab) (is js : List ℕ) : Type 0 where
  pub chain : Chain (next_of s) s.free is
  pub count : s.free_slots ≡ length is
  pub total : s.max_slots ≡ length is + length js
  pub free_once : Distinct is
  pub taken_once : Distinct js
  pub apart : Apart is js
  pub free_below : Below s.max_slots is
  pub taken_below : Below s.max_slots js
  pub fits : Fits s

-- In a slab of distinct free and taken slots of four bytes or more, with a free one, `get_slot` hands
-- out the address of the first in the list, whose bytes lie in the slab, and the slab is again one of
-- distinct free and taken slots, where that slot is taken.
pub get_slot-Slots :
    (s : Slab) (i : ℕ) (is js : List ℕ)
    → Slots s (i ∷ is) js
    → (s' : Slab) × (get_slot s ≡ (some (s.start + i * s.obj_size), s'))
      × (i * s.obj_size + s.obj_size ≤ s.max_slots * s.obj_size)
      × Slots s' is (i ∷ js)
unfolding get_slot
get_slot-Slots s i is js h =
    let (plain, room) = slot_at-plain s i h.free_below.0 h.fits in
    let few = h.fits.few in
    let some_left : (s.free_slots == 0) ≡ false = ground (arith, h.count) in
    (
      popped s i,
      rw some_left (ap (λ j. (some (slot_at s j), popped s j)) h.chain.0)
          ∙ ap (λ a. (some a, popped s i)) plain,
      room,
      record {
        chain = h.chain.1;
        count = omega (arith, h.count, h.total, few);
        total = omega (arith, h.total);
        free_once = h.free_once.1;
        taken_once = (h.apart.0, h.taken_once);
        apart = Apart-cons i is js h.free_once.0 h.apart.1;
        free_below = h.free_below.1;
        taken_below = (h.free_below.0, h.taken_below);
        fits = record { wide = h.fits.wide; fits = h.fits.fits; few = h.fits.few };
      },
    )
  where
    Apart-cons : (i : ℕ) (is js : List ℕ) → Absent i is → Apart is js → Apart is (i ∷ js)
    Apart-cons i [] js a h = tt
    Apart-cons i (x ∷ is) js a h = ((λ e. a.0 (sym e), h.0), Apart-cons i is js a.1 h.1)

pub get_slot_full : (s : Slab) (js : List ℕ) → Slots s [] js → get_slot s ≡ (none, s)
unfolding get_slot
get_slot_full s js h = rw h.count

All-middle :
    (P : ℕ → Type 0) (p : ℕ) (xs ys : List ℕ) → All P (xs ++ p ∷ ys) → P p × All P (xs ++ ys)
All-middle P p [] ys h = h
All-middle P p (x ∷ xs) ys h = let (l, r) = All-middle P p xs ys h.1 in (l, (h.0, r))

length-middle : (p : ℕ) (xs ys : List ℕ) → length (xs ++ p ∷ ys) ≡ suc (length (xs ++ ys))
length-middle p [] ys = refl
length-middle p (x ∷ xs) ys = omega (arith, length-middle p xs ys)

Apart-middle :
    (p : ℕ) (is xs ys : List ℕ) → Apart is (xs ++ p ∷ ys) → Absent p is × Apart is (xs ++ ys)
Apart-middle p [] xs ys h = (tt, tt)
Apart-middle p (i ∷ is) xs ys h =
    let (l, r) = All-middle (λ y. y ≢ i) p xs ys h.0 in
    let (a, b) = Apart-middle p is xs ys h.1 in ((λ e. l (sym e), a), (r, b))

Chain-same :
    (next next' : ℕ → ℕ) (i : ℕ) (is : List ℕ)
    → All (λ j. next j ≡ next' j) is
    → Chain next i is
    → Chain next' i is
Chain-same next next' i [] same h = h
Chain-same next next' i (x ∷ is) same h =
    (h.0, subst (λ j. Chain next' j is) same.0 (Chain-same next next' (next x) is same.1 h.1))

next_of-pushed :
    (s : Slab) (i : ℕ) (is : List ℕ)
    → i < s.max_slots
    → Fits s
    → Absent i is
    → Below s.max_slots is
    → All (λ j. next_of s j ≡ next_of (pushed s i) j) is
next_of-pushed s i [] below h away all = tt
next_of-pushed s i (j ∷ is) below h away all = (
  sym (
      load32_apart s.memory (slot_at s i) s.free (slot_at s j)
        (slots_apart s i j below all.0 (λ e. away.0 (sym e)) h)),
  next_of-pushed s i is below h away.1 all.1,
)

-- The head of a free list is an index or `free_end`.
head_small :
    (next : ℕ → ℕ) (i n : ℕ) (is : List ℕ)
    → Chain next i is
    → Below n is
    → n < free_end
    → i < 2 ^ 32
head_small next i n [] h below few = omega (arith, h)
head_small next i n (x ∷ is) h below few = omega (arith, h.0, below.0, few)

-- In a slab of distinct free and taken slots of four bytes or more, a taken slot is given back by its
-- address without a panic, and is the first in the list, before the slots that were free.
pub free_slot-Slots :
    (s : Slab) (i : ℕ) (is xs ys : List ℕ)
    → Slots s is (xs ++ i ∷ ys)
    → (s' : Slab) × (free_slot s (s.start + i * s.obj_size) ≡ some s')
      × Slots s' (i ∷ is) (xs ++ ys)
unfolding free_slot
free_slot-Slots s i is xs ys h =
    let (below, others) = All-middle (λ j. j < s.max_slots) i xs ys h.taken_below in
    let (away, apart) = Apart-middle i is xs ys h.apart in
    let (before, behind, once) = Distinct-middle i xs ys h.taken_once in
    let (plain, room) = slot_at-plain s i below h.fits in
    let few = h.fits.few in
    let small = head_small (next_of s) s.free s.max_slots is h.chain h.free_below few in
    let not_all : (s.free_slots == s.max_slots) ≡ false =
      ground (arith, h.count, h.total, length-middle i xs ys) in
    (
      pushed s i,
      rw (not_all, sym plain) (ap (λ j. some (pushed s j)) (index_of-slot_at s i below h.fits)),
      record {
        chain = (
          refl,
          subst (λ j. Chain (next_of (pushed s i)) j is)
              (sym (load32-store32 s.memory (slot_at s i) s.free small))
              (Chain-same (next_of s) (next_of (pushed s i)) s.free is
                (next_of-pushed s i is below h.fits away h.free_below) h.chain),
        );
        count = omega (arith, h.count, h.total, few);
        total = omega (arith, h.total, length-middle i xs ys);
        free_once = (away, h.free_once);
        taken_once = once;
        apart = (Absent-append i xs ys before behind, apart);
        free_below = (below, h.free_below);
        taken_below = others;
        fits = record { wide = h.fits.wide; fits = h.fits.fits; few = h.fits.few };
      },
    )
