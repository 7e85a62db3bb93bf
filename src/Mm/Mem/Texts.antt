-- ===== src/Mm/Mem/Texts.antt =====
-- The string primitives of kernel/mm/mem.h, against the texts that stand in memory.
use hobby_os.Prelude.{
  ℕ, zero, suc, ◌+◌, ◌-◌, ◌≡◌, ◌≤◌, ◌<◌, ◌⊎◌, ◌↔◌, refl, sym, ap, ◌∙◌, ltb, leb, if◌then◌else◌,
  update, ◌==◌, ◌&&◌, arith, pos, ◌≢◌, List, [], ◌∷◌, length, some, sub_ℕ, sub_ℕ-eq, ℤ,
}
use hobby_os.Mm.Mem.{Memory, strcmp, strlen_from, strlen, strcpy, pad_from, strncpy_from, strncpy}

-- The bytes of `xs` stand from `p`, none of them 0, and the terminator behind them.
abbrev pub TextAt : Memory → ℕ → List ℕ → Type 0
TextAt m p [] = m p ≡ 0
TextAt m p (x ∷ xs) = (m p ≡ x) × (x ≢ 0) × TextAt m (p + 1) xs

-- The loop answers `*src1 - *src2` at the first difference: 0 exactly for equal texts.
abbrev compare_texts : List ℕ → List ℕ → ℤ
compare_texts [] [] = pos 0
compare_texts [] (y ∷ ys) = sub_ℕ 0 y
compare_texts (x ∷ xs) [] = sub_ℕ x 0
compare_texts (x ∷ xs) (y ∷ ys) = if x == y then compare_texts xs ys else sub_ℕ x y

pub strcmp-compare_texts :
    (fuel : ℕ) (m : Memory) (p q : ℕ) (xs ys : List ℕ)
    → TextAt m p xs
    → TextAt m q ys
    → length xs < fuel
    → strcmp fuel m p q ≡ some (compare_texts xs ys)
unfolding strcmp
strcmp-compare_texts zero m p q xs ys hx hy h = absurd (omega arith)
strcmp-compare_texts (suc fuel) m p q [] [] hx hy h = ground arith
strcmp-compare_texts (suc fuel) m p q [] (y ∷ ys) hx hy h = ground arith
strcmp-compare_texts (suc fuel) m p q (x ∷ xs) [] hx hy h = ground arith
strcmp-compare_texts (suc fuel) m p q (x ∷ xs) (y ∷ ys) hx hy h =
    ground (arith, strcmp-compare_texts fuel m (p + 1) (q + 1) xs ys)

compare_texts-eq :
    (m : Memory) (p q : ℕ) (xs ys : List ℕ)
    → TextAt m p xs
    → TextAt m q ys
    → compare_texts xs ys ≡ pos 0
    → xs ≡ ys
compare_texts-eq m p q [] [] hx hy h = refl
compare_texts-eq m p q [] (y ∷ ys) hx hy h = absurd (ground arith)
compare_texts-eq m p q (x ∷ xs) [] hx hy h = absurd (ground arith)
compare_texts-eq m p q (x ∷ xs) (y ∷ ys) hx hy h =
    ground (arith, compare_texts-eq m (p + 1) (q + 1) xs ys, sub_ℕ-eq x y)

compare_texts_self : (xs : List ℕ) → compare_texts xs xs ≡ pos 0
compare_texts_self [] = refl
compare_texts_self (x ∷ xs) = ground (arith, compare_texts_self xs)

-- Of two texts in memory, with fuel for the first, `strcmp` ends, and answers 0 exactly when they are
-- equal.
pub strcmp_lem :
    (fuel : ℕ) (m : Memory) (p q : ℕ) (xs ys : List ℕ)
    → TextAt m p xs
    → TextAt m q ys
    → length xs < fuel
    → (d : ℤ) × (strcmp fuel m p q ≡ some d) × ((d ≡ pos 0) ↔ (xs ≡ ys))
strcmp_lem fuel m p q xs ys hx hy h = (
  compare_texts xs ys,
  strcmp-compare_texts fuel m p q xs ys hx hy h,
  (compare_texts-eq m p q xs ys hx hy, λ e. ap (compare_texts xs) (sym e) ∙ compare_texts_self xs),
)

strlen_from-length :
    (fuel : ℕ) (m : Memory) (s n : ℕ) (xs : List ℕ)
    → TextAt m (s + n) xs
    → length xs < fuel
    → strlen_from fuel m s n ≡ some (n + length xs)
unfolding strlen_from
strlen_from-length zero m s n xs h lt = absurd (omega arith)
strlen_from-length (suc fuel) m s n [] h lt = ground arith
strlen_from-length (suc fuel) m s n (x ∷ xs) h lt =
    ground (arith, strlen_from-length fuel m s (n + 1) xs)

pub strlen-length :
    (fuel : ℕ) (m : Memory) (s : ℕ) (xs : List ℕ)
    → TextAt m s xs
    → length xs < fuel
    → strlen fuel m s ≡ some (length xs)
unfolding strlen
strlen-length fuel m s xs h lt =
    let at_start : s + 0 ≡ s = omega arith in
    strlen_from-length fuel m s 0 xs (rw at_start h) lt ∙ ap some (omega arith)

TextAt-update :
    (m : Memory) (p q v : ℕ) (xs : List ℕ)
    → (q < p) ⊎ (p + length xs < q)
    → TextAt m p xs
    → TextAt (update m q v) p xs
TextAt-update m p q v [] away h = ground arith
TextAt-update m p q v (x ∷ xs) away h =
    (ground arith, h.1, TextAt-update m (p + 1) q v xs (ground arith) h.2)

-- `strcpy` ends, leaves what stands below its target, and the text then stands at the target.
pub strcpy_lem :
    (fuel : ℕ) (m : Memory) (dest src : ℕ) (xs : List ℕ)
    → TextAt m src xs
    → (dest + length xs < src) ⊎ (src + length xs < dest)
    → length xs < fuel
    → (m' : Memory) × (strcpy fuel m dest src ≡ some m')
      × TextAt m' dest xs
      × ((q : ℕ) → (q < dest) ⊎ (dest + length xs < q) → m' q ≡ m q)
unfolding strcpy
strcpy_lem zero m dest src xs h apart lt = absurd (omega arith)
strcpy_lem (suc fuel) m dest src [] h apart lt =
    (update m dest 0, ground arith, ground arith, λ q away. ground arith)
strcpy_lem (suc fuel) m dest src (x ∷ xs) h apart lt =
    let (m', run, copied, kept) =
      strcpy_lem fuel (update m dest (m src)) (dest + 1) (src + 1) xs
        (TextAt-update m (src + 1) dest (m src) xs (ground arith) h.2) (ground arith)
        (omega arith) in
    (m', ground arith, (ground (arith, kept dest), h.1, copied), λ q away. ground (arith, kept q))

-- The first `n` bytes of a text, and zeros behind its end.
abbrev pub byte_of : List ℕ → ℕ → ℕ
byte_of [] j = 0
byte_of (x ∷ xs) zero = x
byte_of (x ∷ xs) (suc j) = byte_of xs j

byte_of-cons :
    (x : ℕ) (xs : List ℕ) (j : ℕ) → byte_of (x ∷ xs) j ≡ (if j == 0 then x else byte_of xs (j - 1))
byte_of-cons x xs zero = refl
byte_of-cons x xs (suc j) = ground arith

pad_from_lem :
    (m : Memory) (dest i n q : ℕ)
    → pad_from m dest i n q ≡ (if leb (dest + i) q && ltb q (dest + i + n) then 0 else m q)
unfolding pad_from
pad_from_lem m dest i zero q = ground arith
pad_from_lem m dest i (suc n) q =
    ground (arith, pad_from_lem (update m (dest + i) 0) dest (i + 1) n q)

-- What the rounds from `i` leave in the target: byte `j` of the text, or what was there.
strncpy_from_lem :
    (m : Memory) (dest src i n q : ℕ) (xs : List ℕ)
    → TextAt m (src + i) xs
    → (dest + i + n ≤ src + i) ⊎ (src + i + length xs < dest + i)
    → strncpy_from m dest src i n q
      ≡ (if leb (dest + i) q && ltb q (dest + i + n) then byte_of xs (q - (dest + i)) else m q)
unfolding strncpy_from
strncpy_from_lem m dest src i zero q xs h apart = ground arith
strncpy_from_lem m dest src i (suc n) q [] h apart = ground (arith, pad_from_lem m dest i (suc n) q)
strncpy_from_lem m dest src i (suc n) q (x ∷ xs) h apart =
    let m1 = update m (dest + i) (m (src + i)) in
    let assoc : src + (i + 1) ≡ src + i + 1 = omega arith in
    let later = TextAt-update m (src + i + 1) (dest + i) (m (src + i)) xs (ground arith) h.2 in
    ground (
      arith,
      strncpy_from_lem m1 dest src (i + 1) n q xs (rw assoc later) (ground arith),
      byte_of-cons x xs (q - (dest + i)),
    )

-- `strncpy` fills the `n` bytes at its target with the text at its source, cut at `n` bytes, and with
-- zeros behind its end, and writes nothing else, where the target ends before the source or begins
-- behind the text.
pub strncpy_lem :
    (m : Memory) (dest src n q : ℕ) (xs : List ℕ)
    → TextAt m src xs
    → (dest + n ≤ src) ⊎ (src + length xs < dest)
    → strncpy m dest src n q
      ≡ (if leb dest q && ltb q (dest + n) then byte_of xs (q - dest) else m q)
unfolding strncpy
strncpy_lem m dest src n q xs h apart =
    let at_start : src + 0 ≡ src = omega arith in
    let at_dest : dest + 0 ≡ dest = omega arith in
    let filled =
      strncpy_from_lem m dest src 0 n q xs (rw at_start h) (rw (at_start, at_dest) apart) in
    rw at_dest at filled
