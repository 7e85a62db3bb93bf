-- ===== src/Data/HashMap/Traits.antt =====
-- The key traits of kernel/lib/hash_map.h: 32-bit and 64-bit words, and texts.
-- A `const char*` key is the text that it points to, compared by `strcmp`.
use hobby_os.Prelude.{
  ℕ, ◌/◌, ◌%◌, ◌^◌, ◌<◌, ◌≡◌, ◌↔◌, refl, List, [], ◌∷◌, Bool, true, false, ◌&&◌, ◌==◌, ==_iff,
  mul64, add64, bit_xor, arith,
}
use hobby_os.Data.HashMap.{HashTrait}

unfoldable pub hash_u32 : ℕ → ℕ → ℕ
hash_u32 key width = mul64 key 2654435761 % width

unfoldable pub hash_u64 : ℕ → ℕ → ℕ
hash_u64 key width =
    let k1 = mul64 (bit_xor key (key / 2 ^ 30)) 0xbf58476d1ce4e5b9 in
    let k2 = mul64 (bit_xor k1 (k1 / 2 ^ 27)) 0x94d049bb133111eb in bit_xor k2 (k2 / 2 ^ 31) % width

-- `h = ((h << 5) + h) ^ *key++`.
unfoldable pub fold_text : ℕ → List ℕ → ℕ
fold_text h [] = h
fold_text h (c ∷ cs) = fold_text (bit_xor (add64 (mul64 h 32) h) c) cs

unfoldable pub hash_text : List ℕ → ℕ → ℕ
hash_text key width = fold_text 5381 key % width

unfoldable pub same_text : List ℕ → List ℕ → Bool
same_text [] [] = true
same_text [] (y ∷ ys) = false
same_text (x ∷ xs) [] = false
same_text (x ∷ xs) (y ∷ ys) = x == y && same_text xs ys

pub same_text_iff : (xs ys : List ℕ) → (same_text xs ys ≡ true) ↔ (xs ≡ ys)
unfolding same_text
same_text_iff [] [] = (λ h. refl, λ h. refl)
same_text_iff [] (y ∷ ys) = (λ h. cc, λ h. cc)
same_text_iff (x ∷ xs) [] = (λ h. cc, λ h. cc)
same_text_iff (x ∷ xs) (y ∷ ys) =
    (λ h. ground (arith, same_text_iff xs ys), λ h. ground (arith, same_text_iff xs ys))

pub hash_u32-lt : (k n : ℕ) → 0 < n → hash_u32 k n < n
unfolding hash_u32
hash_u32-lt k n h = omega arith

pub hash_u64-lt : (k n : ℕ) → 0 < n → hash_u64 k n < n
unfolding hash_u64
hash_u64-lt k n h = omega arith

pub hash_text-lt : (k : List ℕ) (n : ℕ) → 0 < n → hash_text k n < n
unfolding hash_text
hash_text-lt k n h = omega arith

abbrev pub u32_trait : HashTrait ℕ
u32_trait = record {
  hash = hash_u32;
  eq = ◌==◌;
  eq_iff = ==_iff;
  hash-lt = λ k {width} h. hash_u32-lt k width h;
}

abbrev pub u64_trait : HashTrait ℕ
u64_trait = record {
  hash = hash_u64;
  eq = ◌==◌;
  eq_iff = ==_iff;
  hash-lt = λ k {width} h. hash_u64-lt k width h;
}

abbrev pub text_trait : HashTrait (List ℕ)
text_trait = record {
  hash = hash_text;
  eq = same_text;
  eq_iff = same_text_iff;
  hash-lt = λ k {width} h. hash_text-lt k width h;
}
