-- ===== src/Data/HashMap/Chains.antt =====
-- Chains and buckets of kernel/lib/hash_map.h: where an entry may stand, and what one push does.
use hobby_os.Prelude.{
  ℕ, zero, suc, ◌+◌, ◌≤◌, ◌<◌, ◌≡◌, ◌≢◌, refl, sym, ap, ◌∙◌, true, none, some, List, [], ◌∷◌,
  if◌then◌else◌, update, update_self, update_ne, ==_refl, length, arith, Bool-cases, inl, inr, ◌==◌,
  ==_iff,
}
use hobby_os.Data.HashMap.{HashTrait, HashMapEntry, Buckets, find_entry, read, push}

-- The entries of the first `n` buckets.
unfoldable pub total {ℓ} : {K V : Type ℓ} → Buckets K V → ℕ → ℕ
total b zero = 0
total b (suc n) = total b n + length (b n)

module _ {ℓ} {K V : Type ℓ} where
  total-update_above :
      (b : Buckets K V) (c : List (HashMapEntry K V)) (n i : ℕ)
      → n ≤ i
      → total (update b i c) n ≡ total b n
  unfolding total
  total-update_above b c zero i h = refl
  total-update_above b c (suc n) i h =
      ap₂_add (total-update_above b c n i (omega arith))
        (ap length (update_ne b i c n (λ e. absurd (omega arith))))
    where
      ap₂_add : {a b c d : ℕ} → a ≡ b → c ≡ d → a + c ≡ b + d
      ap₂_add p q = omega arith

  pub total-update :
      (b : Buckets K V) (c : List (HashMapEntry K V)) (n i : ℕ)
      → i < n
      → total (update b i c) n + length (b i) ≡ total b n + length c
  unfolding total
  total-update b c zero i h = absurd (omega arith)
  total-update b c (suc n) i h = elim (Bool-cases (i == n)) [
    | inl same ↦
        let e = (==_iff i n).0 same in
        omega (
          arith,
          total-update_above b c n i (omega arith),
          ap length (update_self b i c),
          ap (λ j. length (update b i c j)) e,
          ap (λ j. length (b j)) e,
        )
    | inr other ↦
        let ne : i ≢ n = λ e. absurd (cc ((==_iff i n).1 e)) in
        omega (arith, total-update b c n i (ground arith), ap length (update_ne b i c n ne))
  ]

pub eq_refl {ℓ} : {K : Type ℓ} ⦃t : HashTrait K⦄ (k : K) → t.eq k k ≡ true
eq_refl ⦃t⦄ k = (t.eq_iff k k).1 refl

module _ {ℓ} {K V : Type ℓ} ⦃t : HashTrait K⦄ where
  -- No key twice on a chain.
  abbrev pub NoRepeat : List (HashMapEntry K V) → Type ℓ
  NoRepeat [] = Unit
  NoRepeat (e ∷ es) = (find_entry es e.key ≡ none) × NoRepeat es

  abbrev pub AtHome : ℕ → ℕ → List (HashMapEntry K V) → Type 0
  AtHome width i [] = Unit
  AtHome width i (e ∷ es) = (t.hash e.key width ≡ i) × AtHome width i es

  -- Every entry below the capacity stands in the bucket of its key's hash, once.
  abbrev pub IsPlaced : ℕ → Buckets K V → Type ℓ
  IsPlaced width b = (i : ℕ) → i < width → AtHome width i (b i) × NoRepeat (b i)

  pub find_entry-elsewhere :
      (width i : ℕ) (es : List (HashMapEntry K V)) (q : K)
      → AtHome width i es
      → t.hash q width ≢ i
      → find_entry es q ≡ none
  unfolding find_entry
  find_entry-elsewhere width i [] q h ne = refl
  find_entry-elsewhere width i (e ∷ es) q h ne = elim (Bool-cases (t.eq e.key q)) [
    | inl same ↦ absurd (ne (ap (λ k. t.hash k width) (sym ((t.eq_iff e.key q).0 same)) ∙ h.0))
    | inr other ↦ rw other (find_entry-elsewhere width i es q h.1 ne)
  ]

  pub read-push :
      (width : ℕ) (b : Buckets K V) (e : HashMapEntry K V) (q : K)
      → read (push width b e) width q ≡ (if t.eq e.key q then some e else read b width q)
  unfolding push find_entry
  read-push width b e q = elim (Bool-cases (t.eq e.key q)) [
    | inl same ↦
        let k = (t.eq_iff e.key q).0 same in
        rw (← k) (rw (==_refl (t.hash e.key width), eq_refl e.key))
    | inr other ↦ elim (Bool-cases (t.hash e.key width == t.hash q width)) [
      | inl home ↦
          rw (← (==_iff (t.hash e.key width) (t.hash q width)).0 home)
            (rw (==_refl (t.hash e.key width), other))
      | inr away ↦ rw (
        update_ne b (t.hash e.key width) _ (t.hash q width)
            (λ h. absurd (cc ((==_iff (t.hash e.key width) (t.hash q width)).1 h))),
        other,
      )
    ]
  ]

  pub push-IsPlaced :
      (width : ℕ) (b : Buckets K V) (e : HashMapEntry K V)
      → IsPlaced width b
      → read b width e.key ≡ none
      → IsPlaced width (push width b e)
  unfolding push
  push-IsPlaced width b e placed fresh i h = elim (Bool-cases (t.hash e.key width == i)) [
    | inl same ↦
        let at_i = (==_iff (t.hash e.key width) i).0 same in
        rw (← at_i) (
          rw (==_refl (t.hash e.key width)) (
            (refl, (placed (t.hash e.key width) (rw at_i h)).0),
            (fresh, (placed (t.hash e.key width) (rw at_i h)).1),
          ))
    | inr other ↦
        rw
          (update_ne b (t.hash e.key width) _ i
            (λ p. absurd (cc ((==_iff (t.hash e.key width) i).1 p))))
          (placed i h)
  ]

  pub total-push :
      (width : ℕ) (b : Buckets K V) (e : HashMapEntry K V)
      → 0 < width
      → total (push width b e) width ≡ suc (total b width)
  unfolding push
  total-push width b e pos = omega (
    arith,
    total-update b (e ∷ b (t.hash e.key width)) width (t.hash e.key width) (t.hash-lt e.key pos),
  )
