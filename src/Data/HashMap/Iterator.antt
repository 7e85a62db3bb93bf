-- ===== src/Data/HashMap/Iterator.antt =====
-- The iterator of kernel/lib/hash_map.h, and the order in which it meets the entries.
use hobby_os.Prelude.{
  ℕ, zero, suc, ◌+◌, ◌-◌, ◌≤◌, ◌≡◌, ap, ◌∙◌, List, [], ◌∷◌, ◌++◌, length, arith, length-append,
  Option, none, some, Bool, false, ◌==◌, if◌then◌else◌,
}
use mathlib.Core.Option
use hobby_os.Data.HashMap.{HashTrait, HashMapEntry, HashMap}
use hobby_os.Data.HashMap.Chains.{total}
use hobby_os.Data.HashMap.Represents.{Represents}

-- An entry stands with those behind it on its chain: `[]` is the null entry of `end()`.
pub record Iterator {ℓ} (K V : Type ℓ) : Type ℓ where
  pub index : ℕ
  pub entry : List (HashMapEntry K V)

module _ {ℓ} {K V : Type ℓ} where
  -- The first bucket from `index` on with an entry, in a table of `rounds` more buckets.
  unfoldable pub scan : HashMap K V → ℕ → ℕ → Iterator K V
  scan m index zero = record { index = index; entry = [] }
  scan m index (suc rounds) = elim (m.entries index) [
    | [] ↦ scan m (index + 1) rounds
    | e ∷ es ↦ record { index = index; entry = e ∷ es }
  ]

  unfoldable pub begin : HashMap K V → Iterator K V
  begin m = scan m 0 m.capacity

  unfoldable pub end : HashMap K V → Iterator K V
  end m = record { index = m.capacity; entry = [] }

  -- `operator++`.
  abbrev pub step_from : HashMap K V → ℕ → List (HashMapEntry K V) → Iterator K V
  step_from m index [] = record { index = index; entry = [] }
  step_from m index (e ∷ []) = scan m (index + 1) (m.capacity - (index + 1))
  step_from m index (e ∷ f ∷ es) = record { index = index; entry = f ∷ es }

  unfoldable pub next : HashMap K V → Iterator K V → Iterator K V
  next m it = step_from m it.index it.entry

  -- `it == end()`.
  abbrev pub at_end : HashMap K V → ℕ → List (HashMapEntry K V) → Bool
  at_end m index [] = index == m.capacity
  at_end m index (e ∷ es) = false

  -- `*it`, and the rest of a loop: `none` is a null pointer.
  abbrev pub meet :
      List (HashMapEntry K V) → Option (List (HashMapEntry K V)) → Option (List (HashMapEntry K V))
  meet [] rest = none
  meet (e ∷ es) rest = Option.map (λ r. e ∷ r) rest

  -- `for (it = ...; it != end(); ++it)`: the entries that it meets. `none` is also a loop that is not at
  -- its end after `fuel` rounds.
  unfoldable pub visit :
      ℕ → HashMap K V → ℕ → List (HashMapEntry K V) → Option (List (HashMapEntry K V))
  visit zero m index es = if at_end m index es then some [] else none
  visit (suc fuel) m index es =
      let it = step_from m index es in
      let rest = visit fuel m it.index it.entry in
      if at_end m index es then some [] else meet es rest

  unfoldable pub visited : ℕ → HashMap K V → Option (List (HashMapEntry K V))
  visited fuel m = visit fuel m (begin m).index (begin m).entry

  -- The buckets one after the other: `rounds` of them from `index`.
  unfoldable pub chains_from : HashMap K V → ℕ → ℕ → List (HashMapEntry K V)
  chains_from m index zero = []
  chains_from m index (suc rounds) = m.entries index ++ chains_from m (index + 1) rounds

  Visits : ℕ → HashMap K V → Type ℓ
  Visits fuel m =
      (index rounds : ℕ) (e : HashMapEntry K V) (es : List (HashMapEntry K V))
      → index + 1 + rounds ≡ m.capacity
      → length ((e ∷ es) ++ chains_from m (index + 1) rounds) ≤ fuel
      → visit fuel m index (e ∷ es) ≡ some ((e ∷ es) ++ chains_from m (index + 1) rounds)

  visit-null :
      (fuel : ℕ) (m : HashMap K V) (index : ℕ)
      → index ≡ m.capacity
      → visit fuel m index [] ≡ some []
  unfolding visit
  visit-null zero m index h = ground (arith, h)
  visit-null (suc fuel) m index h = ground (arith, h)

  visit-scan :
      (fuel : ℕ) (m : HashMap K V) (index rounds : ℕ)
      → Visits fuel m
      → index + rounds ≡ m.capacity
      → length (chains_from m index rounds) ≤ fuel
      → visit fuel m (scan m index rounds).index (scan m index rounds).entry
        ≡ some (chains_from m index rounds)
  unfolding scan chains_from Visits
  visit-scan fuel m index zero all width h = visit-null fuel m index (omega (arith, width))
  visit-scan fuel m index (suc rounds) all width h =
      at_bucket (m.entries index) (visit-scan fuel m (index + 1) rounds all (omega arith)) h
    where
      at_bucket :
          (c : List (HashMapEntry K V))
          → (length (chains_from m (index + 1) rounds) ≤ fuel
              → visit fuel m (scan m (index + 1) rounds).index (scan m (index + 1) rounds).entry
                ≡ some (chains_from m (index + 1) rounds))
          → length (c ++ chains_from m (index + 1) rounds) ≤ fuel
          → (let it : Iterator K V = elim c [
            | [] ↦ scan m (index + 1) rounds
            | e ∷ es ↦ record { index = index; entry = e ∷ es }
          ] in
              visit fuel m it.index it.entry)
            ≡ some (c ++ chains_from m (index + 1) rounds)
      at_bucket [] rest h = rest h
      at_bucket (e ∷ es) rest h = all index rounds e es (omega arith) h

  visit-Visits : (fuel : ℕ) (m : HashMap K V) → Visits fuel m
  unfolding Visits visit
  visit-Visits zero m index rounds e es width h = absurd (omega arith)
  visit-Visits (suc fuel) m index rounds e [] width h =
      let left : m.capacity - (index + 1) ≡ rounds = omega arith in
      ap
        (λ r.
          Option.map (λ x. e ∷ x)
            (visit fuel m (scan m (index + 1) r).index (scan m (index + 1) r).entry))
        left
      ∙ ap (Option.map (λ x. e ∷ x))
          (visit-scan fuel m (index + 1) rounds (visit-Visits fuel m) width (omega arith))
  visit-Visits (suc fuel) m index rounds e (f ∷ es) width h =
      ap (Option.map (λ x. e ∷ x)) (visit-Visits fuel m index rounds f es width (omega arith))

  length-chains_from :
      (m : HashMap K V) (index rounds : ℕ)
      → total m.entries index + length (chains_from m index rounds)
        ≡ total m.entries (index + rounds)
  unfolding chains_from total
  length-chains_from m index zero =
      let none_left : index ≡ index + 0 = omega arith in
      omega (arith, ap (total m.entries) none_left)
  length-chains_from m index (suc rounds) =
      let bound : index + 1 + rounds ≡ index + suc rounds = omega arith in
      let more : index + 1 ≡ suc index = omega arith in
      omega (
        arith,
        length-chains_from m (index + 1) rounds,
        length-append (m.entries index) (chains_from m (index + 1) rounds),
        ap (total m.entries) bound,
        ap (total m.entries) more,
      )

module _ {ℓ} {K V : Type ℓ} ⦃t : HashTrait K⦄ where
  -- A loop over a map comes to `end()` in `size()` rounds, without a null pointer, and meets every
  -- entry once: bucket after bucket, each chain from its head.
  pub visited-chains_from :
      (f : K → Option V) (m : HashMap K V)
      → Represents f m
      → visited m.count m ≡ some (chains_from m 0 m.capacity)
  unfolding visited begin total
  visited-chains_from f m r =
      visit-scan m.count m 0 m.capacity (visit-Visits m.count m) (omega arith) (
        omega (
          arith,
          length-chains_from m 0 m.capacity,
          r.counted,
          ap (total m.entries) (omega_zero m.capacity),
        ))
    where
      omega_zero : (n : ℕ) → 0 + n ≡ n
      omega_zero n = omega arith
