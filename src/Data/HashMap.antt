-- ===== src/Data/HashMap.antt =====
-- kernel/lib/hash_map.h: chained hashing with doubling.
-- A bucket is the list of the entries on its chain; the vector of buckets is a function of the
-- index. `none` is a panic. The allocations of entries and tables are taken to succeed.
use mathlib.Core.Option
use hobby_os.Prelude.{
  ℕ, zero, suc, ◌+◌, ◌-◌, ◌*◌, ◌≤◌, ◌<◌, ◌≡◌, ◌↔◌, Bool, true, false, Option, none, some, List, [],
  ◌∷◌, ltb, if◌then◌else◌, update, add64, mul64, ◌==◌,
}
pub mod Chains
pub mod Rehash
pub mod Represents
pub mod Erase
pub mod Assign
pub mod Iterator
pub mod Traits

-- What the map asks of a key: a hash below the capacity, and an equality.
pub record HashTrait {ℓ} (K : Type ℓ) : Type ℓ where
  pub hash : K → ℕ → ℕ
  pub eq : K → K → Bool
  pub eq_iff : (a b : K) → (eq a b ≡ true) ↔ (a ≡ b)
  pub hash-lt : (k : K) {width : ℕ} → 0 < width → hash k width < width

pub record HashMapEntry {ℓ} (K V : Type ℓ) : Type ℓ where
  pub key : K
  pub value : V

abbrev pub Buckets {ℓ} : Type ℓ → Type ℓ → Type ℓ
Buckets K V = ℕ → List (HashMapEntry K V)

pub record HashMap {ℓ} (K V : Type ℓ) : Type ℓ where
  pub entries : Buckets K V
  pub capacity : ℕ
  pub count : ℕ

module _ {ℓ} {K V : Type ℓ} where
  -- `m_entries.fill(0)`.
  abbrev pub no_entries : Buckets K V
  no_entries i = []

  unfoldable pub init : ℕ → HashMap K V
  init capacity = record { entries = no_entries; capacity = capacity; count = 0 }

  -- The scan stops at the capacity: what stands behind the table is not touched.
  unfoldable pub clear : HashMap K V → HashMap K V
  clear m = record m { entries = λ i. if ltb i m.capacity then [] else m.entries i; count = 0 }

  unfoldable pub empty : HashMap K V → Bool
  empty m = m.count == 0

  abbrev pub size : HashMap K V → ℕ
  size m = m.count

module _ {ℓ} {K V : Type ℓ} ⦃t : HashTrait K⦄ where
  -- The walk along a chain.
  unfoldable pub find_entry : List (HashMapEntry K V) → K → Option (HashMapEntry K V)
  find_entry [] k = none
  find_entry (e ∷ es) k = if t.eq e.key k then some e else find_entry es k

  -- The walk of `erase`, with the entry before, which is linked past the one found.
  unfoldable pub unlink : List (HashMapEntry K V) → K → Option (List (HashMapEntry K V))
  unlink [] k = none
  unlink (e ∷ es) k = if t.eq e.key k then some es else Option.map (λ rest. e ∷ rest) (unlink es k)

  abbrev pub read : Buckets K V → ℕ → K → Option (HashMapEntry K V)
  read b width k = find_entry (b (t.hash k width)) k

  unfoldable pub at : HashMap K V → K → Option V
  at m k = Option.map (λ e. e.value) (read m.entries m.capacity k)

  abbrev pub is_found : Option (HashMapEntry K V) → Bool
  is_found none = false
  is_found (some e) = true

  unfoldable pub contains : HashMap K V → K → Bool
  contains m k = is_found (read m.entries m.capacity k)

  -- An entry becomes the head of its bucket.
  unfoldable pub push : ℕ → Buckets K V → HashMapEntry K V → Buckets K V
  push width b e = update b (t.hash e.key width) (e ∷ b (t.hash e.key width))

  unfoldable pub move_chain : ℕ → List (HashMapEntry K V) → Buckets K V → Buckets K V
  move_chain width [] b = b
  move_chain width (e ∷ es) b = move_chain width es (push width b e)

  -- The first `n` rounds of the loop over the old table.
  unfoldable pub move_all : ℕ → Buckets K V → ℕ → Buckets K V
  move_all width old zero = no_entries
  move_all width old (suc n) = move_chain width (old n) (move_all width old n)

  unfoldable pub rehash : HashMap K V → HashMap K V
  rehash m = record m {
    entries = move_all (mul64 m.capacity 2) m.entries m.capacity;
    capacity = mul64 m.capacity 2;
  }

  -- The load factor is 3 / 4.
  unfoldable pub make_room : HashMap K V → HashMap K V
  make_room m = if ltb (mul64 m.capacity 3) (mul64 (add64 m.count 1) 4) then rehash m else m

  -- After the walk along the chain: what it found is a duplicate.
  abbrev pub add_unless : Option (HashMapEntry K V) → HashMap K V → K → V → Option (HashMap K V)
  add_unless (some e) m k v = none
  add_unless none m k v = some (record m {
    entries = push m.capacity m.entries (record { key = k; value = v });
    count = add64 m.count 1;
  })

  unfoldable pub add_entry : HashMap K V → K → V → Option (HashMap K V)
  add_entry m k v = add_unless (read m.entries m.capacity k) m k v

  unfoldable pub insert : HashMap K V → K → V → Option (HashMap K V)
  insert m k v = add_entry (make_room m) k v

  -- `HashMap::operator[]` as the target of an assignment.
  unfoldable pub replace : List (HashMapEntry K V) → K → V → Option (List (HashMapEntry K V))
  replace [] k v = none
  replace (e ∷ es) k v =
      if t.eq e.key k
      then some (record e { value = v } ∷ es)
      else Option.map (λ rest. e ∷ rest) (replace es k v)

  unfoldable pub assign : HashMap K V → K → V → Option (HashMap K V)
  assign m k v =
      let i = t.hash k m.capacity in
      Option.map (λ c. record m { entries = update m.entries i c }) (replace (m.entries i) k v)

  unfoldable pub erase : HashMap K V → K → Option (HashMap K V)
  erase m k =
      let i = t.hash k m.capacity in
      Option.map (λ c. record m { entries = update m.entries i c; count = m.count - 1 })
        (unlink (m.entries i) k)
