-- ===== src/Data/HashMap/Represents.antt =====
-- kernel/lib/hash_map.h against the finite map that it stands for.
use mathlib.Core.Option
use hobby_os.Prelude.{
  ◌+◌, ◌*◌, ◌^◌, ◌<◌, ◌≡◌, refl, sym, ap, ◌∙◌, Option, none, some, ltb, if◌then◌else◌, arith,
  Bool-cases, inl, inr, Bool, true, false, lt→ltb, Option-cases, mul64, add64,
}
use hobby_os.Data.HashMap.{
  HashTrait, HashMapEntry, HashMap, read, push, rehash, make_room, add_entry, insert, at,
  add_unless,
}
use hobby_os.Data.HashMap.Chains.{total, IsPlaced, read-push, push-IsPlaced, total-push}
use hobby_os.Data.HashMap.Rehash.{move_all-Reads}

abbrev pub value_of {ℓ} : {K V : Type ℓ} → Option (HashMapEntry K V) → Option V
value_of o = Option.map (λ e. e.value) o

module _ {ℓ} {K V : Type ℓ} ⦃t : HashTrait K⦄ where
  -- The table is sound and reads as the finite map `f`: every entry stands once, in the bucket of
  -- its key, and the count is that of the entries.
  pub record Represents (f : K → Option V) (m : HashMap K V) : Type ℓ where
    pub width : 0 < m.capacity
    pub placed : IsPlaced m.capacity m.entries
    pub counted : m.count ≡ total m.entries m.capacity
    pub reads : (q : K) → at m q ≡ f q

  pub Represents-same :
      (f g : K → Option V) (m : HashMap K V)
      → ((q : K) → f q ≡ g q)
      → Represents f m
      → Represents g m
  Represents-same f g m same r = record {
    width = r.width;
    placed = r.placed;
    counted = r.counted;
    reads = λ q. r.reads q ∙ same q;
  }

  -- The size of the table in bytes, and of its double, is a machine word.
  abbrev pub Fits : HashMap K V → Type 0
  Fits m = (m.capacity < 2 ^ 58) × (m.count < 2 ^ 60)

  pub rehash-Represents :
      {f : K → Option V} (m : HashMap K V) → Represents f m → Fits m → Represents f (rehash m)
  unfolding rehash at
  rehash-Represents {f} m r fits =
      let wide : mul64 m.capacity 2 ≡ m.capacity * 2 = omega arith in
      let moved =
        move_all-Reads m.capacity (mul64 m.capacity 2) m.entries m.capacity (omega (arith, r.width))
          r.placed (omega arith) in
      record {
        width = omega (arith, r.width);
        placed = moved.placed;
        counted = r.counted ∙ sym moved.entries;
        reads =
            λ q. ap value_of (moved.reads q ∙ rw (lt→ltb _ _ (t.hash-lt q r.width))) ∙ r.reads q;
      }

  pub make_room-Represents :
      {f : K → Option V} (m : HashMap K V) → Represents f m → Fits m → Represents f (make_room m)
  unfolding make_room
  make_room-Represents {f} m r fits =
      elim (Bool-cases (ltb (mul64 m.capacity 3) (mul64 (add64 m.count 1) 4))) [
        | inl full ↦ rw full (rehash-Represents m r fits)
        | inr room ↦ rw room r
      ]

  pub make_room-count : (m : HashMap K V) → (make_room m).count ≡ m.count
  unfolding make_room rehash
  make_room-count m = elim (Bool-cases (ltb (mul64 m.capacity 3) (mul64 (add64 m.count 1) 4))) [
    | inl full ↦ rw full
    | inr room ↦ rw room
  ]

  pub read-none : (m : HashMap K V) (k : K) → at m k ≡ none → read m.entries m.capacity k ≡ none
  unfolding at
  read-none m k h = elim (Option-cases (read m.entries m.capacity k)) [
    | inl missing ↦ missing
    | inr found ↦ absurd (cc (ap value_of found.1))
  ]

  pub read-some :
      (m : HashMap K V) (k : K) {v : V}
      → at m k ≡ some v
      → (e : HashMapEntry K V) × (read m.entries m.capacity k ≡ some e)
  unfolding at
  read-some m k h = elim (Option-cases (read m.entries m.capacity k)) [
    | inl missing ↦ absurd (cc (ap value_of missing))
    | inr found ↦ found
  ]

  abbrev pub put : (K → Option V) → K → V → K → Option V
  put f k v q = if t.eq k q then some v else f q

  abbrev pub remove : (K → Option V) → K → K → Option V
  remove f k q = if t.eq k q then none else f q

  pub value_of-if :
      (b : Bool) (e : HashMapEntry K V) (o : Option (HashMapEntry K V))
      → value_of (if b then some e else o) ≡ (if b then some e.value else value_of o)
  value_of-if true e o = refl
  value_of-if false e o = refl

  at-add :
      (m : HashMap K V) (k : K) (v : V) (q : K)
      → at
          (record m {
            entries = push m.capacity m.entries (record { key = k; value = v });
            count = add64 m.count 1;
          })
          q
        ≡ (if t.eq k q then some v else at m q)
  unfolding at
  at-add m k v q =
      ap value_of (read-push m.capacity m.entries (record { key = k; value = v }) q)
      ∙ value_of-if (t.eq k q) (record { key = k; value = v }) (read m.entries m.capacity q)

  add_entry-Represents :
      {f : K → Option V} (m : HashMap K V) (k : K) (v : V)
      → Represents f m
      → f k ≡ none
      → m.count < 2 ^ 60
      → (m' : HashMap K V) × (add_entry m k v ≡ some m')
        × Represents (put f k v) m'
        × (m'.count ≡ m.count + 1)
  unfolding add_entry
  add_entry-Represents {f} m k v r fresh small =
      let missing = read-none m k (r.reads k ∙ fresh) in
      let e : HashMapEntry K V = record { key = k; value = v } in
      let m' : HashMap K V = record m {
        entries = push m.capacity m.entries e;
        count = add64 m.count 1;
      } in
      (
        m',
        ap (λ o. add_unless o m k v) missing,
        record {
          width = r.width;
          placed = push-IsPlaced m.capacity m.entries e r.placed missing;
          counted = omega (arith, r.counted, total-push m.capacity m.entries e r.width);
          reads = λ q. at-add m k v q ∙ ap (λ o. if t.eq k q then some v else o) (r.reads q);
        },
        omega arith,
      )

  -- A key that the map does not have is inserted, whether or not the table doubles on the way, where
  -- the table's size is a word: it then stands for the map with the new key, and has one entry more.
  pub insert-Represents :
      (f : K → Option V) (m : HashMap K V) (k : K) (v : V)
      → Represents f m
      → Fits m
      → f k ≡ none
      → (m' : HashMap K V) × (insert m k v ≡ some m')
        × Represents (put f k v) m'
        × (m'.count ≡ m.count + 1)
  unfolding insert
  insert-Represents f m k v r fits fresh =
      let (m', run, holds, one) =
        add_entry-Represents (make_room m) k v (make_room-Represents m r fits) fresh
          (rw (make_room-count m) fits.1) in
      (m', run, holds, rw (make_room-count m) at one)

  -- A key that the map has is refused by a panic.
  pub insert_panics :
      (f : K → Option V) (m : HashMap K V) (k : K) (v w : V)
      → Represents f m
      → Fits m
      → f k ≡ some w
      → insert m k v ≡ none
  unfolding insert add_entry
  insert_panics f m k v w r fits old =
      let (e, found) = read-some (make_room m) k ((make_room-Represents m r fits).reads k ∙ old) in
      ap (λ o. add_unless o (make_room m) k v) found
