-- ===== src/Data/HashMap/Erase.antt =====
-- The rest of kernel/lib/hash_map.h against the finite map: erase, clear, contains, construction.
use hobby_os.Prelude.{
  ℕ, zero, suc, ◌+◌, ◌-◌, ◌<◌, ◌≡◌, refl, sym, ap, ◌∙◌, Option, none, some, List, [], ◌∷◌,
  if◌then◌else◌, length, arith, Bool-cases, inl, inr, Bool, true, false, lt→ltb, update, ==_refl,
  ◌==◌, ==_iff,
}
use hobby_os.Data.HashMap.{
  HashTrait, HashMapEntry, HashMap, Buckets, find_entry, read, erase, unlink, at, contains, clear,
  init, is_found,
}
use hobby_os.Data.HashMap.Chains.{total, IsPlaced, NoRepeat, AtHome, total-update}
use hobby_os.Data.HashMap.Rehash.{total-no_entries}
use hobby_os.Data.HashMap.Represents.{Represents, remove, read-none, read-some, value_of}

total_none {ℓ} :
    {K V : Type ℓ} (b : Buckets K V) (n : ℕ) → ((i : ℕ) → i < n → b i ≡ []) → total b n ≡ 0
unfolding total
total_none b zero h = refl
total_none b (suc n) h =
    omega (arith, total_none b n (λ i lt. h i (omega arith)), ap length (h n (omega arith)))

abbrev pub is_set {ℓ} : {V : Type ℓ} → Option V → Bool
is_set none = false
is_set (some v) = true

module _ {ℓ} {K V : Type ℓ} ⦃t : HashTrait K⦄ where
  -- `contains` answers by the map.
  pub contains-Represents :
      (f : K → Option V) (m : HashMap K V) (k : K) → Represents f m → contains m k ≡ is_set (f k)
  unfolding contains at
  contains-Represents f m k r = found_set (read m.entries m.capacity k) ∙ ap is_set (r.reads k)
    where
      found_set : (o : Option (HashMapEntry K V)) → is_found o ≡ is_set (value_of o)
      found_set none = refl
      found_set (some e) = refl

  pub init-Represents : (n : ℕ) → 0 < n → Represents {K = K} {V = V} (λ q. none) (init n)
  unfolding init at find_entry
  init-Represents n pos = record {
    width = pos;
    placed = λ i h. (tt, tt);
    counted = sym (total-no_entries K V n);
    reads = λ q. refl;
  }

  pub clear-Represents :
      (f : K → Option V) (m : HashMap K V) → Represents f m → Represents (λ q. none) (clear m)
  unfolding clear at find_entry
  clear-Represents f m r = record {
    width = r.width;
    placed = λ i h. rw (lt→ltb i m.capacity h) (tt, tt);
    counted = sym (total_none (clear m).entries m.capacity (λ i h. rw (lt→ltb i m.capacity h)));
    reads = λ q. rw (lt→ltb _ _ (t.hash-lt q r.width));
  }

  -- The chain `c` is `es` without its entry of the key `k`.
  record Unlinked (width i : ℕ) (es : List (HashMapEntry K V)) (k : K) (c : List (HashMapEntry K V))
      : Type ℓ where
    pub home : AtHome width i c
    pub once : NoRepeat c
    pub reads : (q : K) → find_entry c q ≡ (if t.eq k q then none else find_entry es q)
    pub shorter : suc (length c) ≡ length es

  Unlinked-head :
      (width i : ℕ) (e : HashMapEntry K V) (es : List (HashMapEntry K V)) (k : K)
      → AtHome width i (e ∷ es)
      → NoRepeat (e ∷ es)
      → t.eq e.key k ≡ true
      → Unlinked width i (e ∷ es) k es
  unfolding find_entry
  Unlinked-head width i e es k home once same =
      let e_is_k = (t.eq_iff e.key k).0 same in
      record {
        home = home.1;
        once = once.1;
        reads = λ q. elim (Bool-cases (t.eq k q)) [
          | inl here ↦ rw here (rw (← (t.eq_iff k q).0 here, ← e_is_k) once.0)
          | inr away ↦ rw (e_is_k, away)
        ];
        shorter = refl;
      }

  Unlinked-tail :
      (width i : ℕ) (e : HashMapEntry K V) (es c : List (HashMapEntry K V)) (k : K)
      → AtHome width i (e ∷ es)
      → NoRepeat (e ∷ es)
      → t.eq e.key k ≡ false
      → Unlinked width i es k c
      → Unlinked width i (e ∷ es) k (e ∷ c)
  unfolding find_entry
  Unlinked-tail width i e es c k home once other u = record {
    home = (home.0, u.home);
    once = (u.reads e.key ∙ none_unless (t.eq k e.key) (find_entry es e.key) once.0, u.once);
    reads = λ q. elim (Bool-cases (t.eq k q)) [
      | inl here ↦
          let k_is_q = (t.eq_iff k q).0 here in
          rw (here, ap (t.eq e.key) (sym k_is_q) ∙ other) (u.reads q ∙ rw here)
      | inr away ↦ rw away (ap (λ o. if t.eq e.key q then some e else o) (u.reads q ∙ rw away))
    ];
    shorter = ap suc u.shorter;
  }
    where
      none_unless :
          (b : Bool) (o : Option (HashMapEntry K V)) → o ≡ none → (if b then none else o) ≡ none
      none_unless true o h = refl
      none_unless false o h = h

  unlink_lem :
      (width i : ℕ) (es : List (HashMapEntry K V)) (k : K) {e : HashMapEntry K V}
      → AtHome width i es
      → NoRepeat es
      → find_entry es k ≡ some e
      → (c : List (HashMapEntry K V)) × (unlink es k ≡ some c) × Unlinked width i es k c
  unfolding unlink find_entry
  unlink_lem width i [] k home once found = absurd (cc found)
  unlink_lem width i (e ∷ es) k home once found = elim (Bool-cases (t.eq e.key k)) [
    | inl same ↦ (es, rw same, Unlinked-head width i e es k home once same)
    | inr other ↦
        let (c, run, u) = unlink_lem width i es k home.1 once.1 (rw other at found) in
        (e ∷ c, rw (other, run), Unlinked-tail width i e es c k home once other u)
  ]

  unlink_missing :
      (es : List (HashMapEntry K V)) (k : K) → find_entry es k ≡ none → unlink es k ≡ none
  unfolding unlink find_entry
  unlink_missing [] k h = refl
  unlink_missing (e ∷ es) k h = elim (Bool-cases (t.eq e.key k)) [
    | inl same ↦ absurd (cc (rw same at h))
    | inr other ↦ rw (other, unlink_missing es k (rw other at h))
  ]

  read-update :
      (width : ℕ) (b : Buckets K V) (c : List (HashMapEntry K V)) (k q : K)
      → IsPlaced width b
      → 0 < width
      → Unlinked width (t.hash k width) (b (t.hash k width)) k c
      → read (update b (t.hash k width) c) width q ≡ (if t.eq k q then none else read b width q)
  read-update width b c k q placed pos u = elim (Bool-cases (t.hash k width == t.hash q width)) [
    | inl home ↦
        let e = (==_iff (t.hash k width) (t.hash q width)).0 home in
        rw (← e) (rw (==_refl (t.hash k width)) (u.reads q))
    | inr away ↦ elim (Bool-cases (t.eq k q)) [
      | inl same ↦
          let e = (t.eq_iff k q).0 same in
          absurd (
            cc (
              sym (==_refl (t.hash k width)) ∙ ap (λ x. t.hash k width == t.hash x width) e ∙ away))
      | inr other ↦ rw (other, away)
    ]
  ]

  -- Erasing a key that the map has: it is gone, the others stay, and there is one entry less.
  pub erase-Represents :
      (f : K → Option V) (m : HashMap K V) (k : K) (v : V)
      → Represents f m
      → f k ≡ some v
      → (m' : HashMap K V) × (erase m k ≡ some m')
        × Represents (remove f k) m'
        × (m'.count + 1 ≡ m.count)
        × (m'.capacity ≡ m.capacity)
  unfolding erase at
  erase-Represents f m k v r old =
      let i = t.hash k m.capacity in
      let lt = t.hash-lt k r.width in
      let (e, found) = read-some m k (r.reads k ∙ old) in
      let (c, run, u) =
        unlink_lem m.capacity i (m.entries i) k (r.placed i lt).0 (r.placed i lt).1 found in
      let counted = total-update m.entries c m.capacity i lt in
      (
        record m { entries = update m.entries i c; count = m.count - 1 },
        rw run,
        record {
          width = r.width;
          placed = λ j h. elim (Bool-cases (i == j)) [
            | inl same ↦ rw (same, ← (==_iff i j).0 same) (u.home, u.once)
            | inr other ↦ rw other (r.placed j h)
          ];
          counted = omega (arith, counted, u.shorter, r.counted);
          reads = λ q.
              ap value_of (read-update m.capacity m.entries c k q r.placed r.width u)
              ∙ value_of-unless (t.eq k q) (read m.entries m.capacity q)
              ∙ ap (λ o. if t.eq k q then none else o) (r.reads q);
        },
        omega (arith, counted, u.shorter, r.counted),
        refl,
      )
    where
      value_of-unless :
          (b : Bool) (o : Option (HashMapEntry K V))
          → value_of (if b then none else o) ≡ (if b then none else value_of o)
      value_of-unless true o = refl
      value_of-unless false o = refl

  -- Erasing a key that the map does not have is a panic.
  pub erase_panics :
      (f : K → Option V) (m : HashMap K V) (k : K) → Represents f m → f k ≡ none → erase m k ≡ none
  unfolding erase
  erase_panics f m k r missing = rw (unlink_missing _ k (read-none m k (r.reads k ∙ missing)))
