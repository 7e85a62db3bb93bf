-- ===== src/Data/HashMap/Assign.antt =====
-- The assignment through `operator[]` of kernel/lib/hash_map.h: the value of an entry is replaced.
use hobby_os.Prelude.{
  ℕ, suc, ◌≡◌, refl, sym, ap, ◌∙◌, Option, none, some, List, [], ◌∷◌, if◌then◌else◌, length, arith,
  Bool-cases, inl, inr, true, false, update, ==_refl, ◌==◌, ==_iff, Bool,
}
use hobby_os.Data.HashMap.{HashTrait, HashMapEntry, HashMap, find_entry, read, at, replace, assign}
use hobby_os.Data.HashMap.Chains.{NoRepeat, AtHome, total-update}
use hobby_os.Data.HashMap.Represents.{Represents, put, value_of, read-some}

module _ {ℓ} {K V : Type ℓ} ⦃t : HashTrait K⦄ where
  -- The chain `c` is `es` with the value `v` at the key `k`.
  record Replaced (width i : ℕ) (es : List (HashMapEntry K V)) (k : K) (v : V)
      (c : List (HashMapEntry K V)) : Type ℓ where
    pub home : AtHome width i c
    pub once : NoRepeat c
    pub missing : (q : K) → find_entry es q ≡ none → find_entry c q ≡ none
    pub reads :
        (q : K)
        → value_of (find_entry c q) ≡ (if t.eq k q then some v else value_of (find_entry es q))
    pub size : length c ≡ length es

  value_of-if_key :
      (b : Bool) (e : HashMapEntry K V) (o : Option (HashMapEntry K V))
      → value_of (if b then some e else o) ≡ (if b then some e.value else value_of o)
  value_of-if_key true e o = refl
  value_of-if_key false e o = refl

  Replaced-head :
      (width i : ℕ) (e : HashMapEntry K V) (es : List (HashMapEntry K V)) (k : K) (v : V)
      → AtHome width i (e ∷ es)
      → NoRepeat (e ∷ es)
      → t.eq e.key k ≡ true
      → Replaced width i (e ∷ es) k v (record e { value = v } ∷ es)
  unfolding find_entry
  Replaced-head width i e es k v home once same =
      let e_is_k = (t.eq_iff e.key k).0 same in
      record {
        home = home;
        once = once;
        missing = λ q h. elim (Bool-cases (t.eq e.key q)) [
          | inl here ↦ absurd (cc (rw here at h))
          | inr away ↦ rw away (rw away at h)
        ];
        reads = λ q. elim (Bool-cases (t.eq k q)) [
          | inl here ↦ rw (e_is_k, here)
          | inr away ↦ rw (e_is_k, away)
        ];
        size = refl;
      }

  Replaced-tail :
      (width i : ℕ) (e : HashMapEntry K V) (es c : List (HashMapEntry K V)) (k : K) (v : V)
      → AtHome width i (e ∷ es)
      → NoRepeat (e ∷ es)
      → t.eq e.key k ≡ false
      → Replaced width i es k v c
      → Replaced width i (e ∷ es) k v (e ∷ c)
  unfolding find_entry
  Replaced-tail width i e es c k v home once other u = record {
    home = (home.0, u.home);
    once = (u.missing e.key once.0, u.once);
    missing = λ q h. elim (Bool-cases (t.eq e.key q)) [
      | inl here ↦ absurd (cc (rw here at h))
      | inr away ↦ rw away (u.missing q (rw away at h))
    ];
    reads = λ q. elim (Bool-cases (t.eq e.key q)) [
      | inl here ↦ rw (here, not_key (t.eq k q) refl ((t.eq_iff e.key q).0 here))
      | inr away ↦ rw away (u.reads q)
    ];
    size = ap suc u.size;
  }
    where
      not_key : {q : K} (b : Bool) → t.eq k q ≡ b → e.key ≡ q → t.eq k q ≡ false
      not_key {q} true h g =
          let k_is_e = (t.eq_iff k q).0 h ∙ sym g in
          absurd (cc (sym ((t.eq_iff e.key k).1 (sym k_is_e)) ∙ other))
      not_key false h g = h

  replace_lem :
      (width i : ℕ) (es : List (HashMapEntry K V)) (k : K) (v : V) {e : HashMapEntry K V}
      → AtHome width i es
      → NoRepeat es
      → find_entry es k ≡ some e
      → (c : List (HashMapEntry K V)) × (replace es k v ≡ some c) × Replaced width i es k v c
  unfolding replace find_entry
  replace_lem width i [] k v home once found = absurd (cc found)
  replace_lem width i (e ∷ es) k v home once found = elim (Bool-cases (t.eq e.key k)) [
    | inl same ↦
        (record e { value = v } ∷ es, rw same, Replaced-head width i e es k v home once same)
    | inr other ↦
        let (c, run, u) = replace_lem width i es k v home.1 once.1 (rw other at found) in
        (e ∷ c, rw (other, run), Replaced-tail width i e es c k v home once other u)
  ]

  -- The value that a key has already changes nothing.
  pub put_same : (f : K → Option V) (k : K) (n : V) → f k ≡ some n → (q : K) → put f k n q ≡ f q
  put_same f k n old q = elim (Bool-cases (t.eq k q)) [
    | inl same ↦ rw same (sym (ap f (sym ((t.eq_iff k q).0 same)) ∙ old))
    | inr other ↦ rw other
  ]

  -- A key that the map has gets the new value; nothing else changes.
  pub assign-Represents :
      (f : K → Option V) (m : HashMap K V) (k : K) (v w : V)
      → Represents f m
      → f k ≡ some w
      → (m' : HashMap K V) × (assign m k v ≡ some m')
        × Represents (put f k v) m'
        × (m'.count ≡ m.count)
  unfolding assign at
  assign-Represents f m k v w r old =
      let i = t.hash k m.capacity in
      let lt = t.hash-lt k r.width in
      let (e, found) = read-some m k (r.reads k ∙ old) in
      let (c, run, u) =
        replace_lem m.capacity i (m.entries i) k v (r.placed i lt).0 (r.placed i lt).1 found in
      (
        record m { entries = update m.entries i c },
        rw run,
        record {
          width = r.width;
          placed = λ j h. elim (Bool-cases (i == j)) [
            | inl same ↦ rw (same, ← (==_iff i j).0 same) (u.home, u.once)
            | inr other ↦ rw other (r.placed j h)
          ];
          counted = omega (arith, total-update m.entries c m.capacity i lt, u.size, r.counted);
          reads = λ q. assigned q c u.reads ∙ ap (λ o. if t.eq k q then some v else o) (r.reads q);
        },
        refl,
      )
    where
      assigned :
          (q : K) (c : List (HashMapEntry K V))
          → ((q : K)
              → value_of (find_entry c q) ≡ (
                  if t.eq k q
                  then some v
                  else value_of (find_entry (m.entries (t.hash k m.capacity)) q)))
          → value_of (read (update m.entries (t.hash k m.capacity) c) m.capacity q)
            ≡ (if t.eq k q then some v else value_of (read m.entries m.capacity q))
      assigned q c reads = elim (Bool-cases (t.hash k m.capacity == t.hash q m.capacity)) [
        | inl home ↦
            let e = (==_iff (t.hash k m.capacity) (t.hash q m.capacity)).0 home in
            rw (← e) (rw (==_refl (t.hash k m.capacity)) (reads q))
        | inr away ↦ elim (Bool-cases (t.eq k q)) [
          | inl same ↦
              let e = (t.eq_iff k q).0 same in
              absurd (
                cc (
                  sym (==_refl (t.hash k m.capacity))
                  ∙ ap (λ x. t.hash k m.capacity == t.hash x m.capacity) e
                  ∙ away))
          | inr other ↦ rw (other, away)
        ]
      ]
