-- ===== src/Data/HashMap/Rehash.antt =====
-- The rehash of kernel/lib/hash_map.h: every entry moves to its bucket in a table of another size.
use hobby_os.Prelude.{
  ℕ, zero, suc, ◌+◌, ◌≤◌, ◌<◌, ◌≡◌, refl, sym, ap, ◌∙◌, Option, none, some, List, [], ◌∷◌, ltb,
  if◌then◌else◌, length, arith, Bool-cases, inl, inr, ◌==◌, ==_iff, ◌⊎◌, Bool, true, false, ◌≢◌,
  lt→ltb,
}
use hobby_os.Data.HashMap.{
  HashTrait, HashMapEntry, Buckets, no_entries, find_entry, read, push, move_chain, move_all,
}
use hobby_os.Data.HashMap.Chains.{
  total, IsPlaced, NoRepeat, find_entry-elsewhere, read-push, push-IsPlaced, total-push, eq_refl,
}

-- A table with `n` entries, each in its bucket, that reads as `f`.
pub record Reads {ℓ} {K V : Type ℓ} ⦃t : HashTrait K⦄ (width n : ℕ)
    (f : K → Option (HashMapEntry K V)) (c : Buckets K V) : Type ℓ where
  pub placed : IsPlaced width c
  pub reads : (q : K) → read c width q ≡ f q
  pub entries : total c width ≡ n

if_same {ℓ} : {A : Type ℓ} (b : Bool) (x : A) → (if b then x else x) ≡ x
if_same true x = refl
if_same false x = refl

module _ {ℓ} {A : Type ℓ} where
  abbrev first_of : Option A → Option A → Option A
  first_of none o = o
  first_of (some e) o = some e

  -- The value at index `i` is that of the last index below `i + 1`.
  first_of-last :
      (f : ℕ → Option A) (i n : ℕ)
      → i ≡ n
      → first_of (f n) (if ltb i n then f i else none) ≡ (if ltb i (suc n) then f i else none)
  first_of-last f i n e = rw e (same_index (f n))
    where
      same_index :
          (o : Option A)
          → first_of o (if ltb n n then o else none) ≡ (if ltb n (suc n) then o else none)
      same_index none = if_same (ltb n n) none ∙ sym (if_same (ltb n (suc n)) none)
      same_index (some x) = rw (lt→ltb n (suc n) (omega arith))

ltb-suc : (i n : ℕ) → i ≢ n → ltb i n ≡ ltb i (suc n)
ltb-suc i n ne = ground arith

pub total-no_entries {ℓ} : (K V : Type ℓ) (n : ℕ) → total {K = K} {V = V} no_entries n ≡ 0
unfolding total
total-no_entries K V zero = refl
total-no_entries K V (suc n) = omega (arith, total-no_entries K V n)

module _ {ℓ} {K V : Type ℓ} ⦃t : HashTrait K⦄ where
  -- No key stands both on the chain and in the table.
  abbrev Apart : ℕ → List (HashMapEntry K V) → Buckets K V → Type ℓ
  Apart width es b = (q : K) → (find_entry es q ≡ none) ⊎ (read b width q ≡ none)

  find_entry-head :
      (e : HashMapEntry K V) (es : List (HashMapEntry K V)) → find_entry (e ∷ es) e.key ≡ some e
  unfolding find_entry
  find_entry-head e es = rw (eq_refl e.key)

  -- The key of the head is not in the table, since the chain has it.
  Apart-head :
      (width : ℕ) (e : HashMapEntry K V) (es : List (HashMapEntry K V)) (b : Buckets K V)
      → Apart width (e ∷ es) b
      → read b width e.key ≡ none
  Apart-head width e es b apart = elim (apart e.key) [
    | inl h ↦ absurd (cc (find_entry-head e es))
    | inr h ↦ h
  ]

  Apart-tail :
      (width : ℕ) (e : HashMapEntry K V) (es : List (HashMapEntry K V)) (b : Buckets K V)
      → Apart width (e ∷ es) b
      → find_entry es e.key ≡ none
      → Apart width es (push width b e)
  unfolding find_entry
  Apart-tail width e es b apart once q = elim (Bool-cases (t.eq e.key q)) [
    | inl same ↦ inl (rw (← (t.eq_iff e.key q).0 same) once)
    | inr other ↦ elim (apart q) [
      | inl h ↦ inl (rw other at h)
      | inr h ↦ inr (read-push width b e q ∙ rw other h)
    ]
  ]

  first_of-push :
      (width : ℕ) (b : Buckets K V) (e : HashMapEntry K V) (es : List (HashMapEntry K V)) (q : K)
      → find_entry es e.key ≡ none
      → first_of (find_entry es q) (read (push width b e) width q)
        ≡ first_of (find_entry (e ∷ es) q) (read b width q)
  unfolding find_entry
  first_of-push width b e es q once = elim (Bool-cases (t.eq e.key q)) [
    | inl same ↦
        let missing = ap (find_entry es) (sym ((t.eq_iff e.key q).0 same)) ∙ once in
        rw (read-push width b e q, missing, same)
    | inr other ↦ rw (read-push width b e q, other)
  ]

  move_chain-Reads :
      (width : ℕ) (es : List (HashMapEntry K V)) (b : Buckets K V)
      → 0 < width
      → IsPlaced width b
      → NoRepeat es
      → Apart width es b
      → Reads width
          (total b width + length es)
          (λ q. first_of (find_entry es q) (read b width q))
          (move_chain width es b)
  unfolding move_chain find_entry
  move_chain-Reads width [] b pos placed once apart = record {
    placed = placed;
    reads = λ q. refl;
    entries = omega arith;
  }
  move_chain-Reads width (e ∷ es) b pos placed once apart =
      let fresh = Apart-head width e es b apart in
      let rest =
        move_chain-Reads width es (push width b e) pos (push-IsPlaced width b e placed fresh) once.1
          (Apart-tail width e es b apart once.0) in
      record {
        placed = rest.placed;
        reads = λ q. rest.reads q ∙ first_of-push width b e es q once.0;
        entries = omega (arith, rest.entries, total-push width b e pos);
      }

  -- The first `n` buckets of a table of `width` buckets, as a function of the key.
  abbrev below : ℕ → ℕ → Buckets K V → K → Option (HashMapEntry K V)
  below width n b q = if ltb (t.hash q width) n then read b width q else none

  -- What bucket `n` holds and what the buckets before it hold are the buckets up to `n`.
  first_of-below :
      (width n : ℕ) (b : Buckets K V) (q : K)
      → IsPlaced width b
      → n < width
      → first_of (find_entry (b n) q) (below width n b q) ≡ below width (suc n) b q
  first_of-below width n b q placed h = elim (Bool-cases (t.hash q width == n)) [
    | inl same ↦ first_of-last (λ i. find_entry (b i) q) (t.hash q width) n ((==_iff _ n).0 same)
    | inr other ↦
        let ne : t.hash q width ≢ n = λ e. absurd (cc ((==_iff (t.hash q width) n).1 e)) in
        rw (find_entry-elsewhere width n (b n) q (placed n h).0 ne)
          (ap (λ c. if c then read b width q else none) (ltb-suc (t.hash q width) n ne))
  ]

  below-Apart :
      (width wide n : ℕ) (b c : Buckets K V)
      → IsPlaced width b
      → n < width
      → ((q : K) → read c wide q ≡ below width n b q)
      → Apart wide (b n) c
  below-Apart width wide n b c placed h reads q = elim (Bool-cases (t.hash q width == n)) [
    | inl same ↦ inr (reads q ∙ rw (not_below (t.hash q width) n ((==_iff _ n).0 same)))
    | inr other ↦ inl (
        find_entry-elsewhere width n (b n) q (placed n h).0
          (λ e. absurd (cc ((==_iff (t.hash q width) n).1 e))))
  ]
    where
      not_below : (i n : ℕ) → i ≡ n → ltb i n ≡ false
      not_below i n e = ground arith

  pub move_all-Reads :
      (width wide : ℕ) (b : Buckets K V) (n : ℕ)
      → 0 < wide
      → IsPlaced width b
      → n ≤ width
      → Reads wide (total b n) (below width n b) (move_all wide b n)
  unfolding move_all total find_entry
  move_all-Reads width wide b zero pos placed h = record {
    placed = λ i lt. (tt, tt);
    reads = λ q. sym (rw (none_below (t.hash q width)));
    entries = total-no_entries K V wide;
  }
    where
      none_below : (i : ℕ) → ltb i 0 ≡ false
      none_below i = ground arith
  move_all-Reads width wide b (suc n) pos placed h =
      let start = move_all-Reads width wide b n pos placed (omega arith) in
      let moved =
        move_chain-Reads wide (b n) (move_all wide b n) pos start.placed (placed n h).1
          (below-Apart width wide n b (move_all wide b n) placed h start.reads) in
      record {
        placed = moved.placed;
        reads = λ q.
            moved.reads q
            ∙ ap (first_of (find_entry (b n) q)) (start.reads q)
            ∙ first_of-below width n b q placed h;
        entries = omega (arith, moved.entries, start.entries);
      }
