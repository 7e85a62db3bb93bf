-- ===== src/Fs/FdTable/Slots.antt =====
-- What the operations of kernel/fs/fd_table.cpp do to the slots.
use hobby_os.Prelude.{
  get_or-set_self, get_or-set_ne, set_back, ℕ, zero, suc, ◌+◌, ◌-◌, ◌<◌, ◌≤◌, Option, none, some,
  List, [], ◌∷◌, ℤ, pos, negsuc, ltb, get_or, set, ◌≡◌, refl, sym, ap, ◌∙◌, ◌≢◌, ◌⊎◌, inl, inr,
  length, arith, Bool-cases, Option-cases, ap₂, lt→ltb,
}
use hobby_os.Fs.File.{File}
use hobby_os.Fs.File as File
use hobby_os.Fs.FdTable.{FdTable, max_fds, alloc, find_free, get, close, alloc_at}

-- The table has all its slots.
unfoldable pub IsWhole : FdTable → Type 0
IsWhole t = length t.fds ≡ max_fds

unfoldable pub Taken : List (Option File) → ℕ → Type 0
Taken fds i = (f : File) × (get_or fds i none ≡ some f)

-- What a search from i over n slots finds: that all are taken, or the first that is free.
Search : List (Option File) → ℕ → ℕ → Option ℕ → Type 0
Search fds i n none = (j : ℕ) → i ≤ j → j < i + n → Taken fds j
Search fds i n (some k) =
    ((i ≤ k) × (k < i + n)) × ((get_or fds k none ≡ none) × ((j : ℕ) → i ≤ j → j < k → Taken fds j))

compare-lt : (i j : ℕ) → i ≤ j → (i ≡ j) ⊎ (suc i ≤ j)
compare-lt i j h = ground arith

bound : (least k : ℕ) → least ≤ k → k < least + (max_fds - least) → k < max_fds
bound least k h g = omega arith

negsuc-pos : {a b : ℕ} → negsuc a ≢ pos b
negsuc-pos e = omega (arith, ap (λ i. elim i as (λ _. ℕ) [ pos n ↦ 0 | negsuc n ↦ 1 ]) e)

pos_injective : {a b : ℕ} → pos a ≡ pos b → a ≡ b
pos_injective = ap (λ i. elim i [ pos n ↦ n | negsuc n ↦ 0 ])

find_free-step :
    (fds : List (Option File)) (i n : ℕ) (x : Option File) (r : Option ℕ)
    → get_or fds i none ≡ x
    → Search fds (suc i) n r
    → Search fds i (suc n) (elim x [ none ↦ some i | some f ↦ r ])
unfolding Search Taken
find_free-step fds i n none r e h =
    ((omega arith, omega arith), (e, λ j lo hi. absurd (omega arith)))
find_free-step fds i n (some f) none e h = λ j lo hi. elim (compare-lt i j lo) [
  | inl same ↦ (f, ap (λ z. get_or fds z none) (sym same) ∙ e)
  | inr above ↦ h j above (omega arith)
]
find_free-step fds i n (some f) (some k) e h =
    let a = h.0.0 in
    let b = h.0.1 in
    (
      (omega arith, omega arith),
      (
        h.1.0,
        λ j lo hi. elim (compare-lt i j lo) [
          | inl same ↦ (f, ap (λ z. get_or fds z none) (sym same) ∙ e)
          | inr above ↦ h.1.1 j above hi
        ],
      ),
    )

find_free-Search : (fds : List (Option File)) (i n : ℕ) → Search fds i n (find_free fds i n)
unfolding Search
find_free-Search fds i zero = λ j lo hi. absurd (omega arith)
find_free-Search fds i (suc n) =
    find_free-step fds i n (get_or fds i none) (find_free fds (suc i) n) refl
      (find_free-Search fds (suc i) n)

-- What `alloc` promises: -1, when every slot from `least` on is taken, or the lowest free one of them,
-- which now holds the file, the other slots being as before.
unfoldable pub Allocates : FdTable → File → ℕ → ℤ × FdTable → Type 0
Allocates t file least r =
    ((r ≡ (negsuc 0, t)) × ((j : ℕ) → least ≤ j → j < max_fds → Taken t.fds j))
    ⊎ ((k : ℕ) × (((r.0 ≡ pos k) × ((least ≤ k) × (k < max_fds)))
          × (((get t (pos k) ≡ none) × ((j : ℕ) → least ≤ j → j < k → Taken t.fds j))
              × ((get r.1 (pos k) ≡ some file)
                  × ((j : ℕ) → k ≢ j → get r.1 (pos j) ≡ get t (pos j))))))

-- The lookup of a descriptor that is in range.
get-pos : (t : FdTable) (n : ℕ) → n < max_fds → get t (pos n) ≡ get_or t.fds n none
unfolding get
get-pos t n h = rw (lt→ltb n max_fds h, get)

get-write :
    (t : FdTable) (k j : ℕ) (v : Option File)
    → k ≢ j
    → get (record t { fds = set t.fds k v }) (pos j) ≡ get t (pos j)
unfolding get
get-write t k j v ne = elim (Bool-cases (ltb j max_fds)) [
  | inl below ↦ rw (below, get_or-set_ne t.fds k j v none ne, get)
  | inr above ↦ rw (above, get)
]

get-write_self :
    (t : FdTable) (k : ℕ) (v : Option File)
    → IsWhole t
    → k < max_fds
    → get (record t { fds = set t.fds k v }) (pos k) ≡ v
unfolding IsWhole
get-write_self t k v whole h =
    get-pos (record t { fds = set t.fds k v }) k h
    ∙ get_or-set_self t.fds k v none (omega (arith, whole, h))

alloc_found :
    (t : FdTable) (f : File) (least k : ℕ)
    → find_free t.fds least (max_fds - least) ≡ some k
    → alloc t f least ≡ (pos k, record t { fds = set t.fds k (some f) })
unfolding alloc
alloc_found t f least k e = rw (e, alloc)

alloc_full :
    (t : FdTable) (f : File) (least : ℕ)
    → find_free t.fds least (max_fds - least) ≡ none
    → alloc t f least ≡ (negsuc 0, t)
unfolding alloc
alloc_full t f least e = rw (e, alloc)

close_taken :
    (t : FdTable) (n : ℕ) (f : File)
    → n < max_fds
    → get_or t.fds n none ≡ some f
    → close t (pos n) ≡ ((pos 0, record t { fds = set t.fds n none }), File.close f ∷ [])
unfolding close
close_taken t n f h e = rw (lt→ltb n max_fds h, e, close)

close-alloc_step :
    (t : FdTable) (f : File) (least : ℕ)
    → IsWhole t
    → (x : Option ℕ) → find_free t.fds least (max_fds - least) ≡ x
    → Search t.fds least (max_fds - least) x
    → (k : ℕ) → (alloc t f least).0 ≡ pos k
    → close (alloc t f least).1 (pos k) ≡ ((pos 0, t), File.close f ∷ [])
unfolding Search IsWhole
close-alloc_step t f least whole none e h k answer =
    absurd (negsuc-pos (sym (ap (λ r. r.0) (alloc_full t f least e)) ∙ answer))
close-alloc_step t f least whole (some i) e h k answer =
    let inside : i < max_fds = bound least i h.0.0 h.0.1 in
    let same : i ≡ k = pos_injective (sym (ap (λ r. r.0) (alloc_found t f least i e)) ∙ answer) in
    ap₂ (λ r n. close r (pos n)) (ap (λ r. r.1) (alloc_found t f least i e)) (sym same)
    ∙ close_taken (record t { fds = set t.fds i (some f) }) i f inside
        (get_or-set_self t.fds i (some f) none (omega (arith, whole, inside)))
    ∙ ap (λ (fds : List (Option File)). ((pos 0, record t { fds = fds }), File.close f ∷ []))
        (set_back t.fds i (some f) none h.1.0)

-- On a whole table, closing the descriptor that `alloc` answered closes the file that it was given,
-- and restores the table.
close-alloc :
    (t : FdTable) (f : File) (least k : ℕ)
    → IsWhole t
    → (alloc t f least).0 ≡ pos k
    → close (alloc t f least).1 (pos k) ≡ ((pos 0, t), File.close f ∷ [])
close-alloc t f least k whole =
    close-alloc_step t f least whole (find_free t.fds least (max_fds - least)) refl
      (find_free-Search t.fds least (max_fds - least)) k

alloc_at_inside :
    (t : FdTable) (n : ℕ) (f : File)
    → n < max_fds
    → alloc_at t (pos n) (some f)
      ≡ ((pos n, record t { fds = set t.fds n (some f) }), (close t (pos n)).1)
unfolding alloc_at close
alloc_at_inside t n f h = elim (Option-cases (get_or t.fds n none)) [
  | inl free ↦ rw (lt→ltb n max_fds h, free, alloc_at, close)
  | inr (old, taken) ↦ rw (lt→ltb n max_fds h, taken, alloc_at, close)
]

-- On a whole table and a descriptor in range, `alloc_at` answers the descriptor, which now holds the file;
-- it closes what `close` would close there, and no other slot changes.
pub alloc_at-get :
    (t : FdTable) (n : ℕ) (f : File)
    → IsWhole t
    → n < max_fds
    → (((alloc_at t (pos n) (some f)).0.0 ≡ pos n)
        × (get (alloc_at t (pos n) (some f)).0.1 (pos n) ≡ some f))
      × (((alloc_at t (pos n) (some f)).1 ≡ (close t (pos n)).1)
          × ((j : ℕ) → n ≢ j → get (alloc_at t (pos n) (some f)).0.1 (pos j) ≡ get t (pos j)))
alloc_at-get t n f whole h =
    let same = alloc_at_inside t n f h in
    (
      (
        ap (λ r. r.0.0) same,
        ap (λ r. get r.0.1 (pos n)) same ∙ get-write_self t n (some f) whole h,
      ),
      (ap (λ r. r.1) same, λ j ne. ap (λ r. get r.0.1 (pos j)) same ∙ get-write t n j (some f) ne),
    )
