-- ===== src/Fs/PathUtils/Bounds.antt =====
-- How long the paths of kernel/fs/path_utils.h get.
use hobby_os.Prelude.{
  ℕ, suc, ◌+◌, ◌≤◌, Bool, true, false, Option, none, some, List, [], ◌∷◌, length, take, ltb, leb,
  if◌then◌else◌, ◌≡◌, refl, ap, ◌∙◌, inl, inr, arith, Bool-cases, length-append, if_both,
}
use hobby_os.Fs.PathUtils.{
  measure, kstrdup, slash, is_empty, is_absolute, needs_slash, joined, path_combine,
}

measure_lem :
    (max_len : ℕ) (src : List ℕ) (len : ℕ)
    → len ≤ max_len
    → measure max_len src len
      ≡ (if leb (len + length src) max_len then some (len + length src) else none)
measure_lem max_len [] len h = ground arith
measure_lem max_len (c ∷ cs) len h = elim (Bool-cases (ltb max_len (len + 1))) [
  | inl long ↦ ground arith
  | inr fits ↦
      let more = measure_lem max_len cs (len + 1) (ground arith) in
      let same : len + 1 + length cs ≡ len + suc (length cs) = omega arith in
      rw (fits, more, same) refl
]

take-length : (xs : List ℕ) → take (length xs) xs ≡ xs
take-length [] = refl
take-length (x ∷ xs) = ap (λ ys. x ∷ ys) (take-length xs)

measured_from :
    (max_len : ℕ) (src : List ℕ) (n : ℕ)
    → n ≡ length src
    → measure max_len src 0 ≡ (if leb n max_len then some n else none)
    → measure max_len src 0 ≡ (if leb (length src) max_len then some (length src) else none)
measured_from max_len src n same e = e ∙ ap (λ k. if leb k max_len then some k else none) same

measured :
    (max_len : ℕ) (src : List ℕ)
    → measure max_len src 0 ≡ (if leb (length src) max_len then some (length src) else none)
measured max_len src =
    measured_from max_len src (0 + length src) (omega arith)
      (measure_lem max_len src 0 (omega arith))

-- With memory, `kstrdup` copies a string that is not longer than `max_len`, and answers null for a longer
-- one.
pub kstrdup_lem :
    (max_len : ℕ) (src : List ℕ)
    → kstrdup true max_len (some src) ≡ (if leb (length src) max_len then some src else none)
unfolding kstrdup
kstrdup_lem max_len src = elim (Bool-cases (leb (length src) max_len)) [
  | inl fits ↦ rw (kstrdup, measured max_len src, fits) (ap some (take-length src))
  | inr long ↦ rw (kstrdup, measured max_len src, long) refl
]

-- What an answer is not longer than.
pub Within : ℕ → Option (List ℕ) → Type 0
Within max_len none = Unit
Within max_len (some s) = length s ≤ max_len

copy-Within :
    (room fits : Bool) (max_len : ℕ) (src : List ℕ)
    → (fits ≡ true → length src ≤ max_len)
    → Within max_len (elim (if fits then some (length src) else none) [
      | none ↦ none
      | some len ↦ if room then some (take len src) else none
    ])
unfolding Within
copy-Within true true max_len src h = rw (take-length src) (h refl)
copy-Within false true max_len src h = tt
copy-Within room false max_len src h = tt

kstrdup-Within :
    (room : Bool) (max_len : ℕ) (src : Option (List ℕ)) → Within max_len (kstrdup room max_len src)
unfolding Within kstrdup
kstrdup-Within room max_len none = tt
kstrdup-Within room max_len (some src) =
    rw (kstrdup, measured max_len src)
      (copy-Within room (leb (length src) max_len) max_len src (λ e. ground arith))

length-joined :
    (base relative : List ℕ)
    → length (joined base relative)
      ≡ length base + (if needs_slash base then 1 else 0) + length relative
length-joined base relative = elim (Bool-cases (needs_slash base)) [
  | inl needed ↦ rw needed (omega (arith, length-append base (slash ∷ relative)))
  | inr there ↦ rw there (omega (arith, length-append base relative))
]

join-Within :
    (room : Bool) (max_len total : ℕ) (s : List ℕ)
    → length s ≡ total
    → Within max_len (if ltb max_len total then none else if room then some s else none)
unfolding Within
join-Within true max_len total s e = elim (Bool-cases (ltb max_len total)) [
  | inl long ↦ rw long tt
  | inr fits ↦ rw fits (ground arith)
]
join-Within false max_len total s e = if_both (Within max_len) (ltb max_len total) tt tt

-- A path that `path_combine` answers is not longer than `max_len`, whatever it is given.
pub path_combine-Within :
    (room : Bool) (max_len : ℕ) (base relative : Option (List ℕ))
    → Within max_len (path_combine room max_len base relative)
unfolding path_combine
path_combine-Within room max_len none relative = kstrdup-Within room max_len relative
path_combine-Within room max_len (some base) none = kstrdup-Within room max_len (some base)
path_combine-Within room max_len (some base) (some relative) =
    if_both (Within max_len) (is_empty base) (kstrdup-Within room max_len (some relative)) (
      if_both (Within max_len) (is_empty relative) (kstrdup-Within room max_len (some base)) (
        if_both (Within max_len) (is_absolute relative)
          (kstrdup-Within room max_len (some relative))
          (join-Within room max_len _ (joined base relative) (length-joined base relative))))
