-- ===== src/Fs/PathUtils.antt =====
-- kernel/fs/path_utils.h: copies and joins of path names. A string is the list of its bytes without the
-- 0 at its end, and a null pointer is `none`; `room` says whether kmalloc had memory.
pub mod Bounds
use hobby_os.Prelude.{
  ℕ, ◌+◌, Bool, true, false, not, Option, none, some, List, [], ◌∷◌, ◌++◌, length, take, ltb, ◌==◌,
  if◌then◌else◌,
}

-- The loop that measures a string, from a length on: none once it is longer than `max_len`.
abbrev pub measure : ℕ → List ℕ → ℕ → Option ℕ
measure max_len [] len = some len
measure max_len (c ∷ cs) len =
    let rest = measure max_len cs (len + 1) in if ltb max_len (len + 1) then none else rest

unfoldable pub kstrdup : Bool → ℕ → Option (List ℕ) → Option (List ℕ)
kstrdup room max_len none = none
kstrdup room max_len (some src) = elim (measure max_len src 0) [
  | none ↦ none
  | some len ↦ if room then some (take len src) else none
]

-- '/' is 47.
abbrev pub slash : ℕ
slash = 47

abbrev pub is_empty : List ℕ → Bool
is_empty [] = true
is_empty (c ∷ cs) = false

abbrev pub is_absolute : List ℕ → Bool
is_absolute [] = false
is_absolute (c ∷ cs) = c == slash

-- Whether the last byte is not a slash.
abbrev pub needs_slash : List ℕ → Bool
needs_slash [] = true
needs_slash (c ∷ []) = not (c == slash)
needs_slash (c ∷ d ∷ cs) = needs_slash (d ∷ cs)

-- The two strings with a slash between them, when both are there.
abbrev pub joined : List ℕ → List ℕ → List ℕ
joined base relative = base ++ (if needs_slash base then slash ∷ relative else relative)

abbrev pub combine : Bool → ℕ → List ℕ → List ℕ → Option (List ℕ)
combine room max_len base relative =
    if is_empty base
    then kstrdup room max_len (some relative)
    else if is_empty relative
    then kstrdup room max_len (some base)
    else if is_absolute relative
    then kstrdup room max_len (some relative)
    else if ltb max_len (length base + (if needs_slash base then 1 else 0) + length relative)
    then none
    else if room
    then some (joined base relative)
    else none

unfoldable pub path_combine : Bool → ℕ → Option (List ℕ) → Option (List ℕ) → Option (List ℕ)
path_combine room max_len none relative = kstrdup room max_len relative
path_combine room max_len (some base) none = kstrdup room max_len (some base)
path_combine room max_len (some base) (some relative) = combine room max_len base relative
