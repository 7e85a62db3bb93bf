-- ===== src/Fs/FdTable.antt =====
-- kernel/fs/fd_table.cpp and fd_table.h: the sixteen file descriptors of a process. A slot owns its
-- File, so it holds the file itself; an operation returns the files that it closed and deleted. A
-- descriptor is an `int`, and the lock is held from the first to the last line of each operation.
pub mod Slots
pub mod Release
use hobby_os.Prelude.{
  ℕ, zero, suc, ◌-◌, ◌%◌, Bool, ◌&&◌, true, false, Option, none, some, List, [], ◌∷◌, ◌++◌, ℤ, pos,
  negsuc, ltb, ◌==◌, if◌then◌else◌, get_or, set, replicate, add32, sub32,
}
use hobby_os.Fs.File.{File}
use hobby_os.Fs.File as File

abbrev pub max_fds : ℕ
max_fds = 16

pub record FdTable : Type 0 where
  pub fds : List (Option File)
  pub ref_count : ℕ

-- The constructor: no descriptor is open and there is one owner.
abbrev pub empty : FdTable
empty = record { fds = replicate max_fds none; ref_count = 1 }

-- A copied slot is a new file at the offset of the old one.
abbrev clone_slots : List (Option File) → List (Option File)
clone_slots [] = []
clone_slots (none ∷ fds) = none ∷ clone_slots fds
clone_slots (some f ∷ fds) = some (File.copy f true) ∷ clone_slots fds

unfoldable pub clone : FdTable → FdTable
clone t = record empty { fds = clone_slots t.fds }

unfoldable pub acquire : FdTable → FdTable
acquire t = record t { ref_count = add32 t.ref_count 1 }

-- The loop of `alloc` from slot i on, with n slots to go.
abbrev pub find_free : List (Option File) → ℕ → ℕ → Option ℕ
find_free fds i zero = none
find_free fds i (suc n) =
    let rest = find_free fds (suc i) n in elim (get_or fds i none) [ none ↦ some i | some f ↦ rest ]

unfoldable pub alloc : FdTable → File → ℕ → ℤ × FdTable
alloc t file least = elim (find_free t.fds least (max_fds - least)) [
  | none ↦ (negsuc 0, t)
  | some i ↦ (pos i, record t { fds = set t.fds i (some file) })
]

-- The slot of a descriptor that is in range.
abbrev pub slot : ℤ → Option ℕ
slot (pos n) = if ltb n max_fds then some n else none
slot (negsuc n) = none

unfoldable pub get : FdTable → ℤ → Option File
get t fd = elim (slot fd) [ none ↦ none | some i ↦ get_or t.fds i none ]

unfoldable pub close : FdTable → ℤ → (ℤ × FdTable) × List File
close t fd = elim (slot fd) [
  | none ↦ ((negsuc 0, t), [])
  | some i ↦ elim (get_or t.fds i none) [
    | none ↦ ((negsuc 0, t), [])
    | some f ↦ ((pos 0, record t { fds = set t.fds i none }), File.close f ∷ [])
  ]
]

-- The loop of `closeAll` on the slots that it has to go.
abbrev pub close_slots : List (Option File) → List (Option File) × List File
close_slots [] = ([], [])
close_slots (none ∷ fds) = let rest = close_slots fds in (none ∷ rest.0, rest.1)
close_slots (some f ∷ fds) = let rest = close_slots fds in (none ∷ rest.0, File.close f ∷ rest.1)

unfoldable pub close_all : FdTable → FdTable × List File
close_all t = (record t { fds = (close_slots t.fds).0 }, (close_slots t.fds).1)

-- What is left of the table after `release`: nothing, once the last owner let go.
unfoldable pub release : FdTable → Option FdTable × List File
unfolding close_all
release t =
    let remaining = sub32 t.ref_count 1 in
    if remaining == 0
    then (none, (close_all (record t { ref_count = remaining })).1)
    else (some (record t { ref_count = remaining }), [])

unfoldable pub alloc_at : FdTable → ℤ → Option File → (ℤ × FdTable) × List File
alloc_at t fd none = ((negsuc 0, t), [])
alloc_at t fd (some f) = elim (slot fd) [
  | none ↦ ((negsuc 0, t), [])
  | some i ↦ (
    (fd, record t { fds = set t.fds i (some f) }),
    elim (get_or t.fds i none) [ none ↦ [] | some old ↦ File.close old ∷ [] ],
  )
]
