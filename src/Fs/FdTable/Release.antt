-- ===== src/Fs/FdTable/Release.antt =====
-- What `release` of kernel/fs/fd_table.cpp closes.
use hobby_os.Prelude.{
  if◌then◌else◌, ◌==◌, Bool-cases, ==_iff, inl, inr, ◌-◌, ◌<◌, false, Option, none, some, List, [],
  ◌∷◌, ◌==◌, replicate, ◌≡◌, refl, ap, ◌≢◌, length, arith, map, half_word, sub32,
}
use hobby_os.Fs.File.{File}
use hobby_os.Fs.File as File
use hobby_os.Fs.FdTable.{FdTable, release, close_slots, close_all}

-- Every file of the slots, in the order of their descriptors.
unfoldable opened : List (Option File) → List File
opened [] = []
opened (none ∷ fds) = opened fds
opened (some f ∷ fds) = f ∷ opened fds

close_slots-opened :
    (fds : List (Option File))
    → close_slots fds ≡ (replicate (length fds) none, map File.close (opened fds))
unfolding opened
close_slots-opened [] = refl
close_slots-opened (none ∷ fds) = rw (close_slots-opened fds)
close_slots-opened (some f ∷ fds) = rw (close_slots-opened fds)

release_earlier :
    (t : FdTable)
    → 0 < t.ref_count
    → t.ref_count < half_word
    → t.ref_count ≢ 1
    → release t ≡ (some (record t { ref_count = t.ref_count - 1 }), [])
unfolding release
release_earlier t h g more =
    let e : sub32 t.ref_count 1 ≡ t.ref_count - 1 = omega arith in
    let some_left : ((t.ref_count - 1) == 0) ≡ false = ground arith in rw (e, some_left, release)

release_last : (t : FdTable) → t.ref_count ≡ 1 → release t ≡ (none, map File.close (opened t.fds))
unfolding release close_all
release_last t one =
    rw (one, release)
      (ap (λ (r : List (Option File) × List File). (none, r.1)) (close_slots-opened t.fds))

-- With a count of owners that is positive and did not wrap: the last owner's `release` closes every open
-- file, in the order of the descriptors, and deletes the table; an earlier one closes none and leaves one
-- owner less.
release-opened :
    (t : FdTable)
    → 0 < t.ref_count
    → t.ref_count < half_word
    → release t ≡ (
        if t.ref_count == 1
        then (none, map File.close (opened t.fds))
        else (some (record t { ref_count = t.ref_count - 1 }), []))
release-opened t h g = elim (Bool-cases (t.ref_count == 1)) [
  | inl last ↦ rw last (release_last t ((==_iff t.ref_count 1).0 last))
  | inr more ↦ rw more (release_earlier t h g (λ e. ground arith))
]
