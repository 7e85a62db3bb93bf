-- ===== src/Mm/Ranges.antt =====
-- The loop that `SegmentTable::checkOperation` (kernel/mm/vm/segment.cpp) and `Mmap::checkOperation`
-- (kernel/mm/vm/mmap.cpp) share: jump from the start of an address range to the end of what holds the
-- address, as long as that permits the operation.
use hobby_os.Prelude.{
  ℕ, zero, suc, ◌-◌, ◌≤◌, ◌<◌, ◌≡◌, refl, Bool, true, false, Option, none, some, inl, inr, arith,
  ltb, if◌then◌else◌, Bool-cases, ltb→lt, lt→ltb,
}

abbrev pub after_look : Option (Bool × ℕ) → (ℕ → Option Bool) → Option Bool
after_look none onward = some false
after_look (some (false, next)) onward = some false
after_look (some (true, next)) onward = onward next

-- `look va` is what holds `va`: whether it permits the operation, and where it ends. The outer `none`
-- is fuel run out.
unfoldable pub check_range : (ℕ → Option (Bool × ℕ)) → ℕ → ℕ → ℕ → Option Bool
check_range look zero va stop = none
check_range look (suc fuel) va stop =
    let rest = after_look (look va) (λ next. check_range look fuel next stop) in
    if ltb va stop then rest else some true

data Looked (o : Option (Bool × ℕ)) : Type 0 where
  nothing : o ≡ none → Looked o
  refused : (next : ℕ) → o ≡ some (false, next) → Looked o
  granted : (next : ℕ) → o ≡ some (true, next) → Looked o

Looked-cases : (o : Option (Bool × ℕ)) → Looked o
Looked-cases none = nothing refl
Looked-cases (some (false, next)) = refused next refl
Looked-cases (some (true, next)) = granted next refl

module _ {ℓ} (look : ℕ → Option (Bool × ℕ)) (Fine : ℕ → Type ℓ) where
  -- What holds an address ends behind it, and is fine throughout if it permits.
  pub record Steps : Type ℓ where
    pub onward : (va next : ℕ) (permits : Bool) → look va ≡ some (permits, next) → va < next
    pub fine : (va next : ℕ) → look va ≡ some (true, next) → (w : ℕ) → va ≤ w → w < next → Fine w

  -- Enough fuel for a range is its length and one more.
  pub check_range_total :
      Steps
      → (fuel va stop : ℕ) → stop - va < fuel
      → (b : Bool) × (check_range look fuel va stop ≡ some b)
  unfolding check_range
  check_range_total s zero va stop f = absurd (omega arith)
  check_range_total s (suc fuel) va stop f = elim (Bool-cases (ltb va stop)) [
    | inr done ↦ (true, rw (done, check_range))
    | inl more ↦ elim (Looked-cases (look va)) [
      | nothing e ↦ (false, rw (more, e, check_range))
      | refused next e ↦ (false, rw (more, e, check_range))
      | granted next e ↦
          let on : va < next = s.onward va next true e in
          let lt : va < stop = ltb→lt va stop more in
          let (b, r) = check_range_total s fuel next stop (omega arith) in
          (b, rw (more, e, check_range) r)
    ]
  ]

  pub check_range_sound :
      Steps
      → (fuel va stop : ℕ) → check_range look fuel va stop ≡ some true
      → (w : ℕ) → va ≤ w
      → w < stop
      → Fine w
  unfolding check_range
  check_range_sound s zero va stop e w lo hi = absurd cc
  check_range_sound s (suc fuel) va stop e w lo hi =
      let lt : va < stop = omega arith in
      let more : ltb va stop ≡ true = lt→ltb va stop lt in
      elim (Looked-cases (look va)) [
        | nothing l ↦ absurd (ground arith)
        | refused next l ↦ absurd (ground arith)
        | granted next l ↦
            let rest : check_range look fuel next stop ≡ some true =
              rw (more, l, check_range) at e in
            elim (Bool-cases (ltb w next)) [
              | inl here ↦ s.fine va next l w lo (ltb→lt w next here)
              | inr there ↦ check_range_sound s fuel next stop rest w (ground arith) hi
            ]
      ]

  pub check_range_complete :
      Steps
      → (fuel va stop : ℕ) → stop - va < fuel
      → ((w : ℕ) → va ≤ w → w < stop → (next : ℕ) × (look w ≡ some (true, next)))
      → check_range look fuel va stop ≡ some true
  unfolding check_range
  check_range_complete s zero va stop f h = absurd (omega arith)
  check_range_complete s (suc fuel) va stop f h = elim (Bool-cases (ltb va stop)) [
    | inl more ↦
        let lt : va < stop = ltb→lt va stop more in
        let (next, l) = h va (omega arith) lt in
        let on : va < next = s.onward va next true l in
        rw (more, l, check_range)
          (check_range_complete s fuel next stop (omega arith) (λ w lo hi. h w (omega arith) hi))
    | inr done ↦ rw (done, check_range)
  ]
