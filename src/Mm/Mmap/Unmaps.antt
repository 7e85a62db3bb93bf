-- ===== src/Mm/Mmap/Unmaps.antt =====
-- What `unmap` of kernel/mm/vm/mmap.cpp does to what backs the addresses.
use hobby_os.Prelude.{
  ℕ, ◌≤◌, ◌<◌, Bool, true, false, ◌&&◌, Option, none, some, List, [], ◌∷◌, ◌++◌, ltb, leb,
  if◌then◌else◌, add64, sub64, word, ◌≡◌, refl, sym, ap, ◌∙◌, inl, inr, arith, Bool-cases, ltb→lt,
  leb→le, All,
}
use hobby_os.Mm.Mmap.{MmapRegion, holds, pieces, let_go, unmap_from}
use hobby_os.Mm.Mmap.Regions.{
  page_of, backing, InOrder, backing_here, backing_later, backing_below, InOrder-mono,
}

-- Every region ends in the address space.
abbrev pub Fits : List MmapRegion → Type 0
Fits = All (λ r. r.va_end < word)

-- Whether `unmap` takes an address.
abbrev pub taken : ℕ → ℕ → ℕ → Bool
taken addr stop va = leb addr va && ltb va stop

-- A region cut at its end, and at its start.
abbrev ended : MmapRegion → ℕ → MmapRegion
ended r addr = record r { va_end = addr }

moved_offset :
    (off start stop va : ℕ)
    → start ≤ stop
    → stop ≤ va
    → va < word
    → add64 (add64 off (sub64 stop start)) (sub64 va stop) ≡ add64 off (sub64 va start)
moved_offset off start stop va h g lt = omega arith

not_lt : (a b : ℕ) → ltb a b ≡ false → b ≤ a
not_lt a b h = ground arith

overlap_start : (addr start : ℕ) → addr ≤ start → (if ltb addr start then start else addr) ≡ start
overlap_start addr start h = ground arith

-- The part of a region behind the range backs what the region backed.
moved_page :
    (r : MmapRegion) (stop va from : ℕ)
    → from ≡ r.va_start
    → r.va_start ≤ stop
    → r.va_end < word
    → stop ≤ va
    → va < r.va_end
    → some (record {
      prot = r.prot;
      flags = r.flags;
      fd = r.fd;
      offset = add64 (add64 r.file_offset (sub64 stop from)) (sub64 va stop);
      shared = r.shared;
    })
      ≡ some (page_of r va)
moved_page r stop va from same le fits lo hi =
    ap
      (λ (o : ℕ).
        some (record { prot = r.prot; flags = r.flags; fd = r.fd; offset = o; shared = r.shared }))
      (ap (λ f. add64 (add64 r.file_offset (sub64 stop f)) (sub64 va stop)) same
        ∙ moved_offset r.file_offset r.va_start stop va le lo (omega arith))

-- A range [s, e) cut by a range [a, t), on numbers.
module _ {A : Type 0} (s e a t va : ℕ) (x y : A) where
  cut_left :
      s < a
      → a < e
      → e ≤ t
      → (if leb s va && ltb va a then y else x)
        ≡ (if leb a va && ltb va t then x else if leb s va && ltb va e then y else x)
  cut_left h k g = ground arith

  cut_all :
      a ≤ s
      → e ≤ t
      → x ≡ (if leb a va && ltb va t then x else if leb s va && ltb va e then y else x)
  cut_all h g = ground arith

module _ {A : Type 0} (s e a t va : ℕ) (x y y' : A) where
  cut_right :
      a ≤ s
      → s < t
      → t < e
      → (t ≤ va → va < e → y' ≡ y)
      → (if leb t va && ltb va e then y' else x)
        ≡ (if leb a va && ltb va t then x else if leb s va && ltb va e then y else x)
  cut_right h g f same = ground arith

  cut_both :
      s < a
      → a < t
      → a < e
      → t < e
      → (t ≤ va → va < e → y' ≡ y)
      → (if leb s va && ltb va a then y else if leb t va && ltb va e then y' else x)
        ≡ (if leb a va && ltb va t then x else if leb s va && ltb va e then y else x)
  cut_both h g f k same = ground arith

-- What `pieces` and the rest of the list back at an address, when the region meets the range.
pieces-backing :
    (addr stop : ℕ) (r : MmapRegion) (rest : List MmapRegion) (va : ℕ)
    → addr < stop
    → r.va_start < stop
    → addr < r.va_end
    → r.va_start < r.va_end
    → r.va_end < word
    → backing (pieces addr stop r ++ rest) va
      ≡ (if taken addr stop va then backing rest va else backing (r ∷ rest) va)
unfolding backing
pieces-backing addr stop r rest va some_range meets reaches full fits =
    elim (Bool-cases (ltb r.va_start addr)) [
      | inl left ↦ elim (Bool-cases (ltb stop r.va_end)) [
        | inl right ↦
            rw (left, right)
              (cut_both r.va_start r.va_end addr stop va _ _ _ (ltb→lt _ _ left) some_range reaches
                (ltb→lt _ _ right) (moved_page r stop va r.va_start refl (omega arith) fits))
        | inr no_right ↦
            rw (left, no_right)
              (cut_left r.va_start r.va_end addr stop va _ _ (ltb→lt _ _ left) reaches
                (not_lt _ _ no_right))
      ]
      | inr no_left ↦ elim (Bool-cases (ltb stop r.va_end)) [
        | inl right ↦
            rw (no_left, right)
              (cut_right r.va_start r.va_end addr stop va _ _ _ (not_lt _ _ no_left) meets
                (ltb→lt _ _ right)
                (moved_page r stop va _ (overlap_start addr r.va_start (not_lt _ _ no_left))
                  (omega arith) fits))
        | inr no_right ↦
            rw (no_left, no_right)
              (cut_all r.va_start r.va_end addr stop va _ _ (not_lt _ _ no_left)
                (not_lt _ _ no_right))
      ]
    ]

-- The steps of the loop.
unmap_stops :
    (addr stop : ℕ) (r : MmapRegion) (rs : List MmapRegion) (refs : ℕ → ℕ)
    → ltb r.va_start stop ≡ false
    → (unmap_from addr stop (r ∷ rs) refs).0 ≡ r ∷ rs
unfolding unmap_from
unmap_stops addr stop r rs refs h = rw h

-- The counts that the loop goes on with.
abbrev onward : ℕ → (ℕ → ℕ) → MmapRegion → ℕ → ℕ
onward addr refs r = if leb r.va_end addr then refs else (let_go refs r).0

unmap_skips :
    (addr stop : ℕ) (r : MmapRegion) (rs : List MmapRegion) (refs : ℕ → ℕ)
    → ltb r.va_start stop ≡ true
    → leb r.va_end addr ≡ true
    → (unmap_from addr stop (r ∷ rs) refs).0 ≡ r ∷ (unmap_from addr stop rs (onward addr refs r)).0
unfolding unmap_from
unmap_skips addr stop r rs refs h g = rw (h, g)

unmap_cuts :
    (addr stop : ℕ) (r : MmapRegion) (rs : List MmapRegion) (refs : ℕ → ℕ)
    → ltb r.va_start stop ≡ true
    → leb r.va_end addr ≡ false
    → (unmap_from addr stop (r ∷ rs) refs).0
      ≡ pieces addr stop r ++ (unmap_from addr stop rs (onward addr refs r)).0
unfolding unmap_from
unmap_cuts addr stop r rs refs h g = rw (h, g)

unmap_nothing : (addr stop : ℕ) (refs : ℕ → ℕ) → (unmap_from addr stop [] refs).0 ≡ []
unfolding unmap_from
unmap_nothing addr stop refs = refl

taken_none {ℓ} :
    {A : Type ℓ} (t : Bool) (x : Option A) → (t ≡ true → x ≡ none) → x ≡ (if t then none else x)
taken_none true x h = h refl
taken_none false x h = refl

beyond_it :
    (addr stop va start : ℕ) → taken addr stop va ≡ true → ltb start stop ≡ false → va < start
beyond_it addr stop va start t h = ground arith

not_le : (a b : ℕ) → leb a b ≡ false → b < a
not_le a b h = ground arith

kept :
    (r : MmapRegion) (addr stop va : ℕ)
    → r.va_end ≤ addr
    → holds r va ≡ true
    → taken addr stop va ≡ false
kept r addr stop va le h = ground arith

backing_tail :
    (r : MmapRegion) (rs rest : List MmapRegion) (va : ℕ)
    → backing rest va ≡ backing rs va
    → backing (r ∷ rest) va ≡ backing (r ∷ rs) va
unfolding backing
backing_tail r rs rest va e = rw e

skipped_backing :
    (addr stop : ℕ) (r : MmapRegion) (rs rest : List MmapRegion) (va : ℕ)
    → r.va_end ≤ addr
    → backing rest va ≡ (if taken addr stop va then none else backing rs va)
    → backing (r ∷ rest) va ≡ (if taken addr stop va then none else backing (r ∷ rs) va)
skipped_backing addr stop r rs rest va le e = elim (Bool-cases (holds r va)) [
  | inl inside ↦
      rw (kept r addr stop va le inside)
        (backing_here r rest va inside ∙ sym (backing_here r rs va inside))
  | inr outside ↦
      backing_later r rest va outside
      ∙ e
      ∙ ap (λ x. if taken addr stop va then none else x) (sym (backing_later r rs va outside))
]

cut_backing :
    (t : Bool) (r : MmapRegion) (rs rest : List MmapRegion) (va : ℕ)
    → backing rest va ≡ (if t then none else backing rs va)
    → (if t then backing rest va else backing (r ∷ rest) va)
      ≡ (if t then none else backing (r ∷ rs) va)
cut_backing true r rs rest va e = e
cut_backing false r rs rest va e = backing_tail r rs rest va e

-- `unmap_from` takes away what backs the addresses of its range and nothing else: a page that stays keeps
-- its rights, file and file offset.
pub unmap_from-backing :
    (lo addr stop : ℕ) (rs : List MmapRegion) (refs : ℕ → ℕ)
    → InOrder lo rs
    → Fits rs
    → addr < stop
    → (va : ℕ)
    → backing (unmap_from addr stop rs refs).0 va
      ≡ (if taken addr stop va then none else backing rs va)
unfolding InOrder backing
unmap_from-backing lo addr stop [] refs h fits some_range va =
    ap (λ l. backing l va) (unmap_nothing addr stop refs)
    ∙ taken_none (taken addr stop va) none (λ t. refl)
unmap_from-backing lo addr stop (r ∷ rs) refs h fits some_range va =
    elim (Bool-cases (ltb r.va_start stop)) [
      | inr beyond ↦
          ap (λ l. backing l va) (unmap_stops addr stop r rs refs beyond)
          ∙ taken_none (taken addr stop va) (backing (r ∷ rs) va) (λ t.
            backing_below r.va_start (r ∷ rs) va ((omega arith, h.0.1), h.1)
              (beyond_it addr stop va r.va_start t beyond))
      | inl before ↦ elim (Bool-cases (leb r.va_end addr)) [
        | inl skipped ↦
            ap (λ l. backing l va) (unmap_skips addr stop r rs refs before skipped)
            ∙ skipped_backing addr stop r rs _ va (leb→le r.va_end addr skipped) (
                unmap_from-backing r.va_end addr stop rs (onward addr refs r) h.1 fits.1 some_range
                  va)
        | inr meets ↦
            ap (λ l. backing l va) (unmap_cuts addr stop r rs refs before meets)
            ∙ (pieces-backing addr stop r _ va some_range (ltb→lt r.va_start stop before)
                  (not_le r.va_end addr meets) h.0.1 fits.0
                ∙ cut_backing (taken addr stop va) r rs _ va (
                    unmap_from-backing r.va_end addr stop rs (onward addr refs r) h.1 fits.1
                      some_range va))
      ]
    ]

pieces-InOrder :
    (lo addr stop : ℕ) (r : MmapRegion) (rest : List MmapRegion)
    → lo ≤ r.va_start
    → r.va_start < r.va_end
    → addr < stop
    → r.va_start < stop
    → addr < r.va_end
    → InOrder r.va_end rest
    → InOrder lo (pieces addr stop r ++ rest)
unfolding InOrder
pieces-InOrder lo addr stop r rest le full some_range meets reaches h =
    elim (Bool-cases (ltb r.va_start addr)) [
      | inl left ↦
          let lt = ltb→lt r.va_start addr left in
          elim (Bool-cases (ltb stop r.va_end)) [
            | inl right ↦
                rw (left, right) ((le, lt), ((omega arith, ltb→lt stop r.va_end right), h))
            | inr no_right ↦
                rw (left, no_right) ((le, lt), InOrder-mono r.va_end addr rest (omega arith) h)
          ]
      | inr no_left ↦ elim (Bool-cases (ltb stop r.va_end)) [
        | inl right ↦ rw (no_left, right) ((omega arith, ltb→lt stop r.va_end right), h)
        | inr no_right ↦ rw (no_left, no_right) (InOrder-mono r.va_end lo rest (omega arith) h)
      ]
    ]

-- `unmap_from` keeps the regions in order, none of them empty and no two overlapping.
pub unmap_from-InOrder :
    (lo addr stop : ℕ) (rs : List MmapRegion) (refs : ℕ → ℕ)
    → InOrder lo rs
    → addr < stop
    → InOrder lo (unmap_from addr stop rs refs).0
unfolding InOrder
unmap_from-InOrder lo addr stop [] refs h some_range = rw (unmap_nothing addr stop refs) tt
unmap_from-InOrder lo addr stop (r ∷ rs) refs h some_range =
    elim (Bool-cases (ltb r.va_start stop)) [
      | inr beyond ↦ rw (unmap_stops addr stop r rs refs beyond) h
      | inl before ↦
          let later =
            unmap_from-InOrder r.va_end addr stop rs (onward addr refs r) h.1 some_range in
          elim (Bool-cases (leb r.va_end addr)) [
            | inl skipped ↦ rw (unmap_skips addr stop r rs refs before skipped) (h.0, later)
            | inr meets ↦ rw (unmap_cuts addr stop r rs refs before meets) (
                pieces-InOrder lo addr stop r _ h.0.0 h.0.1 some_range
                  (ltb→lt r.va_start stop before) (not_le r.va_end addr meets) later)
          ]
    ]
