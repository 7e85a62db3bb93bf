-- ===== src/Mm/Mmap/Regions.antt =====
-- Regions in order, what backs an address, and what `find`, `isFree` and `insertRegion` of
-- kernel/mm/vm/mmap.cpp do to it.
use hobby_os.Prelude.{
  ℕ, ◌+◌, ◌≤◌, ◌<◌, Bool, true, false, Option, none, some, List, [], ◌∷◌, ℤ, ltb, leb,
  if◌then◌else◌, add64, sub64, word, ◌≡◌, refl, sym, ◌∙◌, ◌≢◌, inl, inr, ◌↔◌, arith, Bool-cases,
  ltb→lt, leb→le,
}
use hobby_os.Mm.Mmap.{MmapRegion, holds, free_until, is_free, insert_region}

-- What a page of a region is: its rights, and the file and offset that fill it.
pub record Page : Type 0 where
  pub prot : ℕ
  pub flags : ℕ
  pub fd : ℤ
  pub offset : ℕ
  pub shared : Bool

abbrev pub page_of : MmapRegion → ℕ → Page
page_of r va = record {
  prot = r.prot;
  flags = r.flags;
  fd = r.fd;
  offset = add64 r.file_offset (sub64 va r.va_start);
  shared = r.shared;
}

-- What backs an address.
unfoldable pub backing : List MmapRegion → ℕ → Option Page
backing [] va = none
backing (r ∷ rs) va = let rest = backing rs va in if holds r va then some (page_of r va) else rest

-- The regions stand in the order of their addresses from `lo` on, none is empty and no two overlap.
unfoldable pub InOrder : ℕ → List MmapRegion → Type 0
InOrder lo [] = Unit
InOrder lo (r ∷ rs) = ((lo ≤ r.va_start) × (r.va_start < r.va_end)) × InOrder r.va_end rs

pub holds-true : (r : MmapRegion) (va : ℕ) → r.va_start ≤ va → va < r.va_end → holds r va ≡ true
holds-true r va lo hi = ground arith

pub holds-below : (r : MmapRegion) (va : ℕ) → va < r.va_start → holds r va ≡ false
holds-below r va h = ground arith

pub holds-above : (r : MmapRegion) (va : ℕ) → r.va_end ≤ va → holds r va ≡ false
holds-above r va h = ground arith

pub backing_here :
    (r : MmapRegion) (rs : List MmapRegion) (va : ℕ)
    → holds r va ≡ true
    → backing (r ∷ rs) va ≡ some (page_of r va)
unfolding backing
backing_here r rs va h = rw h

pub backing_later :
    (r : MmapRegion) (rs : List MmapRegion) (va : ℕ)
    → holds r va ≡ false
    → backing (r ∷ rs) va ≡ backing rs va
unfolding backing
backing_later r rs va h = rw h

pub backing_below :
    (lo : ℕ) (rs : List MmapRegion) (va : ℕ) → InOrder lo rs → va < lo → backing rs va ≡ none
unfolding InOrder backing
backing_below lo [] va h lt = refl
backing_below lo (r ∷ rs) va h lt =
    let low = h.0.0 in
    let full = h.0.1 in
    backing_later r rs va (holds-below r va (omega arith))
    ∙ backing_below r.va_end rs va h.1 (omega arith)

pub InOrder-mono : (lo lo' : ℕ) (rs : List MmapRegion) → lo' ≤ lo → InOrder lo rs → InOrder lo' rs
unfolding InOrder
InOrder-mono lo lo' [] le h = tt
InOrder-mono lo lo' (r ∷ rs) le h = let low = h.0.0 in ((omega arith, h.0.1), h.1)

-- No address of a range is backed.
unfoldable pub Unbacked : List MmapRegion → ℕ → ℕ → Type 0
Unbacked rs addr stop = (va : ℕ) → addr ≤ va → va < stop → backing rs va ≡ none

none-some {ℓ} : {A : Type ℓ} {a : A} → none ≢ some a
none-some e = cc

pub not_held :
    (r : MmapRegion) (rs : List MmapRegion) (va : ℕ)
    → backing (r ∷ rs) va ≡ none
    → r.va_start ≤ va
    → r.va_end ≤ va
not_held r rs va e lo = elim (Bool-cases (ltb va r.va_end)) [
  | inl inside ↦
      absurd
        (none-some (sym e ∙ backing_here r rs va (holds-true r va lo (ltb→lt va r.va_end inside))))
  | inr outside ↦ ground arith
]

pub Unbacked-tail :
    (r : MmapRegion) (rs : List MmapRegion) (addr stop : ℕ)
    → r.va_end ≤ addr
    → Unbacked (r ∷ rs) addr stop
    → Unbacked rs addr stop
unfolding Unbacked
Unbacked-tail r rs addr stop le h va lo hi =
    sym (backing_later r rs va (holds-above r va (omega arith))) ∙ h va lo hi

false-true : false ≢ true
false-true e = cc

below : (va stop lo : ℕ) → va < stop → leb stop lo ≡ true → va < lo
below va stop lo lt h = ground arith

above : (addr va hi : ℕ) → addr ≤ va → ltb addr hi ≡ false → hi ≤ va
above addr va hi le h = ground arith

-- A region that meets a range backs an address of it.
meeting :
    (r : MmapRegion) (rs : List MmapRegion) (addr stop : ℕ)
    → r.va_start < r.va_end
    → addr < stop
    → Unbacked (r ∷ rs) addr stop
    → leb stop r.va_start ≡ false
    → ltb addr r.va_end ≡ true
    → ⊥
unfolding Unbacked
meeting r rs addr stop full lt free later meets = elim (Bool-cases (leb r.va_start addr)) [
  | inl inside ↦
      let le = not_held r rs addr (free addr (omega arith) lt) (leb→le r.va_start addr inside) in
      ground arith
  | inr ahead ↦
      let le =
        not_held r rs r.va_start (free r.va_start (ground arith) (ground arith)) (omega arith) in
      omega arith
]

-- Where a region stands that shares no address with the new one.
behind_it :
    (r cur : MmapRegion) (rs : List MmapRegion)
    → r.va_start < r.va_end
    → Unbacked (cur ∷ rs) r.va_start r.va_end
    → cur.va_start < r.va_start
    → cur.va_end ≤ r.va_start
unfolding Unbacked
behind_it r cur rs full free lt =
    not_held cur rs r.va_start (free r.va_start (omega arith) full) (omega arith)

ahead :
    (r cur : MmapRegion) (rs : List MmapRegion)
    → cur.va_start < cur.va_end
    → r.va_start < r.va_end
    → Unbacked (cur ∷ rs) r.va_start r.va_end
    → ltb cur.va_start r.va_start ≡ false
    → r.va_end ≤ cur.va_start
unfolding Unbacked
ahead r cur rs solid full free after = elim (Bool-cases (leb r.va_end cur.va_start)) [
  | inl clear ↦ leb→le r.va_end cur.va_start clear
  | inr meets ↦ absurd (
      overlap (
        not_held cur rs cur.va_start (free cur.va_start (ground arith) (ground arith))
          (omega arith)))
]
  where
    overlap : cur.va_end ≤ cur.va_start → ⊥
    overlap h = omega arith

inside_below : (r : MmapRegion) (va lo : ℕ) → r.va_end ≤ lo → holds r va ≡ true → va < lo
inside_below r va lo le h = ground arith

swapped :
    (r cur : MmapRegion) (rs rest : List MmapRegion) (va : ℕ)
    → cur.va_end ≤ r.va_start
    → backing rest va ≡ backing (r ∷ rs) va
    → backing (cur ∷ rest) va ≡ backing (r ∷ cur ∷ rs) va
unfolding backing
swapped r cur rs rest va le e = elim (Bool-cases (holds cur va)) [
  | inl inside ↦ rw (inside, holds-below r va (inside_below cur va r.va_start le inside))
  | inr outside ↦ rw (outside, e)
]

free_sound :
    (lo : ℕ) (rs : List MmapRegion) (addr stop : ℕ)
    → InOrder lo rs
    → free_until rs addr stop ≡ true
    → Unbacked rs addr stop
unfolding InOrder Unbacked backing
free_sound lo [] addr stop h e va from to = refl
free_sound lo (r ∷ rs) addr stop h e va from to = elim (Bool-cases (leb stop r.va_start)) [
  | inl before ↦
      backing_below r.va_start (r ∷ rs) va ((omega arith, h.0.1), h.1)
        (below va stop r.va_start to before)
  | inr later ↦ elim (Bool-cases (ltb addr r.va_end)) [
    | inl meets ↦ absurd (false-true (sym (rw (later, meets)) ∙ e))
    | inr behind ↦
        backing_later r rs va (holds-above r va (above addr va r.va_end from behind))
        ∙ free_sound r.va_end rs addr stop h.1 (rw (later, behind) at e) va from to
  ]
]

free_complete :
    (lo : ℕ) (rs : List MmapRegion) (addr stop : ℕ)
    → InOrder lo rs
    → addr < stop
    → Unbacked rs addr stop
    → free_until rs addr stop ≡ true
unfolding InOrder Unbacked
free_complete lo [] addr stop h lt free = refl
free_complete lo (r ∷ rs) addr stop h lt free = elim (Bool-cases (leb stop r.va_start)) [
  | inl before ↦ rw before refl
  | inr later ↦ elim (Bool-cases (ltb addr r.va_end)) [
    | inl meets ↦ absurd (meeting r rs addr stop h.0.1 lt free later meets)
    | inr behind ↦
        rw (later, behind)
          (free_complete r.va_end rs addr stop h.1 lt
            (Unbacked-tail r rs addr stop (above addr addr r.va_end (omega arith) behind) free))
  ]
]

-- On regions in order, `is_free` says yes to a range that does not wrap and is not empty exactly when no
-- address of it is backed.
pub is_free-Unbacked :
    (lo : ℕ) (rs : List MmapRegion) (addr len : ℕ)
    → InOrder lo rs
    → 0 < len
    → addr + len < word
    → (is_free rs addr len ≡ true) ↔ Unbacked rs addr (addr + len)
unfolding is_free
is_free-Unbacked lo rs addr len h some_len fits =
    let same : add64 addr len ≡ addr + len = omega arith in
    rw same
      (free_sound lo rs addr (addr + len) h, free_complete lo rs addr (addr + len) h (omega arith))

-- A region put where nothing is backed keeps the order, backs its own addresses and changes no other.
pub insert_region-InOrder :
    (lo : ℕ) (r : MmapRegion) (rs : List MmapRegion)
    → InOrder lo rs
    → lo ≤ r.va_start
    → r.va_start < r.va_end
    → Unbacked rs r.va_start r.va_end
    → InOrder lo (insert_region r rs)
unfolding InOrder insert_region
insert_region-InOrder lo r [] h le full free = ((le, full), tt)
insert_region-InOrder lo r (cur ∷ rs) h le full free =
    elim (Bool-cases (ltb cur.va_start r.va_start)) [
      | inl before ↦
          let behind = behind_it r cur rs full free (ltb→lt cur.va_start r.va_start before) in
          rw before (
            h.0,
            insert_region-InOrder cur.va_end r rs h.1 behind full
                (Unbacked-tail cur rs r.va_start r.va_end behind free),
          )
      | inr after ↦ rw after ((le, full), ((ahead r cur rs h.0.1 full free after, h.0.1), h.1))
    ]

pub insert_region-backing :
    (lo : ℕ) (r : MmapRegion) (rs : List MmapRegion)
    → InOrder lo rs
    → r.va_start < r.va_end
    → Unbacked rs r.va_start r.va_end
    → (va : ℕ) → backing (insert_region r rs) va ≡ backing (r ∷ rs) va
unfolding InOrder insert_region
insert_region-backing lo r [] h full free va = refl
insert_region-backing lo r (cur ∷ rs) h full free va =
    elim (Bool-cases (ltb cur.va_start r.va_start)) [
      | inl before ↦
          let behind = behind_it r cur rs full free (ltb→lt cur.va_start r.va_start before) in
          rw before (
            swapped r cur rs (insert_region r rs) va behind (
              insert_region-backing cur.va_end r rs h.1 full
                (Unbacked-tail cur rs r.va_start r.va_end behind free) va))
      | inr after ↦ rw after refl
    ]
