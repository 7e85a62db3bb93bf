-- ===== src/Mm/PageTable/Reads.antt =====
-- What kernel/mm/vm/pmt.cpp reads from the tables: translations and flags.
use hobby_os.Prelude.{
  ◌*◌, ◌/◌, ◌<◌, ◌≤◌, ℕ, ◌+◌, ◌%◌, ◌^◌, ◌≡◌, ◌<◌, sym, ap, ap₂, ◌∙◌, Bool, true, false, Bool-cases,
  inl, inr, some, length, arith, if◌then◌else◌, bit_and, add64, ◌==◌, ◌&&◌,
}
use hobby_os.Mm.PageTable.{
  PageTables, walk, map_page, translate, get_flags, make_pte, pte2pa, pte_valid, entry_in, vpn,
  user_threshold,
}
use hobby_os.Mm.PageTable.Entries.{pte2pa-make_pte, pte_valid-make_pte, flags-make_pte, page_offset}
use hobby_os.Mm.PageTable.Walks.{walk-leaf_of}
use hobby_os.Mm.PageTable.Maps.{Entries, entry_at, with_entry, Maps, map_page-Maps}

-- A walk reads the entry of the map.
entry-walk :
    (root : ℕ) (f : Entries) (m : PageTables) (va : ℕ)
    → vpn 2 va < user_threshold
    → Maps root f m
    → entry_in m.tables (walk false m root va).1 (vpn 0 va) ≡ entry_at f va
entry-walk root f m va low h =
    ap (λ r. entry_in m.tables r.1 (vpn 0 va)) (walk-leaf_of m root va)
    ∙ h.entries (vpn 2 va) (vpn 1 va) (vpn 0 va) low

abbrev pub address_in : ℕ → ℕ → ℕ
address_in pte va = if pte_valid pte then add64 (pte2pa pte) (va % 4096) else 0

-- The translation and the flags of an address are those of its entry, and 0 without one.
pub translate-Maps :
    (root : ℕ) (f : Entries) (m : PageTables) (va : ℕ)
    → vpn 2 va < user_threshold
    → Maps root f m
    → (translate m root va ≡ address_in (entry_at f va) va)
      × (get_flags m root va
          ≡ (if pte_valid (entry_at f va) then bit_and (entry_at f va) 0x3ff else 0))
unfolding translate get_flags
translate-Maps root f m va low h =
    let e = entry-walk root f m va low h in
    (
      ap₂ (λ pte o. if pte_valid pte then add64 (pte2pa pte) o else 0) e (page_offset va),
      ap (λ pte. if pte_valid pte then bit_and pte 0x3ff else 0) e,
    )

abbrev removed : Entries → ℕ → Entries
removed f va = if pte_valid (entry_at f va) then with_entry f va 0 else f

-- Two addresses in the same page, of the 39 bits that the tables translate.
abbrev pub same_page : ℕ → ℕ → Bool
same_page va wa = va / 4096 % 2 ^ 27 == wa / 4096 % 2 ^ 27

-- The three page numbers are the digits of the page.
page_digits :
    (va : ℕ)
    → (va / 4096 % 2 ^ 27 ≡ vpn 2 va * 2 ^ 18 + vpn 1 va * 2 ^ 9 + vpn 0 va)
      × (vpn 1 va < 2 ^ 9)
      × (vpn 0 va < 2 ^ 9)
unfolding vpn
page_digits va = (omega arith, omega arith, omega arith)

same_digits :
    (a b c d e f m n : ℕ)
    → m ≡ a * 2 ^ 18 + b * 2 ^ 9 + c
    → n ≡ d * 2 ^ 18 + e * 2 ^ 9 + f
    → b < 2 ^ 9
    → c < 2 ^ 9
    → e < 2 ^ 9
    → f < 2 ^ 9
    → (a == d && b == e && c == f) ≡ (m == n)
same_digits a b c d e f m n hm hn hb hc he hf = ground arith

vpn-same_page :
    (va wa : ℕ)
    → (vpn 2 va == vpn 2 wa && vpn 1 va == vpn 1 wa && vpn 0 va == vpn 0 wa) ≡ same_page va wa
vpn-same_page va wa =
    let (v, v1, v0) = page_digits va in
    let (w, w1, w0) = page_digits wa in
    same_digits (vpn 2 va) (vpn 1 va) (vpn 0 va) (vpn 2 wa) (vpn 1 wa) (vpn 0 wa)
      (va / 4096 % 2 ^ 27) (wa / 4096 % 2 ^ 27) v w v1 v0 w1 w0

vpn_low : (va : ℕ) → va / 4096 % 2 ^ 27 < 2 ^ 26 → vpn 2 va < user_threshold
unfolding vpn
vpn_low va h = omega (arith, h)

-- Where the user's half of a root is one tree of tables that stands for a map, a page of that half that
-- is not mapped is mapped, with flags of ten bits that have the valid bit, to an aligned address below
-- 2^56, where the allocator has two pages for tables: then every address of the page translates into
-- it, at its offset and with these flags, every other address of that half translates as before, with
-- the flags that it had, and the entries of the kernel's half of the root stay.
pub translate-map_page :
    (root : ℕ) (f : Entries) (m : PageTables) (va wa pa flags : ℕ)
    → va / 4096 % 2 ^ 27 < 2 ^ 26
    → wa / 4096 % 2 ^ 27 < 2 ^ 26
    → Maps root f m
    → pte_valid (entry_at f va) ≡ false
    → 1 < length m.free
    → pa < 2 ^ 56
    → pa % 4096 ≡ 0
    → flags < 1024
    → pte_valid flags ≡ true
    → (m' : PageTables) × (map_page m root va pa flags ≡ some (m', true))
      × (translate m' root wa ≡ (if same_page va wa then pa + wa % 4096 else translate m root wa))
      × (get_flags m' root wa ≡ (if same_page va wa then flags else get_flags m root wa))
      × ((a : ℕ) → user_threshold ≤ a → m'.tables root a ≡ m.tables root a)
translate-map_page root f m va wa pa flags va_low wa_low h free room small aligned few valid =
    let (m', run, after, kernel) =
      map_page-Maps root f m va pa flags (vpn_low va va_low) h free room in
    let (address, bits) =
      translate-Maps root (with_entry f va (make_pte pa flags)) m' wa (vpn_low wa wa_low) after in
    let (before, bits_before) = translate-Maps root f m wa (vpn_low wa wa_low) h in
    let is_valid : pte_valid (make_pte pa flags) ≡ true = pte_valid-make_pte pa flags few ∙ valid in
    let page : pte2pa (make_pte pa flags) ≡ pa = pte2pa-make_pte pa flags small few ∙ omega arith in
    let landed : address_in (make_pte pa flags) wa ≡ pa + wa % 4096 =
      rw (is_valid, page) (omega arith) in
    let flagged : (if pte_valid (make_pte pa flags) then bit_and (make_pte pa flags) 0x3ff else 0)
        ≡ flags =
      rw is_valid (flags-make_pte pa flags few) in
    (
      m',
      run,
      address ∙ elim (Bool-cases (same_page va wa)) [
        | inl same ↦ rw (vpn-same_page va wa ∙ same, same) landed
        | inr other ↦ rw (vpn-same_page va wa ∙ other, other) (sym before)
      ],
      bits ∙ elim (Bool-cases (same_page va wa)) [
        | inl same ↦ rw (vpn-same_page va wa ∙ same, same) flagged
        | inr other ↦ rw (vpn-same_page va wa ∙ other, other) (sym bits_before)
      ],
      kernel,
    )
