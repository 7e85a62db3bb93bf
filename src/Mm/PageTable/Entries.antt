-- ===== src/Mm/PageTable/Entries.antt =====
-- The page table entries of kernel/mm/vm/pmt.h: what is packed into one can be taken out again.
use hobby_os.Prelude.{
  ℕ, ◌+◌, ◌-◌, ◌*◌, ◌/◌, ◌%◌, ◌^◌, ◌<◌, ◌≡◌, refl, sym, ap, ◌∙◌, true, false, not, ◌==◌, arith,
  bit_and, bit_or-split, bit_and-split, bit_and-rem, mul64,
}
use hobby_os.Mm.PageTable.{make_pte, pte2pa, pte_valid, page_size}

pub make_pte_lem : (pa flags : ℕ) → flags < 1024 → make_pte pa flags ≡ pa / 4096 * 1024 + flags
unfolding make_pte
make_pte_lem pa flags h = bit_or-split 10 (pa / 4096) flags h

-- The address comes out again, cut to its page.
pub pte2pa-make_pte :
    (pa flags : ℕ) → pa < 2 ^ 56 → flags < 1024 → pte2pa (make_pte pa flags) ≡ pa / 4096 * 4096
unfolding pte2pa
pte2pa-make_pte pa flags small h =
    ap (λ pte. mul64 (pte / 2 ^ 10) (2 ^ 12)) (make_pte_lem pa flags h) ∙ omega arith

-- So do the flags.
pub flags-make_pte : (pa flags : ℕ) → flags < 1024 → bit_and (make_pte pa flags) 0x3ff ≡ flags
flags-make_pte pa flags h =
    ap (λ pte. bit_and pte 0x3ff) (make_pte_lem pa flags h) ∙ bit_and-split 10 (pa / 4096) flags h

pte_valid_odd : (x : ℕ) → pte_valid x ≡ not (x % 2 == 0)
unfolding pte_valid
pte_valid_odd x =
    ap (λ y. not (y == 0)) (bit_and-rem 1 x (x / 2) (x % 2) (omega arith) (omega arith))

-- The valid bit is that of the flags.
pub pte_valid-make_pte :
    (pa flags : ℕ) → flags < 1024 → pte_valid (make_pte pa flags) ≡ pte_valid flags
pte_valid-make_pte pa flags h =
    let low : make_pte pa flags % 2 ≡ flags % 2 = omega (arith, make_pte_lem pa flags h) in
    pte_valid_odd (make_pte pa flags) ∙ ap (λ y. not (y == 0)) low ∙ sym (pte_valid_odd flags)

pub pte_valid_zero : pte_valid 0 ≡ false
unfolding pte_valid
pte_valid_zero = refl

pub pte_valid_one : pte_valid 1 ≡ true
unfolding pte_valid
pte_valid_one = refl

pub page_offset : (va : ℕ) → bit_and va (page_size - 1) ≡ va % 4096
page_offset va = bit_and-rem 12 va (va / 4096) (va % 4096) (omega arith) (omega arith)
