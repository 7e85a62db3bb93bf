-- ===== src/Mm/Segment/Lookup.antt =====
-- What `find`, `copy` and `checkOperation` promise.
use hobby_os.Prelude.{
  ℕ, suc, ◌-◌, ◌≤◌, ◌<◌, ◌≡◌, ◌⊎◌, inl, inr, ◌≢◌, Bool, true, Option, none, some, arith, bit_and,
  Option-cases,
}
use hobby_os.Mm.Ranges.{Steps, check_range_total, check_range_sound, check_range_complete}
use hobby_os.Mm.Segment.{SegType, SegmentDesc, SegmentTable, find, copy, answer, check_operation}

-- The descriptor stands in one of the six slots.
abbrev pub Has : SegmentTable → SegmentDesc → Type 0
Has t d =
    (t.text ≡ some d)
    ⊎ (t.ro_data ≡ some d)
    ⊎ (t.data_seg ≡ some d)
    ⊎ (t.bss ≡ some d)
    ⊎ (t.heap ≡ some d)
    ⊎ (t.stack ≡ some d)

-- What `find` returns is in the table and holds the address.
pub find_sound :
    (t : SegmentTable) (va : ℕ) (d : SegmentDesc)
    → find t va ≡ some d
    → Has t d × (d.start ≤ va) × (va < d.stop)
unfolding find
find_sound t va d h = ground arith

pub find_complete :
    (t : SegmentTable) (va : ℕ) (d : SegmentDesc)
    → Has t d
    → d.start ≤ va
    → va < d.stop
    → find t va ≢ none
unfolding find
find_complete t va d h lo hi = ground arith

-- What a copied slot holds: the same range and flags, under the slot's kind.
abbrev pub retyped : SegType → Option SegmentDesc → Option SegmentDesc
retyped kind none = none
retyped kind (some d) = some (record d { kind = kind })

-- A copy, with memory for its descriptors, holds each slot's range and flags in the same slot, under
-- the kind of that slot.
pub copy_lem :
    (src : SegmentTable)
    → let t = copy (λ _. true) src in
      (t.text ≡ retyped SegType.text src.text)
      × (t.ro_data ≡ retyped SegType.ro_data src.ro_data)
      × (t.data_seg ≡ retyped SegType.data_seg src.data_seg)
      × (t.bss ≡ retyped SegType.bss src.bss)
      × (t.heap ≡ retyped SegType.heap src.heap)
      × (t.stack ≡ retyped SegType.stack src.stack)
unfolding copy
copy_lem src = ground arith

-- The address lies in a segment whose flags share a bit with the operation.
abbrev pub Allowed : SegmentTable → ℕ → ℕ → Type 0
Allowed t op va =
    (d : SegmentDesc) × Has t d × (d.start ≤ va) × (va < d.stop) × (bit_and d.flags op ≢ 0)

look_granted :
    (t : SegmentTable) (op va next : ℕ)
    → answer op (find t va) ≡ some (true, next)
    → (d : SegmentDesc) × (find t va ≡ some d) × (bit_and d.flags op ≢ 0) × (next ≡ d.stop)
look_granted t op va next h = elim (Option-cases (find t va)) [
  | inl missing ↦ absurd (ground arith)
  | inr (d, found) ↦ (d, found, ground arith, ground arith)
]

look_onward :
    (t : SegmentTable) (op va next : ℕ) (permits : Bool)
    → answer op (find t va) ≡ some (permits, next)
    → va < next
look_onward t op va next permits h = elim (Option-cases (find t va)) [
  | inl missing ↦ absurd (ground arith)
  | inr (d, found) ↦ let (there, lo, hi) = find_sound t va d found in ground arith
]

check_steps : (t : SegmentTable) (op : ℕ) → Steps (λ va. answer op (find t va)) (Allowed t op)
check_steps t op = record {
  onward = look_onward t op;
  fine = λ va next h w lo hi.
      let (d, found, some_bit, e) = look_granted t op va next h in
      let (there, low, high) = find_sound t va d found in
      (d, there, omega arith, omega arith, some_bit);
}

-- `checkOperation` always returns, with the fuel that it is given here.
pub check_operation_total :
    (t : SegmentTable) (va_start va_end op : ℕ)
    → (b : Bool) × (check_operation t va_start va_end op ≡ some b)
unfolding check_operation
check_operation_total t va_start va_end op =
    check_range_total _ (Allowed t op) (check_steps t op) (suc (va_end - va_start)) va_start va_end
      (omega arith)

-- If `checkOperation` says yes, every address of the range lies in a segment of the table whose flags
-- share a bit with the operation.
pub check_operation_sound :
    (t : SegmentTable) (va_start va_end op : ℕ)
    → check_operation t va_start va_end op ≡ some true
    → (va : ℕ) → va_start ≤ va
    → va < va_end
    → Allowed t op va
unfolding check_operation
check_operation_sound t va_start va_end op h =
    check_range_sound _ (Allowed t op) (check_steps t op) (suc (va_end - va_start)) va_start va_end
      h

-- If the segment that `find` returns for every address of the range shares a bit with the operation,
-- `checkOperation` says yes.
pub check_operation_complete :
    (t : SegmentTable) (va_start va_end op : ℕ)
    → ((va : ℕ)
        → va_start ≤ va
        → va < va_end
        → (d : SegmentDesc) × (find t va ≡ some d) × (bit_and d.flags op ≢ 0))
    → check_operation t va_start va_end op ≡ some true
unfolding check_operation
check_operation_complete t va_start va_end op h =
    check_range_complete _ (Allowed t op) (check_steps t op) (suc (va_end - va_start)) va_start
      va_end (omega arith)
      λ va lo hi. let (d, found, some_bit) = h va lo hi in (d.stop, rw found (ground arith))
