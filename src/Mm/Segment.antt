-- ===== src/Mm/Segment.antt =====
-- kernel/mm/vm/segment.cpp and segment.h: the six segments of an address space. A slot that is null is
-- `none`. The descriptors' allocator answers each request (`room`), since it may have no memory left.
pub mod Lookup
use hobby_os.Prelude.{
  ℕ, suc, ◌-◌, Bool, true, false, not, ◌&&◌, Option, none, some, ◌==◌, ltb, leb, if◌then◌else◌,
  bit_and, sub64,
}
use hobby_os.Mm.Ranges.{check_range}

pub data SegType : Type 0 where
  text ro_data data_seg bss heap stack : SegType

pub record SegmentDesc : Type 0 where
  pub kind : SegType
  pub flags : ℕ
  pub start : ℕ
  pub stop : ℕ

-- `size`: `end - start` as words.
unfoldable pub size : SegmentDesc → ℕ
size d = sub64 d.stop d.start

abbrev pub contains : SegmentDesc → ℕ → Bool
contains d va = leb d.start va && ltb va d.stop

pub record SegmentTable : Type 0 where
  pub text : Option SegmentDesc
  pub ro_data : Option SegmentDesc
  pub data_seg : Option SegmentDesc
  pub bss : Option SegmentDesc
  pub heap : Option SegmentDesc
  pub stack : Option SegmentDesc

-- The constructor, and `clear`.
abbrev pub empty_table : SegmentTable
empty_table = record {
  text = none;
  ro_data = none;
  data_seg = none;
  bss = none;
  heap = none;
  stack = none;
}

-- `allocDesc`.
unfoldable pub alloc_desc : Bool → SegType → ℕ → ℕ → ℕ → Option SegmentDesc
alloc_desc room kind flags va_start va_end =
    if room
    then some (record { kind = kind; flags = flags; start = va_start; stop = va_end })
    else none

-- `setText` and its five siblings, each by `setSingle`: the old descriptor is freed, and the slot takes
-- the new one, which may be null.
unfoldable pub set_segment : Bool → SegType → ℕ → ℕ → ℕ → SegmentTable → SegmentTable
unfolding alloc_desc
set_segment room SegType.text f s e t = record t { text = alloc_desc room SegType.text f s e }
set_segment room SegType.ro_data f s e t = record t {
  ro_data = alloc_desc room SegType.ro_data f s e;
}
set_segment room SegType.data_seg f s e t = record t {
  data_seg = alloc_desc room SegType.data_seg f s e;
}
set_segment room SegType.bss f s e t = record t { bss = alloc_desc room SegType.bss f s e }
set_segment room SegType.heap f s e t = record t { heap = alloc_desc room SegType.heap f s e }
set_segment room SegType.stack f s e t = record t { stack = alloc_desc room SegType.stack f s e }

-- `slot && slot->contains(va)`.
abbrev pub holds : Option SegmentDesc → ℕ → Bool
holds none va = false
holds (some d) va = contains d va

unfoldable pub find : SegmentTable → ℕ → Option SegmentDesc
find t va =
    if holds t.text va
    then t.text
    else if holds t.ro_data va
    then t.ro_data
    else if holds t.data_seg va
    then t.data_seg
    else if holds t.bss va
    then t.bss
    else if holds t.heap va
    then t.heap
    else if holds t.stack va
    then t.stack
    else none

-- One `if (src->slot) dst->set…(flags, start, end);` of `copy`.
unfoldable pub copy_slot : Bool → SegType → Option SegmentDesc → SegmentTable → SegmentTable
unfolding set_segment
copy_slot room kind none t = t
copy_slot room kind (some d) t = set_segment room kind d.flags d.start d.stop t

-- `copy` of a table that is not null, into a new table that is not null.
unfoldable pub copy : (SegType → Bool) → SegmentTable → SegmentTable
unfolding copy_slot
copy room src = copy_slot (room SegType.stack) SegType.stack src.stack (
    copy_slot (room SegType.heap) SegType.heap src.heap (
      copy_slot (room SegType.bss) SegType.bss src.bss (
        copy_slot (room SegType.data_seg) SegType.data_seg src.data_seg (
          copy_slot (room SegType.ro_data) SegType.ro_data src.ro_data
            (copy_slot (room SegType.text) SegType.text src.text empty_table)))))

-- The body of the loop of `checkOperation`: the descriptor's answer, and its end.
abbrev pub answer : ℕ → Option SegmentDesc → Option (Bool × ℕ)
answer op none = none
answer op (some d) = some (not (bit_and d.flags op == 0), d.stop)

unfoldable pub check_operation : SegmentTable → ℕ → ℕ → ℕ → Option Bool
unfolding find check_range
check_operation t va_start va_end op =
    check_range (λ va. answer op (find t va)) (suc (va_end - va_start)) va_start va_end
