-- ===== src/Fs/File.antt =====
-- kernel/fs/file.cpp and file.h: an open file is an inode with access flags and an offset. The inode is
-- an object of one of several classes; here it is its address, and what its methods answer is an
-- argument. Offsets are words, and `int64_t` values are integers.
pub mod Offsets
use hobby_os.Prelude.{
  ℕ, ◌+◌, ◌-◌, ◌%◌, Bool, true, false, ◌||◌, Option, none, some, ℤ, pos, negsuc, ◌==◌, ltb, leb,
  if◌then◌else◌, bit_and, add64, word,
}

pub record File : Type 0 where
  pub inode : Option ℕ
  pub mount : Option ℕ
  pub flags : ℕ
  pub offset : ℕ

abbrev pub o_rdonly : ℕ
o_rdonly = 0

abbrev pub o_wronly : ℕ
o_wronly = 1

abbrev pub o_rdwr : ℕ
o_rdwr = 2

abbrev pub o_append : ℕ
o_append = 0x400

-- `uint32_t mode = m_flags & 0x3`
abbrev pub mode : File → ℕ
mode f = bit_and f.flags 3

abbrev pub readable : File → Bool
readable f = mode f == o_rdonly || mode f == o_rdwr

abbrev pub writable : File → Bool
writable f = mode f == o_wronly || mode f == o_rdwr

-- The copy constructor, without the reference that it takes on the inode.
unfoldable pub copy : File → Bool → File
copy f copy_offset = record f { offset = if copy_offset then f.offset else 0 }

-- The low 64 bits of `offset + n`, for an `int n`.
abbrev pub advance : ℕ → ℤ → ℕ
advance offset (pos n) = add64 offset n
advance offset (negsuc n) = (offset + word - (n + 1)) % word

abbrev pub is_minus_one : ℤ → Bool
is_minus_one (pos n) = false
is_minus_one (negsuc n) = n == 0

-- `read`: `answer` is what the inode's `read` returns at the file's offset.
unfoldable pub read : File → ℤ → ℤ × File
read f answer =
    if readable f
    then (elim f.inode [
      | none ↦ (negsuc 0, f)
      | some i ↦
          if is_minus_one answer
          then (negsuc 0, f)
          else (answer, record f { offset = advance f.offset answer })
    ])
    else (negsuc 0, f)

-- The offset that `write` hands to the inode: all ones for a file that appends.
unfoldable pub write_offset : File → ℕ
write_offset f = if bit_and f.flags o_append == 0 then f.offset else word - 1

abbrev pub is_positive : ℤ → Bool
is_positive (pos n) = ltb 0 n
is_positive (negsuc n) = false

-- `write`: `answer` is what the inode's `write` returns at `write_offset`.
unfoldable pub write : File → ℤ → ℤ × File
write f answer =
    if writable f
    then (elim f.inode [
      | none ↦ (negsuc 0, f)
      | some i ↦
          if is_positive answer
          then (answer, record f { offset = advance f.offset answer })
          else (answer, f)
    ])
    else (negsuc 0, f)

-- a + b on integers that do not overflow.
abbrev pub add_int : ℕ → ℤ → ℤ
add_int a (pos b) = pos (a + b)
add_int a (negsuc b) = if ltb b a then pos (a - (b + 1)) else negsuc (b - a)

-- `seek`: the `switch` on `whence`, with the size that the inode answers. 0, 1 and 2 are SEEK_SET,
-- SEEK_CUR and SEEK_END.
unfoldable pub seek_target : File → ℤ → ℕ → ℕ → Option ℤ
seek_target f offset whence size =
    if whence == 0
    then some offset
    else if whence == 1
    then some (add_int f.offset offset)
    else if whence == 2
    then some (add_int size offset)
    else none

unfoldable pub seek : File → ℤ → ℕ → ℕ → ℤ × File
unfolding seek_target
seek f offset whence size = elim f.inode [
  | none ↦ (negsuc 0, f)
  | some i ↦ elim (seek_target f offset whence size) [
    | none ↦ (negsuc 0, f)
    | some (pos n) ↦ (pos n, record f { offset = n })
    | some (negsuc n) ↦ (negsuc 0, f)
  ]
]

unfoldable pub tell : File → ℕ
tell f = f.offset

-- `close` lets go of its inode, the first time.
unfoldable pub close : File → File
close f = elim f.inode [ none ↦ f | some i ↦ record f { inode = none; mount = none } ]
