-- ===== src/Mm/Mem.antt =====
-- kernel/mm/mem.h: the byte and string primitives, over a memory of bytes.
-- `char` is unsigned on the target. The loops over strings take fuel, and `none` means that it
-- ran out before the terminator.
use mathlib.Core.Option
use hobby_os.Prelude.{
  ℕ, zero, suc, ◌+◌, ◌-◌, ◌%◌, ◌≡◌, Bool, Option, none, some, ltb, if◌then◌else◌, update, ◌==◌,
  ◌&&◌, not, ℤ, pos, negsuc, sub_ℕ,
}
pub mod Blocks
pub mod Texts

abbrev pub Memory : Type 0
Memory = ℕ → ℕ

-- `while (len-- > 0) *ptr++ = (uint8_t)val`.
unfoldable pub memset : Memory → ℕ → ℕ → ℕ → Memory
memset m ptr val zero = m
memset m ptr val (suc len) = memset (update m ptr (val % 256)) (ptr + 1) val len

-- The loop from index `i`, with `n` rounds left.
unfoldable pub copy_from : Memory → ℕ → ℕ → ℕ → ℕ → Memory
copy_from m dest src i zero = m
copy_from m dest src i (suc n) = copy_from (update m (dest + i) (m (src + i))) dest src (i + 1) n

unfoldable pub memcpy : Memory → ℕ → ℕ → ℕ → Memory
memcpy m dest src len = copy_from m dest src 0 len

unfoldable pub compare_from : Memory → ℕ → ℕ → ℕ → ℕ → ℤ
compare_from m p q i zero = pos 0
compare_from m p q i (suc n) =
    if not (m (p + i) == m (q + i))
    then (if ltb (m (p + i)) (m (q + i)) then negsuc 0 else pos 1)
    else compare_from m p q (i + 1) n

unfoldable pub memcmp : Memory → ℕ → ℕ → ℕ → ℤ
memcmp m p q len = compare_from m p q 0 len

unfoldable pub strcmp : ℕ → Memory → ℕ → ℕ → Option ℤ
strcmp zero m p q = none
strcmp (suc fuel) m p q =
    let rest = strcmp fuel m (p + 1) (q + 1) in
    if not (m p == 0) && m p == m q then rest else some (sub_ℕ (m p) (m q))

unfoldable pub strlen_from : ℕ → Memory → ℕ → ℕ → Option ℕ
strlen_from zero m s n = none
strlen_from (suc fuel) m s n =
    let rest = strlen_from fuel m s (n + 1) in if m (s + n) == 0 then some n else rest

unfoldable pub strlen : ℕ → Memory → ℕ → Option ℕ
strlen fuel m s = strlen_from fuel m s 0

unfoldable pub strcpy : ℕ → Memory → ℕ → ℕ → Option Memory
strcpy zero m dest src = none
strcpy (suc fuel) m dest src =
    let rest = strcpy fuel (update m dest (m src)) (dest + 1) (src + 1) in
    if m src == 0 then some (update m dest 0) else rest

unfoldable pub strncmp_from : Memory → ℕ → ℕ → ℕ → ℕ → ℤ
strncmp_from m s1 s2 i zero = pos 0
strncmp_from m s1 s2 i (suc n) =
    if not (m (s1 + i) == m (s2 + i))
    then sub_ℕ (m (s1 + i)) (m (s2 + i))
    else (if m (s1 + i) == 0 then pos 0 else strncmp_from m s1 s2 (i + 1) n)

unfoldable pub strncmp : Memory → ℕ → ℕ → ℕ → ℤ
strncmp m s1 s2 n = strncmp_from m s1 s2 0 n

-- The second loop: zeros from index `i`.
unfoldable pub pad_from : Memory → ℕ → ℕ → ℕ → Memory
pad_from m dest i zero = m
pad_from m dest i (suc n) = pad_from (update m (dest + i) 0) dest (i + 1) n

unfoldable pub strncpy_from : Memory → ℕ → ℕ → ℕ → ℕ → Memory
strncpy_from m dest src i zero = m
strncpy_from m dest src i (suc n) =
    let rest = strncpy_from (update m (dest + i) (m (src + i))) dest src (i + 1) n in
    if not (m (src + i) == 0) then rest else pad_from m dest i (suc n)

unfoldable pub strncpy : Memory → ℕ → ℕ → ℕ → Memory
strncpy m dest src n = strncpy_from m dest src 0 n
