-- ===== src/Fs/Pipe.antt =====
-- kernel/fs/pipe/pipe.cpp and pipe.h: a pipe is a ring of PIPE_BUF_SIZE bytes with counts of its open
-- ends. `read` and `write` loop: each round takes the lock, moves what it can, and either returns or
-- yields. A round is a function here, and other processes run between two rounds. A user buffer is a
-- list of bytes, null is `none`.
pub mod Ring
pub mod Queue
pub mod Rounds
use hobby_os.Prelude.{
  ℕ, zero, suc, ◌+◌, ◌-◌, ◌%◌, ◌<◌, Bool, true, false, ◌&&◌, Option, none, some, List, [], ◌∷◌,
  ◌++◌, ◌==◌, ltb, if◌then◌else◌, length, set, get_or, take, drop, add32, sub32, min, bit_and,
  half_word,
}

abbrev pub pipe_buf_size : ℕ
pipe_buf_size = 4096

pub record Pipe : Type 0 where
  pub buf : List ℕ
  pub head : ℕ
  pub tail : ℕ
  pub count : ℕ
  pub readers : ℕ
  pub writers : ℕ

-- The constructor, over the bytes that `kmalloc` returns.
unfoldable pub init : List ℕ → Pipe
init buf = record { buf = buf; head = 0; tail = 0; count = 0; readers = 1; writers = 1 }

-- `for (i = 0; i < toRead; i++) { dst[i] = m_buf[m_tail]; m_tail = (m_tail + 1) % PIPE_BUF_SIZE; }`:
-- the bytes, and the tail behind them.
unfoldable pub copy_out : List ℕ → ℕ → ℕ → List ℕ × ℕ
copy_out buf tail zero = ([], tail)
copy_out buf tail (suc n) =
    let (bytes, tail') = copy_out buf (add32 tail 1 % pipe_buf_size) n in
    (get_or buf tail 0 ∷ bytes, tail')

-- `for (i = 0; i < toWrite; i++) { m_buf[m_head] = src[total + i]; m_head = … }`
unfoldable pub copy_in : List ℕ → ℕ → List ℕ → List ℕ × ℕ
copy_in buf head [] = (buf, head)
copy_in buf head (x ∷ xs) = copy_in (set buf head x) (add32 head 1 % pipe_buf_size) xs

-- How a round of `read` or `write` ends: the call returns, or it yields and goes on.
pub data Round (A : Type 0) : Type 0 where
  returns : A → Round A
  yields : Round A

-- One round of `read` for `len` bytes.
unfoldable pub read_round : Pipe → ℕ → Round (List ℕ) × Pipe
unfolding copy_out
read_round p len =
    let to_read = if ltb len p.count then len else p.count in
    let (bytes, tail') = copy_out p.buf p.tail to_read in
    if ltb 0 p.count
    then (returns bytes, record p { tail = tail'; count = sub32 p.count to_read })
    else if p.writers == 0
    then (returns [], p)
    else (yields, p)

-- `read` returns at once for a null buffer or no length.
unfoldable pub read_now : Bool → ℕ → Bool
read_now has_buf len = if has_buf then len == 0 else true

-- How a round of `write` ends: with nobody to read, the writer gets SIGPIPE and the call returns.
pub data Written : Type 0 where
  broken : Written
  full : Written
  moved : ℕ → Written

-- One round of `write` with the bytes from `src + total` on: what happened, and the pipe.
unfoldable pub write_round : Pipe → List ℕ → Written × Pipe
unfolding copy_in
write_round p src =
    let free_space = sub32 pipe_buf_size p.count in
    -- `(uint32_t)(len - total)`
    let wanted = length src % half_word in
    let to_write = (if ltb free_space wanted then free_space else wanted) in
    let (buf', head') = copy_in p.buf p.head (take to_write src) in
    if p.readers == 0
    then (broken, p)
    else if free_space == 0
    then (full, p)
    else (moved to_write, record p { buf = buf'; head = head'; count = add32 p.count to_write })

-- `onOpen` and `onClose`: the access mode is the two low bits, and O_WRONLY is 1. The Boolean says
-- that the pipe is deleted.
unfoldable pub on_open : Pipe → ℕ → Pipe
on_open p flags =
    if bit_and flags 3 == 1
    then record p { writers = add32 p.writers 1 }
    else record p { readers = add32 p.readers 1 }

unfoldable pub on_close : Pipe → ℕ → Bool × Pipe
on_close p flags =
    let p' =
      (if bit_and flags 3 == 1
        then (if ltb 0 p.writers then record p { writers = p.writers - 1 } else p)
        else (if ltb 0 p.readers then record p { readers = p.readers - 1 } else p)) in
    (p'.readers == 0 && p'.writers == 0, p')
