-- ===== src/Fs/Pipe/Queue.antt =====
-- A pipe holds a queue of bytes: what one round of `read` or `write` does to it.
use hobby_os.Prelude.{
  ℕ, ◌+◌, ◌-◌, ◌%◌, ◌≤◌, ◌<◌, ◌≡◌, refl, ap, ◌∙◌, ◌≢◌, true, false, List, [], ◌++◌, arith, length,
  take, min, half_word, sub32, add32, ◌==◌, ltb, lt→ltb, if◌then◌else◌, length-take,
}
use hobby_os.Fs.Pipe.{
  Pipe, pipe_buf_size, init, copy_out, copy_in, returns, yields, read_round, broken, full, moved,
  write_round,
}
use hobby_os.Fs.Pipe.Ring.{
  bytes, copy_out-tail, length-bytes, bytes-copy_in, copy_in-head, bytes-split,
}

pub record IsValid (p : Pipe) : Type 0 where
  pub storage : pipe_buf_size ≤ length p.buf
  pub head_in : p.head < pipe_buf_size
  pub tail_in : p.tail < pipe_buf_size
  pub count_in : p.count ≤ pipe_buf_size
  pub behind : p.head ≡ (p.tail + p.count) % pipe_buf_size

-- The bytes in the pipe, oldest first.
abbrev pub contents : Pipe → List ℕ
contents p = bytes p.buf p.tail p.count

pub init-IsValid :
    (buf : List ℕ) → pipe_buf_size ≤ length buf → IsValid (init buf) × (contents (init buf) ≡ [])
unfolding init copy_out
init-IsValid buf h = (omega arith, refl)

-- The pipe behind `n` bytes that a reader took.
abbrev without : Pipe → ℕ → Pipe
without p n = record p { tail = (copy_out p.buf p.tail n).1; count = sub32 p.count n }

without-IsValid :
    (p : Pipe) (n : ℕ)
    → IsValid p
    → n ≤ p.count
    → IsValid (without p n) × (contents p ≡ bytes p.buf p.tail n ++ contents (without p n))
without-IsValid p n v le =
    let left : sub32 p.count n ≡ p.count - n = omega (arith, v.count_in) in
    let at : (copy_out p.buf p.tail n).1 ≡ (p.tail + n) % pipe_buf_size =
      copy_out-tail p.buf p.tail n v.tail_in in
    let whole : p.count ≡ n + (p.count - n) = omega arith in
    (
      record {
        storage = v.storage;
        head_in = v.head_in;
        tail_in = omega arith;
        count_in = omega (arith, v.count_in);
        behind = rw (at, left) (omega (arith, v.behind, v.count_in));
      },
      rw (at, left)
          (ap (bytes p.buf p.tail) whole ∙ bytes-split p.buf p.tail n (p.count - n) v.tail_in),
    )

abbrev taken : Pipe → ℕ → ℕ
taken p len = if ltb len p.count then len else p.count

taken-min : (p : Pipe) (len : ℕ) → taken p len ≡ min len p.count
taken-min p len = ground arith

-- A round of `read` on a well-formed pipe with bytes returns the oldest of them, as many as fit the
-- buffer, leaves the others, and keeps the pipe well formed.
pub read_round-some :
    (p : Pipe) (len : ℕ)
    → IsValid p
    → 0 < p.count
    → (p' : Pipe) × (got : List ℕ) × (read_round p len ≡ (returns got, p'))
      × IsValid p'
      × (contents p ≡ got ++ contents p')
      × (length got ≡ min len p.count)
unfolding read_round
read_round-some p len v some_bytes =
    let pos : ltb 0 p.count ≡ true = lt→ltb 0 p.count some_bytes in
    let le : taken p len ≤ p.count = omega (arith, taken-min p len) in
    let (valid, split) = without-IsValid p (taken p len) v le in
    (
      without p (taken p len),
      bytes p.buf p.tail (taken p len),
      rw (pos, read_round),
      valid,
      split,
      length-bytes p.buf p.tail (taken p len) ∙ taken-min p len,
    )

-- On an empty pipe it waits while a writer is open, and then reports the end.
pub read_round-empty :
    (p : Pipe) (len : ℕ)
    → p.count ≡ 0
    → ((p.writers ≢ 0) → read_round p len ≡ (yields, p))
      × (p.writers ≡ 0 → read_round p len ≡ (returns [], p))
unfolding read_round
read_round-empty p len e = (λ w. ground arith, λ w. ground arith)

-- The pipe with the bytes `xs` copied in behind the others.
abbrev with_bytes : Pipe → ℕ → List ℕ → Pipe
with_bytes p n xs = record p {
  buf = (copy_in p.buf p.head xs).0;
  head = (copy_in p.buf p.head xs).1;
  count = add32 p.count n;
}

with_bytes-IsValid :
    (p : Pipe) (xs : List ℕ)
    → IsValid p
    → p.count + length xs ≤ pipe_buf_size
    → IsValid (with_bytes p (length xs) xs)
      × (contents (with_bytes p (length xs) xs) ≡ contents p ++ xs)
with_bytes-IsValid p xs v fits =
    let more : add32 p.count (length xs) ≡ p.count + length xs = omega arith in
    let (at, same) = copy_in-head p.buf p.head xs v.head_in in
    (
      record {
        storage = omega (arith, same, v.storage);
        head_in = omega arith;
        tail_in = v.tail_in;
        count_in = omega arith;
        behind = rw (at, more) (omega (arith, v.behind));
      },
      rw more (bytes-copy_in p.buf p.tail p.count p.head xs v.storage v.tail_in fits v.behind),
    )

-- `to_write` in the code.
abbrev chosen : Pipe → List ℕ → ℕ
chosen p src =
    if ltb (sub32 pipe_buf_size p.count) (length src % half_word)
    then sub32 pipe_buf_size p.count
    else length src % half_word

chosen-min :
    (p : Pipe) (src : List ℕ)
    → p.count ≤ pipe_buf_size
    → length src < half_word
    → chosen p src ≡ min (length src) (pipe_buf_size - p.count)
chosen-min p src c short =
    let e : length src % half_word ≡ length src = omega arith in
    let f : sub32 pipe_buf_size p.count ≡ pipe_buf_size - p.count = omega arith in
    rw (e, f) (ground arith)

write_round_step :
    (p : Pipe) (src : List ℕ)
    → IsValid p
    → p.readers ≢ 0
    → p.count < pipe_buf_size
    → length src < half_word
    → let n = min (length src) (pipe_buf_size - p.count) in
      write_round p src ≡ (moved n, with_bytes p n (take n src))
unfolding write_round
write_round_step p src v open_end room short =
    let r : (p.readers == 0) ≡ false = ground arith in
    let f : (sub32 pipe_buf_size p.count == 0) ≡ false = ground arith in
    let n = chosen-min p src v.count_in short in rw (r, f, n, write_round)

-- A round of `write`, of less than 4 GiB, on a well-formed pipe with a reader and room appends as many
-- of the bytes as fit, says how many, and keeps the pipe well formed.
pub write_round-moves :
    (p : Pipe) (src : List ℕ)
    → IsValid p
    → p.readers ≢ 0
    → p.count < pipe_buf_size
    → length src < half_word
    → let n = min (length src) (pipe_buf_size - p.count) in
      (p' : Pipe) × (write_round p src ≡ (moved n, p'))
      × IsValid p'
      × (contents p' ≡ contents p ++ take n src)
write_round-moves p src v open_end room short =
    let n = min (length src) (pipe_buf_size - p.count) in
    let e : length (take n src) ≡ n = omega (arith, length-take n src) in
    let (valid, appended) = with_bytes-IsValid p (take n src) v (omega (arith, v.count_in)) in
    (
      with_bytes p n (take n src),
      write_round_step p src v open_end room short,
      rw e at valid,
      rw e at appended,
    )

-- With nobody to read, or with no room, it changes nothing.
pub write_round-still :
    (p : Pipe) (src : List ℕ)
    → IsValid p
    → (p.readers ≡ 0 → write_round p src ≡ (broken, p))
      × (p.readers ≢ 0 → p.count ≡ pipe_buf_size → write_round p src ≡ (full, p))
unfolding write_round
write_round-still p src v = (λ r. ground arith, λ r c. ground arith)
