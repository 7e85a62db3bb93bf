-- ===== src/Fs/Pipe/Ring.antt =====
-- The ring of a pipe as a queue of bytes: what the two copying loops do to it.
use mathlib.Core.List.{append-nil, append_assoc}
use hobby_os.Prelude.{
  ℕ, zero, suc, ◌+◌, ◌%◌, ◌≤◌, ◌<◌, ◌≡◌, refl, ap, ap₂, ◌∙◌, ◌≢◌, List, [], ◌∷◌, ◌++◌, arith,
  length, set, get_or, add32, length-set,
}
use hobby_os.Fs.Pipe.{pipe_buf_size, copy_out, copy_in}

-- The `n` bytes from index `t` on, round the end of the buffer.
abbrev pub bytes : List ℕ → ℕ → ℕ → List ℕ
bytes buf t n = (copy_out buf t n).0

pub get_or-set_self : (xs : List ℕ) (i v d : ℕ) → i < length xs → get_or (set xs i v) i d ≡ v
get_or-set_self [] i v d h = absurd (omega arith)
get_or-set_self (x ∷ xs) zero v d h = refl
get_or-set_self (x ∷ xs) (suc i) v d h = get_or-set_self xs i v d (omega arith)

pub get_or-set_ne : (xs : List ℕ) (i j v d : ℕ) → i ≢ j → get_or (set xs i v) j d ≡ get_or xs j d
get_or-set_ne [] i j v d h = refl
get_or-set_ne (x ∷ xs) zero zero v d h = absurd (h refl)
get_or-set_ne (x ∷ xs) zero (suc j) v d h = refl
get_or-set_ne (x ∷ xs) (suc i) zero v d h = refl
get_or-set_ne (x ∷ xs) (suc i) (suc j) v d h = get_or-set_ne xs i j v d (λ e. h (ap suc e))

next_index : (t : ℕ) → t < pipe_buf_size → add32 t 1 % pipe_buf_size ≡ (t + 1) % pipe_buf_size
next_index t h = omega arith

-- The loop of `read` moves the tail by the bytes that it takes.
pub copy_out-tail :
    (buf : List ℕ) (t n : ℕ) → t < pipe_buf_size → (copy_out buf t n).1 ≡ (t + n) % pipe_buf_size
unfolding copy_out
copy_out-tail buf t zero h = omega arith
copy_out-tail buf t (suc n) h =
    copy_out-tail buf (add32 t 1 % pipe_buf_size) n (omega arith) ∙ omega arith

pub length-bytes : (buf : List ℕ) (t n : ℕ) → length (bytes buf t n) ≡ n
unfolding copy_out
length-bytes buf t zero = refl
length-bytes buf t (suc n) = ap suc (length-bytes buf (add32 t 1 % pipe_buf_size) n)

-- A byte written right behind `n` bytes is the next one.
bytes-set :
    (buf : List ℕ) (t n i x : ℕ)
    → pipe_buf_size ≤ length buf
    → t < pipe_buf_size
    → n < pipe_buf_size
    → i ≡ (t + n) % pipe_buf_size
    → bytes (set buf i x) t (suc n) ≡ bytes buf t n ++ x ∷ []
unfolding copy_out
bytes-set buf t zero i x room ht hn e =
    let here : i ≡ t = omega arith in
    ap (λ (b : ℕ). b ∷ [])
      (ap (λ k. get_or (set buf k x) t 0) here ∙ get_or-set_self buf t x 0 (omega arith))
bytes-set buf t (suc n) i x room ht hn e =
    let away : i ≢ t = omega arith in
    ap₂ ◌∷◌ (get_or-set_ne buf i t x 0 away) (
      bytes-set buf (add32 t 1 % pipe_buf_size) n i x room (omega arith) (omega arith)
        (omega arith))

-- The loop of `write` appends what it copies in.
pub bytes-copy_in :
    (buf : List ℕ) (t n head : ℕ) (xs : List ℕ)
    → pipe_buf_size ≤ length buf
    → t < pipe_buf_size
    → n + length xs ≤ pipe_buf_size
    → head ≡ (t + n) % pipe_buf_size
    → bytes (copy_in buf head xs).0 t (n + length xs) ≡ bytes buf t n ++ xs
unfolding copy_in
bytes-copy_in buf t n head [] room ht hn e =
    let none_more : n + 0 ≡ n = omega arith in rw (none_more, append-nil)
bytes-copy_in buf t n head (x ∷ xs) room ht hn e =
    let buf' = set buf head x in
    let head' = add32 head 1 % pipe_buf_size in
    let count : n + length (x ∷ xs) ≡ suc n + length xs = omega arith in
    let room' : pipe_buf_size ≤ length buf' = omega (arith, length-set buf head x) in
    let at : head' ≡ (t + suc n) % pipe_buf_size = omega arith in
    ap (bytes (copy_in buf' head' xs).0 t) count
    ∙ bytes-copy_in buf' t (suc n) head' xs room' ht (omega arith) at
    ∙ ap (λ l. l ++ xs) (bytes-set buf t n head x room ht (omega arith) e)
    ∙ append_assoc (bytes buf t n) (x ∷ []) xs

pub copy_in-head :
    (buf : List ℕ) (head : ℕ) (xs : List ℕ)
    → head < pipe_buf_size
    → ((copy_in buf head xs).1 ≡ (head + length xs) % pipe_buf_size)
      × (length (copy_in buf head xs).0 ≡ length buf)
unfolding copy_in
copy_in-head buf head [] h = (omega arith, refl)
copy_in-head buf head (x ∷ xs) h =
    let (at, same) =
      copy_in-head (set buf head x) (add32 head 1 % pipe_buf_size) xs (omega arith) in
    (at ∙ omega arith, same ∙ length-set buf head x)

-- Taking bytes out leaves the others.
pub bytes-split :
    (buf : List ℕ) (t n k : ℕ)
    → t < pipe_buf_size
    → bytes buf t (n + k) ≡ bytes buf t n ++ bytes buf ((t + n) % pipe_buf_size) k
unfolding copy_out
bytes-split buf t zero k h =
    let start : (t + 0) % pipe_buf_size ≡ t = omega arith in
    let count : 0 + k ≡ k = omega arith in rw (start, count)
bytes-split buf t (suc n) k h =
    let next = add32 t 1 % pipe_buf_size in
    let count : suc n + k ≡ suc (n + k) = omega arith in
    let far : (t + suc n) % pipe_buf_size ≡ (next + n) % pipe_buf_size = omega arith in
    rw (count, far) (ap (◌∷◌ (get_or buf t 0)) (bytes-split buf next n k (omega arith)))
