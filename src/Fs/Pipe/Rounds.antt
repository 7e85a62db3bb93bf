-- ===== src/Fs/Pipe/Rounds.antt =====
-- Any interleaving of rounds: the pipe is a FIFO.
use mathlib.Core.List.{append-nil, append_assoc}
use hobby_os.Prelude.{
  ℕ, ◌-◌, ◌<◌, ◌≡◌, sym, ap, ◌∙◌, ◌≢◌, inl, inr, List, [], ◌∷◌, ◌++◌, arith, length, take, min,
  half_word, Bool-cases, ==_iff, ◌==◌, ltb, ltb→lt, All,
}
use hobby_os.Fs.Pipe.{
  Pipe, pipe_buf_size, Round, returns, yields, read_round, Written, broken, full, moved,
  write_round, on_open, on_close,
}
use hobby_os.Fs.Pipe.Queue.{
  IsValid, contents, read_round-some, read_round-empty, write_round-moves, write_round-still,
}

-- What processes do to a pipe, each under its lock, in any order.
pub data Event : Type 0 where
  reads : ℕ → Event
  writes : List ℕ → Event
  opens : ℕ → Event
  closes : ℕ → Event

-- The pipe with all bytes that its readers got and all that its writers moved in, in order.
pub record Log : Type 0 where
  pub pipe : Pipe
  pub got : List ℕ
  pub put : List ℕ

unfoldable pub read_event : Log → Round (List ℕ) × Pipe → Log
read_event l (returns bs, p) = record { pipe = p; got = l.got ++ bs; put = l.put }
read_event l (yields, p) = record l { pipe = p }

unfoldable pub write_event : Log → List ℕ → Written × Pipe → Log
write_event l src (moved n, p) = record { pipe = p; got = l.got; put = l.put ++ take n src }
write_event l src (full, p) = record l { pipe = p }
write_event l src (broken, p) = record l { pipe = p }

unfoldable pub event : Log → Event → Log
unfolding read_event write_event
event l (reads len) = read_event l (read_round l.pipe len)
event l (writes src) = write_event l src (write_round l.pipe src)
event l (opens flags) = record l { pipe = on_open l.pipe flags }
event l (closes flags) = record l { pipe = (on_close l.pipe flags).1 }

unfoldable pub run : Log → List Event → Log
run l [] = l
run l (e ∷ es) = run (event l e) es

-- The buffers that writers hand over are shorter than 4 GiB.
abbrev pub IsShort : Event → Type 0
IsShort (writes src) = length src < half_word
IsShort e = Unit

-- Nothing is lost, doubled or reordered.
pub record Flows (l : Log) : Type 0 where
  pub valid : IsValid l.pipe
  pub order : l.put ≡ l.got ++ contents l.pipe

reads-Flows : (l : Log) (len : ℕ) → Flows l → Flows (event l (reads len))
unfolding event
reads-Flows l len f = elim (Bool-cases (l.pipe.count == 0)) [
  | inl empty ↦
      let e : l.pipe.count ≡ 0 = (==_iff _ _).0 empty in
      let (wait, end) = read_round-empty l.pipe len e in
      elim (Bool-cases (l.pipe.writers == 0)) [
        | inl closed ↦
            rw (end (ground arith)) (record { valid = f.valid; order = rw append-nil f.order })
        | inr open_end ↦ rw (wait (λ w. ground arith)) (record { valid = f.valid; order = f.order })
      ]
  | inr some_bytes ↦
      let (p', bs, done, valid, split, _) = read_round-some l.pipe len f.valid (ground arith) in
      rw done (record {
        valid = valid;
        order = f.order ∙ ap (◌++◌ l.got) split ∙ sym (append_assoc l.got bs (contents p'));
      })
]

writes-Flows :
    (l : Log) (src : List ℕ) → length src < half_word → Flows l → Flows (event l (writes src))
unfolding event
writes-Flows l src short f =
    let (no_one, no_room) = write_round-still l.pipe src f.valid in
    elim (Bool-cases (l.pipe.readers == 0)) [
      | inl closed ↦ rw (no_one (ground arith)) (record { valid = f.valid; order = f.order })
      | inr open_end ↦
          let reader : l.pipe.readers ≢ 0 = λ r. absurd (ground arith) in
          elim (Bool-cases (ltb l.pipe.count pipe_buf_size)) [
            | inr none_left ↦
                let e : l.pipe.count ≡ pipe_buf_size = ground (arith, f.valid.count_in) in
                rw (no_room reader e) (record { valid = f.valid; order = f.order })
            | inl room ↦
                let (p', done, valid, appended) =
                  write_round-moves l.pipe src f.valid reader (ltb→lt _ _ room) short in
                rw done (record {
                  valid = valid;
                  order =
                      ap (λ t. t ++ take (min (length src) (pipe_buf_size - l.pipe.count)) src)
                        f.order
                      ∙ append_assoc l.got (contents l.pipe) _
                      ∙ ap (◌++◌ l.got) (sym appended);
                })
          ]
    ]

-- Only the ends differ.
record SameRing (p q : Pipe) : Type 0 where
  buf : q.buf ≡ p.buf
  head : q.head ≡ p.head
  tail : q.tail ≡ p.tail
  count : q.count ≡ p.count

Flows-same : (l : Log) (q : Pipe) → SameRing l.pipe q → Flows l → Flows (record l { pipe = q })
Flows-same l q s f = record {
  valid = record {
    storage = rw s.buf f.valid.storage;
    head_in = rw s.head f.valid.head_in;
    tail_in = rw s.tail f.valid.tail_in;
    count_in = rw s.count f.valid.count_in;
    behind = rw (s.head, s.tail, s.count) f.valid.behind;
  };
  order = rw (s.buf, s.tail, s.count) f.order;
}

on_open-SameRing : (p : Pipe) (flags : ℕ) → SameRing p (on_open p flags)
unfolding on_open
on_open-SameRing p flags = ground arith

on_close-SameRing : (p : Pipe) (flags : ℕ) → SameRing p (on_close p flags).1
unfolding on_close
on_close-SameRing p flags = ground arith

opens-Flows : (l : Log) (flags : ℕ) → Flows l → Flows (event l (opens flags))
unfolding event
opens-Flows l flags = Flows-same l (on_open l.pipe flags) (on_open-SameRing l.pipe flags)

closes-Flows : (l : Log) (flags : ℕ) → Flows l → Flows (event l (closes flags))
unfolding event
closes-Flows l flags = Flows-same l (on_close l.pipe flags).1 (on_close-SameRing l.pipe flags)

-- From a log of a well-formed pipe whose bytes written are the bytes read and those in the pipe,
-- whatever rounds of `read` and `write` (of less than 4 GiB each) and whatever opens and closes happen
-- in whatever order, the pipe stays well formed, and the bytes that went in are the bytes that came
-- out followed by those still in the pipe, in order.
pub run-Flows : (es : List Event) (l : Log) → All IsShort es → Flows l → Flows (run l es)
unfolding run
run-Flows [] l s f = f
run-Flows (reads len ∷ es) l s f = run-Flows es (event l (reads len)) s.1 (reads-Flows l len f)
run-Flows (writes src ∷ es) l s f =
    run-Flows es (event l (writes src)) s.1 (writes-Flows l src s.0 f)
run-Flows (opens flags ∷ es) l s f =
    run-Flows es (event l (opens flags)) s.1 (opens-Flows l flags f)
run-Flows (closes flags ∷ es) l s f =
    run-Flows es (event l (closes flags)) s.1 (closes-Flows l flags f)
