-- ===== src/Proc/Signal/Frames.antt =====
-- kernel/trap/trapframe.h and the SignalFrame of kernel/proc/signal/signal.h: the registers of a user
-- thread, and the record of them that is copied to its stack, 35 words of 8 bytes. Memory is a function
-- from the address of a word to the word.
use hobby_os.Prelude.{
  ℕ, zero, suc, ◌+◌, List, [], ◌∷◌, update, get_or, ◌≡◌, refl, ap, ap₂, ◌∙◌, ◌<◌, length,
  update_self, update_ne, arith,
}

pub record TrapFrame : Type 0 where
  pub sepc : ℕ
  pub ra : ℕ
  pub sp : ℕ
  pub gp : ℕ
  pub tp : ℕ
  pub t0 : ℕ
  pub t1 : ℕ
  pub t2 : ℕ
  pub s0 : ℕ
  pub s1 : ℕ
  pub a0 : ℕ
  pub a1 : ℕ
  pub a2 : ℕ
  pub a3 : ℕ
  pub a4 : ℕ
  pub a5 : ℕ
  pub a6 : ℕ
  pub a7 : ℕ
  pub s2 : ℕ
  pub s3 : ℕ
  pub s4 : ℕ
  pub s5 : ℕ
  pub s6 : ℕ
  pub s7 : ℕ
  pub s8 : ℕ
  pub s9 : ℕ
  pub s10 : ℕ
  pub s11 : ℕ
  pub t3 : ℕ
  pub t4 : ℕ
  pub t5 : ℕ
  pub t6 : ℕ
  pub kstack : ℕ

pub record SignalFrame : Type 0 where
  pub signum : ℕ
  pub sepc : ℕ
  pub ra : ℕ
  pub sp : ℕ
  pub gp : ℕ
  pub tp : ℕ
  pub t0 : ℕ
  pub t1 : ℕ
  pub t2 : ℕ
  pub s0 : ℕ
  pub s1 : ℕ
  pub a0 : ℕ
  pub a1 : ℕ
  pub a2 : ℕ
  pub a3 : ℕ
  pub a4 : ℕ
  pub a5 : ℕ
  pub a6 : ℕ
  pub a7 : ℕ
  pub s2 : ℕ
  pub s3 : ℕ
  pub s4 : ℕ
  pub s5 : ℕ
  pub s6 : ℕ
  pub s7 : ℕ
  pub s8 : ℕ
  pub s9 : ℕ
  pub s10 : ℕ
  pub s11 : ℕ
  pub t3 : ℕ
  pub t4 : ℕ
  pub t5 : ℕ
  pub t6 : ℕ
  pub kstack : ℕ
  pub saved_mask : ℕ

abbrev pub Memory : Type 0
Memory = ℕ → ℕ

-- `sizeof(SignalFrame)`
abbrev pub frame_size : ℕ
frame_size = 280

abbrev encode : SignalFrame → List ℕ
encode f =
    f.signum ∷ f.sepc ∷ f.ra ∷ f.sp ∷ f.gp ∷ f.tp ∷ f.t0 ∷ f.t1 ∷ f.t2 ∷ f.s0 ∷ f.s1 ∷ f.a0 ∷ f.a1
    ∷ f.a2 ∷ f.a3 ∷ f.a4 ∷ f.a5 ∷ f.a6 ∷ f.a7 ∷ f.s2 ∷ f.s3 ∷ f.s4 ∷ f.s5 ∷ f.s6 ∷ f.s7 ∷ f.s8
    ∷ f.s9 ∷ f.s10 ∷ f.s11 ∷ f.t3 ∷ f.t4 ∷ f.t5 ∷ f.t6 ∷ f.kstack ∷ f.saved_mask ∷ []

abbrev decode : List ℕ → SignalFrame
decode ws = record {
  signum = get_or ws 0 0;
  sepc = get_or ws 1 0;
  ra = get_or ws 2 0;
  sp = get_or ws 3 0;
  gp = get_or ws 4 0;
  tp = get_or ws 5 0;
  t0 = get_or ws 6 0;
  t1 = get_or ws 7 0;
  t2 = get_or ws 8 0;
  s0 = get_or ws 9 0;
  s1 = get_or ws 10 0;
  a0 = get_or ws 11 0;
  a1 = get_or ws 12 0;
  a2 = get_or ws 13 0;
  a3 = get_or ws 14 0;
  a4 = get_or ws 15 0;
  a5 = get_or ws 16 0;
  a6 = get_or ws 17 0;
  a7 = get_or ws 18 0;
  s2 = get_or ws 19 0;
  s3 = get_or ws 20 0;
  s4 = get_or ws 21 0;
  s5 = get_or ws 22 0;
  s6 = get_or ws 23 0;
  s7 = get_or ws 24 0;
  s8 = get_or ws 25 0;
  s9 = get_or ws 26 0;
  s10 = get_or ws 27 0;
  s11 = get_or ws 28 0;
  t3 = get_or ws 29 0;
  t4 = get_or ws 30 0;
  t5 = get_or ws 31 0;
  t6 = get_or ws 32 0;
  kstack = get_or ws 33 0;
  saved_mask = get_or ws 34 0;
}

-- `memcpy` of words to and from user memory.
abbrev store_words : Memory → ℕ → List ℕ → Memory
store_words mem a [] = mem
store_words mem a (w ∷ ws) = store_words (update mem a w) (a + 8) ws

abbrev load_words : Memory → ℕ → ℕ → List ℕ
load_words mem a zero = []
load_words mem a (suc n) = mem a ∷ load_words mem (a + 8) n

unfoldable pub store_frame : Memory → ℕ → SignalFrame → Memory
store_frame mem a f = store_words mem a (encode f)

unfoldable pub load_frame : Memory → ℕ → SignalFrame
load_frame mem a = decode (load_words mem a 35)

store_words-below :
    (mem : Memory) (a : ℕ) (ws : List ℕ) (b : ℕ) → b < a → store_words mem a ws b ≡ mem b
store_words-below mem a [] b h = refl
store_words-below mem a (w ∷ ws) b h =
    store_words-below (update mem a w) (a + 8) ws b (omega arith)
    ∙ update_ne mem a w b (λ e. omega arith)

load_words-store_words :
    (mem : Memory) (a : ℕ) (ws : List ℕ) → load_words (store_words mem a ws) a (length ws) ≡ ws
load_words-store_words mem a [] = refl
load_words-store_words mem a (w ∷ ws) =
    ap₂ (λ x xs. x ∷ xs)
      (store_words-below (update mem a w) (a + 8) ws a (omega arith) ∙ update_self mem a w)
      (load_words-store_words (update mem a w) (a + 8) ws)

-- A frame read back from where it was stored is the frame.
pub load_frame-store_frame :
    (mem : Memory) (a : ℕ) (f : SignalFrame) → load_frame (store_frame mem a f) a ≡ f
unfolding load_frame store_frame
load_frame-store_frame mem a f = ap decode (load_words-store_words mem a (encode f))
