-- ===== src/Proc/Signal/Pending.antt =====
-- Which signal `dequeue` of kernel/proc/signal/signal_handler.cpp takes, and what `send` adds.
use hobby_os.Prelude.{
  ℕ, zero, suc, ◌+◌, ◌-◌, ◌^◌, ◌≤◌, ◌<◌, min, true, false, not, ◌&&◌, pos, ltb, leb, ◌==◌, bit_and,
  bit_or, bit, bit-bit_and, bit-bit_or, bit-complement, bit-pow_self, bit-pow_ne, bit-le-one, ◌≡◌,
  sym, ap, ◌∙◌, ◌≢◌, ◌⊎◌, inl, inr, arith, word, Bool-cases, ==_iff, zero-bits, bit_clear, bit_set,
  bit_and-le_left, bit-zero,
}
use native.Mathlib.Nat.{pow-le-pow_right}
use hobby_os.Proc.Signal.{
  SignalHandler, send, dequeue, first_bit, unmasked, nsig, sig_bit, sig_unblockable, sig_ign,
  action_of,
}

-- Signal k + 1 is pending and the mask does not hold it back.
unfoldable pub Ready : SignalHandler → ℕ → ℕ → Type 0
Ready sh mask k = (bit sh.pending k ≡ 1) × (bit mask k ≡ 0)

bit-unmasked :
    (x m k : ℕ) → m < word → k < 64 → bit (bit_and x (unmasked m)) k ≡ min (bit x k) (1 - bit m k)
bit-unmasked x m k h lt =
    bit-bit_and x (unmasked m) k ∙ ap (min (bit x k)) (bit-complement 64 m k h lt)

-- What the loop of `dequeue` finds from bit b on, in n steps.
unfoldable First : ℕ → ℕ → ℕ → ℕ → Type 0
First d b n r =
    ((b ≤ r) × (r ≤ b + n)) × (((j : ℕ) → b ≤ j → j < r → bit d j ≡ 0) × (r < b + n → bit d r ≡ 1))

compare_below : (r n : ℕ) → (r < n) ⊎ (n ≤ r)
compare_below r n = ground arith

same_or_above : (i j : ℕ) → i ≤ j → (i ≡ j) ⊎ (suc i ≤ j)
same_or_above i j h = ground arith

First-bit_next : (d b n r : ℕ) → bit d b ≡ 0 → First d (suc b) n r → First d b (suc n) r
unfolding First
First-bit_next d b n r clear h =
    let lo = h.0.0 in
    let hi = h.0.1 in
    (
      (omega arith, omega arith),
      (
        λ j from to. elim (same_or_above b j from) [
          | inl same ↦ ap (bit d) (sym same) ∙ clear
          | inr above ↦ h.1.0 j above to
        ],
        λ lt. h.1.1 (omega arith),
      ),
    )

first_bit-First : (d b n : ℕ) → First d b n (first_bit d b n)
unfolding First
first_bit-First d b zero =
    ((omega arith, omega arith), (λ j lo hi. absurd (omega arith), λ lt. absurd (omega arith)))
first_bit-First d b (suc n) = elim (Bool-cases (bit_and d (2 ^ b) == 0)) [
  | inl clear ↦ rw clear (
      First-bit_next d b n (first_bit d (suc b) n) (bit_clear d b ((==_iff _ _).0 clear))
        (first_bit-First d (suc b) n))
  | inr found ↦ rw found (
    (omega arith, omega arith),
    (λ j lo hi. absurd (omega arith), λ lt. bit_set d b (λ e. ground arith)),
  )
]

-- What `dequeue` promises: 0, when no signal is ready, or the lowest signal that is, which is no longer
-- pending, the others being as before.
unfoldable pub Takes : SignalHandler → ℕ → ℕ × SignalHandler → Type 0
Takes sh mask r =
    ((r ≡ (0, sh)) × ((k : ℕ) → k < nsig - 1 → ¬ Ready sh mask k))
    ⊎ ((k : ℕ) × (((r.0 ≡ k + 1) × (k < nsig - 1))
          × ((Ready sh mask k × ((j : ℕ) → j < k → ¬ Ready sh mask j))
              × ((bit r.1.pending k ≡ 0)
                  × ((j : ℕ) → k ≢ j → j < 64 → bit r.1.pending j ≡ bit sh.pending j)))))

Ready-bit :
    (sh : SignalHandler) (m k : ℕ)
    → m < word
    → k < 64
    → bit (bit_and sh.pending (unmasked m)) k ≡ 1
    → Ready sh m k
unfolding Ready
Ready-bit sh m k h lt e =
    let deliverable = bit-unmasked sh.pending m k h lt in
    let a = bit-le-one sh.pending k in let b = bit-le-one m k in (omega arith, omega arith)

bit-Ready :
    (sh : SignalHandler) (m k : ℕ)
    → m < word
    → k < 64
    → bit (bit_and sh.pending (unmasked m)) k ≡ 0
    → ¬ Ready sh m k
unfolding Ready
bit-Ready sh m k h lt e r =
    let deliverable = bit-unmasked sh.pending m k h lt in let a = r.0 in let b = r.1 in omega arith

deliverable-lt : (p m : ℕ) → p < 2 ^ (nsig - 1) → bit_and p m < 2 ^ (nsig - 1)
deliverable-lt p m h = omega (arith, bit_and-le_left p m)

dequeue_none :
    (sh : SignalHandler) (m : ℕ)
    → (bit_and sh.pending (unmasked m) == 0) ≡ true
    → dequeue sh m ≡ (0, sh)
unfolding dequeue
dequeue_none sh m e = rw (e, dequeue)

dequeue_some :
    (sh : SignalHandler) (m : ℕ)
    → (bit_and sh.pending (unmasked m) == 0) ≡ false
    → dequeue sh m ≡ (
      first_bit (bit_and sh.pending (unmasked m)) 0 (nsig - 1) + 1,
      record sh {
        pending =
            bit_and sh.pending
              (unmasked (2 ^ first_bit (bit_and sh.pending (unmasked m)) 0 (nsig - 1)));
      },
    )
unfolding dequeue
dequeue_some sh m e = rw (e, dequeue)

-- What is left of the pending set, at the bit that was taken and at another.
pow-below : (b : ℕ) → b < nsig - 1 → 2 ^ b < word
pow-below b h =
    let le : 2 ^ b ≤ 2 ^ 63 = pow-le-pow_right (omega arith) {i = b} {j = 63} (omega arith) in
    omega arith

clear_bit :
    (x b j : ℕ)
    → b < nsig - 1
    → j < 64
    → bit (bit_and x (unmasked (2 ^ b))) j ≡ min (bit x j) (1 - bit (2 ^ b) j)
clear_bit x b j h lt = bit-unmasked x (2 ^ b) j (pow-below b h) lt

clear_bit_self : (x b : ℕ) → b < nsig - 1 → bit (bit_and x (unmasked (2 ^ b))) b ≡ 0
clear_bit_self x b h = omega (arith, clear_bit x b b h (omega arith), bit-pow_self b)

clear_bit_ne :
    (x b j : ℕ) → b < nsig - 1 → b ≢ j → j < 64 → bit (bit_and x (unmasked (2 ^ b))) j ≡ bit x j
clear_bit_ne x b j h ne lt = omega (arith, clear_bit x b j h lt, bit-pow_ne b j ne, bit-le-one x j)

found_inside : (d r : ℕ) → d < 2 ^ (nsig - 1) → d ≢ 0 → First d 0 (nsig - 1) r → r < nsig - 1
unfolding First
found_inside d r small ne h = elim (compare_below r (nsig - 1)) [
  | inl below ↦ below
  | inr above ↦
      absurd (ne (zero-bits (nsig - 1) d small (λ j lt. h.1.0 j (omega arith) (omega arith))))
]

-- With pending signals of 1 to 31 only and a mask of 64 bits, `dequeue` takes the lowest signal that
-- is pending and not masked, and no other stops being pending; it answers 0 and changes nothing when
-- there is none.
pub dequeue-Takes :
    (sh : SignalHandler) (m : ℕ)
    → sh.pending < 2 ^ (nsig - 1)
    → m < word
    → Takes sh m (dequeue sh m)
unfolding Takes First
dequeue-Takes sh m small h = elim (Bool-cases (bit_and sh.pending (unmasked m) == 0)) [
  | inl clear ↦ inl (
    dequeue_none sh m clear,
    λ k lt.
        bit-Ready sh m k h (omega arith) (ap (λ d. bit d k) ((==_iff _ _).0 clear) ∙ bit-zero k),
  )
  | inr any ↦
      let d = bit_and sh.pending (unmasked m) in
      let b = first_bit d 0 (nsig - 1) in
      let found = first_bit-First d 0 (nsig - 1) in
      let small_d = deliverable-lt sh.pending (unmasked m) small in
      let inside = found_inside d b small_d (λ e. ground arith) found in
      let same = dequeue_some sh m any in
      inr (
        b,
        (
          (ap (λ r. r.0) same, inside),
          (
            (
              Ready-bit sh m b h (omega arith) (found.1.1 inside),
              λ j lt. bit-Ready sh m j h (omega arith) (found.1.0 j (omega arith) lt),
            ),
            (
              ap (λ r. bit r.1.pending b) same ∙ clear_bit_self sh.pending b inside,
              λ j ne lt.
                  ap (λ r. bit r.1.pending j) same ∙ clear_bit_ne sh.pending b j inside ne lt,
            ),
          ),
        ),
      )
]

-- A signal that `send` does not drop becomes pending, and no other signal does.
unfoldable pub Accepts : SignalHandler → ℕ → Type 0
Accepts sh s =
    ((1 ≤ s) × (s < nsig))
    × ((not (sig_unblockable s) && (action_of sh s).handler == sig_ign) ≡ false)

in_signals : (s : ℕ) → 1 ≤ s → s < nsig → (leb 1 s && ltb s nsig) ≡ true
in_signals s lo hi = ground arith

sig_bit-pow : (s : ℕ) → 1 ≤ s → s < nsig → sig_bit s ≡ 2 ^ (s - 1)
sig_bit-pow s lo hi = rw (in_signals s lo hi)

send_accepted :
    (sh : SignalHandler) (s : ℕ)
    → Accepts sh s
    → send sh (pos s) ≡ record sh { pending = bit_or sh.pending (2 ^ (s - 1)) }
unfolding send Accepts
send_accepted sh s h =
    rw (in_signals s h.0.0 h.0.1, h.1, send)
      (ap (λ b. record sh { pending = bit_or sh.pending b }) (sig_bit-pow s h.0.0 h.0.1))

send_dropped :
    (sh : SignalHandler) (s : ℕ)
    → (not (sig_unblockable s) && (action_of sh s).handler == sig_ign) ≡ true
    → send sh (pos s) ≡ sh
unfolding send
send_dropped sh s h = elim (Bool-cases (leb 1 s && ltb s nsig)) [
  | inl inside ↦ rw (inside, h, send)
  | inr outside ↦ rw (outside, send)
]

-- A signal of 1 to 31 that can not be blocked, or whose action is not to ignore it, becomes pending when it
-- is sent, and no other signal does.
pub send-bit :
    (sh : SignalHandler) (s : ℕ)
    → Accepts sh s
    → (bit (send sh (pos s)).pending (s - 1) ≡ 1)
      × ((j : ℕ) → s - 1 ≢ j → bit (send sh (pos s)).pending j ≡ bit sh.pending j)
send-bit sh s h =
    let same = send_accepted sh s h in
    let a = bit-le-one sh.pending (s - 1) in
    (
      ap (λ t. bit t.pending (s - 1)) same
          ∙ omega (arith, bit-bit_or sh.pending (2 ^ (s - 1)) (s - 1), bit-pow_self (s - 1)),
      λ j ne.
          ap (λ t. bit t.pending j) same
          ∙ omega (arith, bit-bit_or sh.pending (2 ^ (s - 1)) j, bit-pow_ne (s - 1) j ne),
    )
