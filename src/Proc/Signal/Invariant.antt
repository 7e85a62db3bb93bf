-- ===== src/Proc/Signal/Invariant.antt =====
-- What holds of a SignalHandler of kernel/proc/signal/signal_handler.cpp after any calls.
use hobby_os.Prelude.{
  replicate, get_or-set_ne, if_both, elim_both, ℕ, zero, suc, ◌-◌, ◌^◌, ◌≤◌, ◌<◌, true, false, ◌&&◌,
  Option, List, [], ◌∷◌, ℤ, ltb, leb, ◌==◌, bit_and, map, set, get_or, ◌≡◌, refl, ap, ◌∙◌, ◌≢◌, inl,
  inr, arith, Bool-cases, bit_or-lt, bit_and-le_left, bit-zero, All, length, length-set, length-map,
}
use native.Mathlib.Nat.{pow-le-pow_right}
use hobby_os.Proc.Signal.{
  SignalAction, SignalHandler, init, clone, acquire, release, send, dequeue, set_action,
  reset_for_exec, unmasked, nsig, sig_bit, sig_kill, sig_stop, sig_unblockable, sig_dfl, sig_ign,
  action_of, in_range, default_action, reset_action, set_checked,
}
use hobby_os.Proc.Signal.Masks.{LetsKill, blockable-LetsKill}

-- What holds of a handler at all times: its pending signals are 1 to 31, there is an action for each, no
-- action masks SIGKILL or SIGSTOP, and the actions of these two are the default ones.
unfoldable pub IsValid : SignalHandler → Type 0
IsValid sh =
    ((sh.pending < 2 ^ (nsig - 1)) × (length sh.actions ≡ nsig))
    × (All (λ a. LetsKill a.mask) sh.actions
        × (((action_of sh sig_kill).handler ≡ sig_dfl)
            × ((action_of sh sig_stop).handler ≡ sig_dfl)))

-- The operations that the process's threads call.
pub data Call : Type 0 where
  sends : ℤ → Call
  dequeues : ℕ → Call
  sets : ℤ → Option SignalAction → Call
  resets acquires releases clones : Call

unfoldable pub call : SignalHandler → Call → SignalHandler
call sh (sends signum) = send sh signum
call sh (dequeues mask) = (dequeue sh mask).1
call sh (sets signum act) = (set_action sh signum act).0.1
call sh resets = reset_for_exec sh
call sh acquires = acquire sh
call sh releases = (release sh).1
call sh clones = clone sh

unfoldable pub run : SignalHandler → List Call → SignalHandler
unfolding call
run sh [] = sh
run sh (c ∷ cs) = run (call sh c) cs

sig_pow-lt : (s : ℕ) → (leb 1 s && ltb s nsig) ≡ true → 2 ^ (s - 1) < 2 ^ (nsig - 1)
sig_pow-lt s h =
    let small : s - 1 ≤ 30 = ground arith in
    let le : 2 ^ (s - 1) ≤ 2 ^ 30 = pow-le-pow_right (omega arith) {i = s - 1} {j = 30} small in
    omega arith

sig_bit-lt : (s : ℕ) → sig_bit s < 2 ^ (nsig - 1)
sig_bit-lt s = elim (Bool-cases (leb 1 s && ltb s nsig)) [
  | inl inside ↦ rw inside (sig_pow-lt s inside)
  | inr outside ↦ rw outside (omega arith)
]

send-IsValid : (sh : SignalHandler) (signum : ℤ) → IsValid sh → IsValid (send sh signum)
unfolding send IsValid
send-IsValid sh signum h = elim_both IsValid (in_range signum) h (λ s.
    if_both IsValid _ h
      ((bit_or-lt (nsig - 1) sh.pending (sig_bit s) h.0.0 (sig_bit-lt s), h.0.1), h.1))

dequeue-IsValid : (sh : SignalHandler) (m : ℕ) → IsValid sh → IsValid (dequeue sh m).1
unfolding dequeue IsValid
dequeue-IsValid sh m h =
    if_both (λ (r : ℕ × SignalHandler). IsValid r.1) (bit_and sh.pending (unmasked m) == 0) h
      ((shrinks _, h.0.1), h.1)
  where
    shrinks : (x : ℕ) → bit_and sh.pending x < 2 ^ (nsig - 1)
    shrinks x = let small = h.0.0 in omega (arith, bit_and-le_left sh.pending x)

All-set {ℓ κ} :
    {A : Type ℓ} (P : A → Type κ) (xs : List A) (i : ℕ) (v : A)
    → All P xs
    → P v
    → All P (set xs i v)
All-set P [] i v h p = h
All-set P (x ∷ xs) zero v h p = (p, h.1)
All-set P (x ∷ xs) (suc i) v h p = (h.0, All-set P xs i v h.1 p)

All-replicate {ℓ κ} : {A : Type ℓ} (P : A → Type κ) (n : ℕ) (v : A) → P v → All P (replicate n v)
All-replicate P zero v p = tt
All-replicate P (suc n) v p = (p, All-replicate P n v p)

write-IsValid :
    (sh : SignalHandler) (s : ℕ) (a : SignalAction)
    → sig_unblockable s ≡ false
    → LetsKill a.mask
    → IsValid sh
    → IsValid (record sh { actions = set sh.actions s a })
unfolding IsValid
write-IsValid sh s a other lets h =
    let kill : s ≢ sig_kill = λ e. ground arith in
    let halt : s ≢ sig_stop = λ e. ground arith in
    (
      (h.0.0, length-set sh.actions s a ∙ h.0.1),
      (
        All-set (λ x. LetsKill x.mask) sh.actions s a h.1.0 lets,
        (
          ap (λ x. x.handler) (get_or-set_ne sh.actions s sig_kill a default_action kill) ∙ h.1.1.0,
          ap (λ x. x.handler) (get_or-set_ne sh.actions s sig_stop a default_action halt) ∙ h.1.1.1,
        ),
      ),
    )

set_action-IsValid :
    (sh : SignalHandler) (signum : ℤ) (act : Option SignalAction)
    → IsValid sh
    → IsValid (set_action sh signum act).0.1
unfolding set_action
set_action-IsValid sh signum act h =
    elim_both (λ (r : (ℤ × SignalHandler) × Option SignalAction). IsValid r.0.1) (in_range signum) h
      (λ s.
        elim_both (λ (r : (ℤ × SignalHandler) × Option SignalAction). IsValid r.0.1) act h
          (λ a. set_one s a))
  where
    set_one : (s : ℕ) (a : SignalAction) → IsValid (set_checked sh s a).0.1
    set_one s a = elim (Bool-cases (sig_unblockable s)) [
      | inl fixed ↦ rw fixed h
      | inr free ↦ rw free (write-IsValid sh s _ free (blockable-LetsKill a.mask) h)
    ]

default_lets : LetsKill 0
unfolding LetsKill
default_lets = (bit-zero (sig_kill - 1), bit-zero (sig_stop - 1))

All-reset :
    (xs : List SignalAction)
    → All (λ a. LetsKill a.mask) xs
    → All (λ a. LetsKill a.mask) (map reset_action xs)
All-reset [] h = h
All-reset (x ∷ xs) h = (
  if_both (λ (a : SignalAction). LetsKill a.mask) (x.handler == sig_ign) h.0 default_lets,
  All-reset xs h.1,
)

get_or-reset :
    (xs : List SignalAction) (i : ℕ)
    → get_or (map reset_action xs) i default_action ≡ reset_action (get_or xs i default_action)
get_or-reset [] i = refl
get_or-reset (x ∷ xs) zero = refl
get_or-reset (x ∷ xs) (suc i) = get_or-reset xs i

reset_action_default : (a : SignalAction) → a.handler ≡ sig_dfl → (reset_action a).handler ≡ sig_dfl
reset_action_default a h = rw h

reset_for_exec-IsValid : (sh : SignalHandler) → IsValid sh → IsValid (reset_for_exec sh)
unfolding reset_for_exec IsValid
reset_for_exec-IsValid sh h = (
  (h.0.0, length-map sh.actions reset_action ∙ h.0.1),
  (
    All-reset sh.actions h.1.0,
    (
      ap (λ x. x.handler) (get_or-reset sh.actions sig_kill)
          ∙ reset_action_default (action_of sh sig_kill) h.1.1.0,
      ap (λ x. x.handler) (get_or-reset sh.actions sig_stop)
          ∙ reset_action_default (action_of sh sig_stop) h.1.1.1,
    ),
  ),
)

call-IsValid : (sh : SignalHandler) (c : Call) → IsValid sh → IsValid (call sh c)
unfolding call IsValid acquire release clone
call-IsValid sh (sends signum) h = send-IsValid sh signum h
call-IsValid sh (dequeues m) h = dequeue-IsValid sh m h
call-IsValid sh (sets signum act) h = set_action-IsValid sh signum act h
call-IsValid sh resets h = reset_for_exec-IsValid sh h
call-IsValid sh acquires h = h
call-IsValid sh releases h = h
call-IsValid sh clones h = ((omega arith, h.0.1), h.1)

init-IsValid : IsValid init
unfolding IsValid
init-IsValid = (
  (omega arith, refl),
  (All-replicate (λ x. LetsKill x.mask) nsig default_action default_lets, (refl, refl)),
)

run-IsValid_from : (sh : SignalHandler) (cs : List Call) → IsValid sh → IsValid (run sh cs)
unfolding run
run-IsValid_from sh [] h = h
run-IsValid_from sh (c ∷ cs) h = run-IsValid_from (call sh c) cs (call-IsValid sh c h)

-- Whatever calls a new handler has served, its pending signals are 1 to 31, it has 32 actions, none of
-- them masks SIGKILL or SIGSTOP, and the actions of SIGKILL and SIGSTOP are the default ones.
pub run-IsValid : (cs : List Call) → IsValid (run init cs)
run-IsValid cs = run-IsValid_from init cs init-IsValid
