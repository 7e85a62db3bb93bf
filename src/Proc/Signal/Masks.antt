-- ===== src/Proc/Signal/Masks.antt =====
-- That SIGKILL and SIGSTOP stay deliverable, and what holds of a SignalHandler at all times.
use hobby_os.Prelude.{
  if_both, elim_both, ℕ, ◌-◌, Bool, Option, none, some, ℤ, ◌==◌, if◌then◌else◌, bit_and, bit_or,
  bit, bit-bit_and, bit-bit_or, ◌≡◌, arith,
}
use hobby_os.Proc.Signal.{
  SignalAction, SignalHandler, dequeue, sig_kill, sig_stop, sig_dfl, sig_ign, action_of, blockable,
}
use hobby_os.Proc.Signal.Dispatch.{
  Thread, Outcome, deliver, signal_dispatch, dispatch_from, new_mask, frame_address, sigprocmask,
}

-- A mask that holds back neither SIGKILL nor SIGSTOP.
unfoldable pub LetsKill : ℕ → Type 0
LetsKill mask = (bit mask (sig_kill - 1) ≡ 0) × (bit mask (sig_stop - 1) ≡ 0)

pub blockable-LetsKill : (x : ℕ) → LetsKill (bit_and x blockable)
unfolding LetsKill bit
blockable-LetsKill x = (
  omega (arith, bit-bit_and x blockable (sig_kill - 1)),
  omega (arith, bit-bit_and x blockable (sig_stop - 1)),
)

bit_or-LetsKill : (x y : ℕ) → LetsKill x → LetsKill y → LetsKill (bit_or x y)
unfolding LetsKill
bit_or-LetsKill x y h g =
    let a = h.0 in
    let b = h.1 in
    let c = g.0 in
    let d = g.1 in
    (omega (arith, bit-bit_or x y (sig_kill - 1)), omega (arith, bit-bit_or x y (sig_stop - 1)))

sigprocmask_mask :
    (m how : ℕ) (mask : Option ℕ) → LetsKill m → LetsKill (sigprocmask m how mask).0.1
unfolding sigprocmask
sigprocmask_mask m how none h = h
sigprocmask_mask m how (some mask) h =
    elim_both (λ (r : (ℤ × ℕ) × ℕ). LetsKill r.0.1) (new_mask how m mask) h
      (λ n. blockable-LetsKill n)

abbrev Fine : Outcome × Thread → Type 0
Fine r = LetsKill r.1.sig_mask

deliver-LetsKill :
    (writes : ℕ → Bool) (t : Thread) (s : ℕ) (a : SignalAction)
    → LetsKill t.sig_mask
    → LetsKill (deliver writes t s a).1.sig_mask
unfolding deliver
deliver-LetsKill writes t s a h = if_both Fine (a.handler == sig_dfl) h (
    if_both Fine (a.handler == sig_ign) h (
      if_both Fine (writes (frame_address t.frame.sp))
        (bit_or-LetsKill t.sig_mask (bit_and a.mask blockable) h (blockable-LetsKill a.mask)) h))

dispatch_from-LetsKill :
    (writes : ℕ → Bool) (t : Thread) (sh : SignalHandler)
    → LetsKill t.sig_mask
    → Fine (dispatch_from writes t sh)
dispatch_from-LetsKill writes t sh h =
    let taken = dequeue sh t.sig_mask in
    if_both Fine (taken.0 == 0) h (
      deliver-LetsKill writes (record t { signals = some taken.1 }) taken.0
        (action_of taken.1 taken.0) h)

-- From a mask that holds back neither SIGKILL nor SIGSTOP, neither `signal_dispatch` nor `sigprocmask`
-- makes one that does.
pub mask-LetsKill :
    (writes : ℕ → Bool) (t : Thread)
    → LetsKill t.sig_mask
    → LetsKill (signal_dispatch writes t).1.sig_mask
      × ((how : ℕ) (mask : Option ℕ) → LetsKill (sigprocmask t.sig_mask how mask).0.1)
unfolding signal_dispatch
mask-LetsKill writes t h = (
  elim_both Fine (if t.in_process then t.signals else none) h
      (λ sh. dispatch_from-LetsKill writes t sh h),
  λ how mask. sigprocmask_mask t.sig_mask how mask h,
)
