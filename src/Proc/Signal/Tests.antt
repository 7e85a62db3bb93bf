-- ===== src/Proc/Signal/Tests.antt =====
-- The theorems on signals, each applied to a small process.
use hobby_os.Prelude.{ℕ, ◌≡◌, refl, true, Option, some, [], ◌∷◌, pos, arith, bit}
use hobby_os.Proc.Signal.{SignalAction, SignalHandler, init, dequeue}
use hobby_os.Proc.Signal.Frames.{TrapFrame}
use hobby_os.Proc.Signal.Dispatch.{Thread, deliver, signal_dispatch, sigprocmask, sys_rt_sigreturn}
use hobby_os.Proc.Signal.Pending.{Takes, dequeue-Takes}
use hobby_os.Proc.Signal.Masks.{LetsKill, mask-LetsKill}
use hobby_os.Proc.Signal.Invariant.{sends, sets, dequeues, resets, run, IsValid, run-IsValid}
use hobby_os.Proc.Signal.Return.{Unwound, sigreturn-deliver}

-- A handler at 0x4000 that masks signals 1 and 9.
abbrev action : SignalAction
action = record { handler = 0x4000; flags = 0; restorer = 0; mask = 0x101 }

-- Signals 3 and 10 are pending.
abbrev handler : SignalHandler
handler = record init { pending = 0x204 }

abbrev registers : TrapFrame
registers = record {
  sepc = 0x1000;
  ra = 0;
  sp = 0x8000;
  gp = 0;
  tp = 0;
  t0 = 0;
  t1 = 0;
  t2 = 0;
  s0 = 0;
  s1 = 0;
  a0 = 0;
  a1 = 0;
  a2 = 0;
  a3 = 0;
  a4 = 0;
  a5 = 0;
  a6 = 0;
  a7 = 0;
  s2 = 0;
  s3 = 0;
  s4 = 0;
  s5 = 0;
  s6 = 0;
  s7 = 0;
  s8 = 0;
  s9 = 0;
  s10 = 0;
  s11 = 0;
  t3 = 0;
  t4 = 0;
  t5 = 0;
  t6 = 0;
  kstack = 0;
}

abbrev thread : Thread
thread = record {
  in_process = true;
  signals = some handler;
  sig_mask = 4;
  frame = registers;
  memory = λ _. 0;
}

dequeue-Takes_example : Takes handler 4 (dequeue handler 4)
dequeue-Takes_example = dequeue-Takes handler 4 (omega arith) (omega arith)

run-IsValid_example :
    IsValid (run init (sends (pos 15) ∷ sets (pos 15) (some action) ∷ dequeues 0 ∷ resets ∷ []))
run-IsValid_example =
    run-IsValid (sends (pos 15) ∷ sets (pos 15) (some action) ∷ dequeues 0 ∷ resets ∷ [])

mask-LetsKill_example :
    LetsKill (signal_dispatch (λ _. true) thread).1.sig_mask
    × ((how : ℕ) (mask : Option ℕ) → LetsKill (sigprocmask 4 how mask).0.1)
unfolding LetsKill bit
mask-LetsKill_example = mask-LetsKill (λ _. true) thread (refl, refl)

sigreturn-deliver_example :
    sys_rt_sigreturn (λ _. true) (deliver (λ _. true) thread 10 action).1
    ≡ (pos 0, record ((deliver (λ _. true) thread 10 action).1) { frame = registers; sig_mask = 4 })
unfolding Unwound deliver
sigreturn-deliver_example =
    sigreturn-deliver (λ _. true) (λ _. true) thread 10 action (omega arith) (omega arith) refl refl
      (deliver (λ _. true) thread 10 action).1 ((refl, refl), refl)
