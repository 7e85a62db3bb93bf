-- ===== src/Proc/Signal/Return.antt =====
-- That a handler returns to what it interrupted: `signalDispatch` of
-- kernel/proc/signal/signal_handler.cpp against `sys_rt_sigreturn` of kernel/trap/syscall/syscall.cpp.
use hobby_os.Prelude.{ℕ, Bool, true, false, ◌==◌, pos, ◌≡◌, ap, ◌∙◌, ◌≢◌, arith}
use hobby_os.Proc.Signal.Frames.{SignalFrame, load_frame, load_frame-store_frame}
use hobby_os.Proc.Signal.{SignalAction, sig_dfl, sig_ign}
use hobby_os.Proc.Signal.Dispatch.{
  Thread, goes_on, deliver, enter, frame_address, frame_of, restored, sys_rt_sigreturn,
}

deliver_entered :
    (writes : ℕ → Bool) (t : Thread) (s : ℕ) (a : SignalAction)
    → a.handler ≢ sig_dfl
    → a.handler ≢ sig_ign
    → writes (frame_address t.frame.sp) ≡ true
    → deliver writes t s a ≡ (goes_on, enter t s a)
unfolding deliver
deliver_entered writes t s a caught heard fits =
    let x : (a.handler == sig_dfl) ≡ false = ground arith in
    let y : (a.handler == sig_ign) ≡ false = ground arith in rw (x, y, fits, deliver)

-- A thread that a handler left as it found it: the stack pointer, and the frame that it points to.
unfoldable pub Unwound : Thread → Thread → Type 0
Unwound entered t =
    ((t.in_process ≡ true) × (t.frame.sp ≡ entered.frame.sp))
    × (load_frame t.memory t.frame.sp ≡ load_frame entered.memory entered.frame.sp)

sigreturn_permitted :
    (reads : ℕ → Bool) (t : Thread) (f : SignalFrame)
    → t.in_process ≡ true
    → reads t.frame.sp ≡ true
    → load_frame t.memory t.frame.sp ≡ f
    → sys_rt_sigreturn reads t
      ≡ (pos f.a0, record t { frame = restored t.frame f; sig_mask = f.saved_mask })
unfolding sys_rt_sigreturn
sigreturn_permitted reads t f inside fits e = rw (inside, fits, e, sys_rt_sigreturn)

-- When a signal is delivered to a handler (neither default nor ignored, with a frame that may be
-- written), and a thread of a process comes back with the stack pointer that the handler was given and
-- the frame as it was stored there, which may be read, `sys_rt_sigreturn` restores every register and
-- the mask of the interrupted thread, and returns its a0.
pub sigreturn-deliver :
    (writes reads : ℕ → Bool) (t : Thread) (s : ℕ) (a : SignalAction)
    → a.handler ≢ sig_dfl
    → a.handler ≢ sig_ign
    → writes (frame_address t.frame.sp) ≡ true
    → reads (frame_address t.frame.sp) ≡ true
    → (later : Thread) → Unwound (deliver writes t s a).1 later
    → sys_rt_sigreturn reads later
      ≡ (pos t.frame.a0, record later { frame = t.frame; sig_mask = t.sig_mask })
unfolding Unwound
sigreturn-deliver writes reads t s a caught heard fits readable later h =
    let same = ap (λ r. r.1) (deliver_entered writes t s a caught heard fits) in
    let sp_same = h.0.1 ∙ ap (λ u. u.frame.sp) same in
    sigreturn_permitted reads later (frame_of t s) h.0.0 (ap reads sp_same ∙ readable) (
      h.1
      ∙ ap (λ u. load_frame u.memory u.frame.sp) same
      ∙ load_frame-store_frame t.memory (frame_address t.frame.sp) (frame_of t s))
