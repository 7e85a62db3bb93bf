-- ===== src/Proc/Signal/Dispatch.antt =====
-- `SignalHandler::signalDispatch` of kernel/proc/signal/signal_handler.cpp, `sys_rt_sigreturn` and
-- `sys_rt_sigpending` of kernel/trap/syscall/syscall.cpp, and `Process::sigprocmask` of
-- kernel/proc/process/process.cpp. `writes` and `reads` answer the process's checkOperation for a frame
-- at an address, with SEG_W and with SEG_R.
use hobby_os.Prelude.{
  ℕ, ◌^◌, Bool, not, ◌&&◌, Option, none, some, ℤ, pos, negsuc, ◌==◌, if◌then◌else◌, sub64, bit_and,
  bit_or,
}
use hobby_os.Proc.Signal.Frames.{
  TrapFrame, SignalFrame, Memory, frame_size, store_frame, load_frame,
}
use hobby_os.Proc.Signal.{
  SignalAction, SignalHandler, term, ign, core, stop, cont, sig_default_action, sig_dfl, sig_ign,
  action_of, blockable, unmasked, dequeue, has_pending,
}

-- A thread: whether it is of a process, the process's signals, its mask, registers and memory.
pub record Thread : Type 0 where
  pub in_process : Bool
  pub signals : Option SignalHandler
  pub sig_mask : ℕ
  pub frame : TrapFrame
  pub memory : Memory

-- What becomes of the thread: it goes on, its process exits by a signal or with a code, or it stops.
pub data Outcome : Type 0 where
  goes_on : Outcome
  exits_via : ℕ → Outcome
  exits_with : ℤ → Outcome
  stops : ℕ → Outcome

unfoldable pub execute_default : ℕ → Outcome
execute_default signum = elim (sig_default_action signum) [
  | term ↦ exits_via signum
  | ign ↦ goes_on
  | core ↦ exits_via signum
  | stop ↦ stops signum
  | cont ↦ goes_on
]

abbrev pub user_trampoline_addr : ℕ
user_trampoline_addr = 0x1000000000

abbrev pub sa_restorer : ℕ
sa_restorer = 2 ^ 26

abbrev pub frame_of : Thread → ℕ → SignalFrame
frame_of t signum = record {
  signum = signum;
  sepc = t.frame.sepc;
  ra = t.frame.ra;
  sp = t.frame.sp;
  gp = t.frame.gp;
  tp = t.frame.tp;
  t0 = t.frame.t0;
  t1 = t.frame.t1;
  t2 = t.frame.t2;
  s0 = t.frame.s0;
  s1 = t.frame.s1;
  a0 = t.frame.a0;
  a1 = t.frame.a1;
  a2 = t.frame.a2;
  a3 = t.frame.a3;
  a4 = t.frame.a4;
  a5 = t.frame.a5;
  a6 = t.frame.a6;
  a7 = t.frame.a7;
  s2 = t.frame.s2;
  s3 = t.frame.s3;
  s4 = t.frame.s4;
  s5 = t.frame.s5;
  s6 = t.frame.s6;
  s7 = t.frame.s7;
  s8 = t.frame.s8;
  s9 = t.frame.s9;
  s10 = t.frame.s10;
  s11 = t.frame.s11;
  t3 = t.frame.t3;
  t4 = t.frame.t4;
  t5 = t.frame.t5;
  t6 = t.frame.t6;
  kstack = t.frame.kstack;
  saved_mask = t.sig_mask;
}

-- Where `pushSignalFrame` puts the frame: below the stack pointer, at a multiple of 16.
abbrev pub frame_address : ℕ → ℕ
frame_address sp = bit_and (sub64 sp frame_size) (unmasked 15)

abbrev pub restorer_of : SignalAction → ℕ
restorer_of a =
    if not (bit_and a.flags sa_restorer == 0) && not (a.restorer == 0)
    then a.restorer
    else user_trampoline_addr

-- Entering the handler, once the frame is on the stack.
abbrev pub enter : Thread → ℕ → SignalAction → Thread
enter t signum a = record t {
  sig_mask = bit_or t.sig_mask (bit_and a.mask blockable);
  memory = store_frame t.memory (frame_address t.frame.sp) (frame_of t signum);
  frame = record t.frame {
    sp = frame_address t.frame.sp;
    a0 = signum;
    ra = restorer_of a;
    sepc = a.handler;
  };
}

-- The delivery of a signal with its action; the exit code is -SIGSEGV.
unfoldable pub deliver : (ℕ → Bool) → Thread → ℕ → SignalAction → Outcome × Thread
deliver writes t signum a =
    if a.handler == sig_dfl
    then (execute_default signum, t)
    else if a.handler == sig_ign
    then (goes_on, t)
    else if writes (frame_address t.frame.sp)
    then (goes_on, enter t signum a)
    else (exits_with (negsuc 10), t)

-- The rest of the delivery, when there is a handler to ask.
abbrev pub dispatch_from : (ℕ → Bool) → Thread → SignalHandler → Outcome × Thread
dispatch_from writes t sh =
    let taken = dequeue sh t.sig_mask in
    if taken.0 == 0
    then (goes_on, record t { signals = some taken.1 })
    else deliver writes (record t { signals = some taken.1 }) taken.0 (action_of taken.1 taken.0)

unfoldable pub signal_dispatch : (ℕ → Bool) → Thread → Outcome × Thread
signal_dispatch writes t = elim (if t.in_process then t.signals else none) [
  | none ↦ (goes_on, t)
  | some sh ↦ dispatch_from writes t sh
]

-- The registers that `sys_rt_sigreturn` sets from a frame.
abbrev pub restored : TrapFrame → SignalFrame → TrapFrame
restored tf frame = record tf {
  sepc = frame.sepc;
  ra = frame.ra;
  sp = frame.sp;
  gp = frame.gp;
  tp = frame.tp;
  t0 = frame.t0;
  t1 = frame.t1;
  t2 = frame.t2;
  s0 = frame.s0;
  s1 = frame.s1;
  a0 = frame.a0;
  a1 = frame.a1;
  a2 = frame.a2;
  a3 = frame.a3;
  a4 = frame.a4;
  a5 = frame.a5;
  a6 = frame.a6;
  a7 = frame.a7;
  s2 = frame.s2;
  s3 = frame.s3;
  s4 = frame.s4;
  s5 = frame.s5;
  s6 = frame.s6;
  s7 = frame.s7;
  s8 = frame.s8;
  s9 = frame.s9;
  s10 = frame.s10;
  s11 = frame.s11;
  t3 = frame.t3;
  t4 = frame.t4;
  t5 = frame.t5;
  t6 = frame.t6;
  kstack = frame.kstack;
}

-- `sys_rt_sigreturn`, and the value that it returns, as an integer of 64 bits.
unfoldable pub sys_rt_sigreturn : (ℕ → Bool) → Thread → ℤ × Thread
sys_rt_sigreturn reads t =
    if t.in_process
    then if reads t.frame.sp
      then (let frame = load_frame t.memory t.frame.sp in
          (pos frame.a0, record t { frame = restored t.frame frame; sig_mask = frame.saved_mask }))
      else (negsuc 13, t)
    else (negsuc 0, t)

-- `sigprocmask`, and what it writes to a non-null `oldset`; 0, 1 and 2 are SIG_BLOCK, SIG_UNBLOCK and
-- SIG_SETMASK.
abbrev pub new_mask : ℕ → ℕ → ℕ → Option ℕ
new_mask how mask set =
    if how == 0
    then some (bit_or mask set)
    else if how == 1
    then some (bit_and mask (unmasked set))
    else if how == 2
    then some set
    else none

unfoldable pub sigprocmask : ℕ → ℕ → Option ℕ → (ℤ × ℕ) × ℕ
sigprocmask mask how none = ((pos 0, mask), mask)
sigprocmask mask how (some set) = elim (new_mask how mask set) [
  | none ↦ ((negsuc 0, mask), mask)
  | some m ↦ ((pos 0, bit_and m blockable), mask)
]

-- What `sys_rt_sigpending` writes to the set of its caller.
unfoldable pub sys_rt_sigpending : SignalHandler → ℕ → ℕ
sys_rt_sigpending sh sig_mask = if has_pending sh sig_mask then sig_mask else 0
