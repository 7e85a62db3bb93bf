-- ===== src/Proc/Semaphore.antt =====
-- kernel/proc/sync/sem.cpp, sem.h and cond.cpp: counting semaphores with a queue of blocked PCBs, and
-- condition variables over them. `m_semNext` of all PCBs is in the links of the queue; `m_waitingOn`
-- is `Pcbs.waiting_on`. An operation takes the PCBs as they are and returns them changed; `none` is
-- the use of a null pointer. A call that blocks ends at its `yield`: `resume` is what it does when
-- it runs again. The spin lock around each operation makes it one step.
pub mod Steps
pub mod Traces
pub mod HandsOver
use hobby_os.Prelude.{
  ℕ, ◌-◌, Bool, true, false, Option, none, some, ◌==◌, if◌then◌else◌, add32, update,
}
use hobby_os.Proc.Queue.{Links, is_null, push_back, pop_front, remove}
use hobby_os.Proc.Pcb.{Pcbs, ProcState, set_state, put}

pub record Semaphore : Type 0 where
  pub value : ℕ
  pub blocked : Links

unfoldable pub push_blocked : Semaphore → ℕ → Semaphore
push_blocked s p = record s { blocked = push_back s.blocked p }

unfoldable pub pop_blocked : Semaphore → Pcbs → Option ℕ × Semaphore × Pcbs
pop_blocked s k = elim (pop_front s.blocked).0 [
  | none ↦ (none, s, k)
  | some p ↦ (
    some p,
    record s { blocked = (pop_front s.blocked).1 },
    record k { waiting_on = update k.waiting_on p none },
  )
]

unfoldable pub unblock : Semaphore → Pcbs → Option (Semaphore × Pcbs)
unfolding pop_blocked
unblock s k =
    let (o, s', k') = pop_blocked s k in
    elim o [ none ↦ none | some p ↦ some (s', put (set_state k' p ProcState.ready) p) ]

unfoldable pub signal : Semaphore → Pcbs → Option (Semaphore × Pcbs)
unfolding unblock
signal s k =
    if is_null s.blocked.head then some (record s { value = add32 s.value 1 }, k) else unblock s k

-- `block` up to its `yield`; `me` is the semaphore's address.
unfoldable pub block : ℕ → Semaphore → Pcbs → Semaphore × Pcbs
unfolding push_blocked
block me s k =
    let k' = set_state k k.current ProcState.blocked in
    (push_blocked s k.current, record k' { waiting_on = update k'.waiting_on k.current (some me) })

-- `running->m_waitingOn = nullptr`, after the `yield`.
unfoldable pub resume : Pcbs → ℕ → Pcbs
resume k p = record k { waiting_on = update k.waiting_on p none }

-- The Boolean says that the caller has blocked.
unfoldable pub wait : ℕ → Semaphore → Pcbs → Bool × Semaphore × Pcbs
unfolding block
wait me s k =
    let (s', k') = block me s k in
    if s.value == 0 then (true, s', k') else (false, record s { value = s.value - 1 }, k)

-- `signalUnlocked` has the body of `signal`, without the lock.
unfoldable pub signal_unlocked : Semaphore → Pcbs → Option (Semaphore × Pcbs)
unfolding unblock
signal_unlocked s k =
    if is_null s.blocked.head then some (record s { value = add32 s.value 1 }, k) else unblock s k

-- `signalWaitAtomic`: this path does not write `m_waitingOn`. The two queues share `m_semNext`.
unfoldable pub signal_wait_atomic :
    Semaphore → Semaphore → Pcbs → Option (Bool × Semaphore × Semaphore × Pcbs)
unfolding push_blocked signal_unlocked
signal_wait_atomic to_signal to_wait k = elim (signal_unlocked to_signal k) [
  | none ↦ none
  | some (s, k') ↦
      let w = record to_wait { blocked = record to_wait.blocked { next = s.blocked.next } } in
      if w.value == 0
      then some (true, s, push_blocked w k'.current, set_state k' k'.current ProcState.blocked)
      else some (false, s, record w { value = w.value - 1 }, k')
]

-- `forceRemove`, with fuel for its walk along the queue.
unfoldable pub force_remove : ℕ → Semaphore → ℕ → Option Semaphore
force_remove fuel s p = elim (remove fuel s.blocked p) [
  | none ↦ none
  | some q ↦ some (record s { blocked = q })
]

-- `Condition::wait` on its mutex and its own semaphore.
unfoldable pub condition_wait :
    Semaphore → Semaphore → Pcbs → Option (Bool × Semaphore × Semaphore × Pcbs)
unfolding signal_wait_atomic
condition_wait mutex cond k = signal_wait_atomic mutex cond k

-- `waitUnlocked`, which does not write `m_waitingOn`.
unfoldable pub wait_unlocked : Semaphore → Pcbs → Bool × Semaphore × Pcbs
unfolding push_blocked
wait_unlocked s k =
    if s.value == 0
    then (true, push_blocked s k.current, set_state k k.current ProcState.blocked)
    else (false, record s { value = s.value - 1 }, k)

-- `Condition::signal` up to the `wait` on its mutex, which `wait me` of the caller completes: the mutex
-- sees the `m_semNext` that the condition's queue left.
unfoldable pub condition_signal :
    ℕ → Semaphore → Semaphore → Pcbs → Option (Bool × Semaphore × Semaphore × Pcbs)
unfolding signal wait
condition_signal me mutex cond k =
    if is_null cond.blocked.head then some (false, mutex, cond, k) else (elim (signal cond k) [
      | none ↦ none
      | some (c, k') ↦
          let (waits, m, k2) =
            wait me (record mutex { blocked = record mutex.blocked { next = c.blocked.next } })
              k' in
          some (waits, m, c, k2)
    ])
