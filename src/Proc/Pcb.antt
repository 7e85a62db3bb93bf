-- ===== src/Proc/Pcb.antt =====
-- PCBs, the run queue and the dispatcher: kernel/proc/pcb.h, pcb.cpp, list/proclist.cpp and the
-- `put`, `get` and `empty` of scheduler.cpp. A PCB is its address, and the fields that change are
-- functions of it. The hand-over of registers and page tables (`switchContext`, `activate`) is the
-- machine's, and is not part of the state.
pub mod Dispatch
use mathlib.Core.Option
use hobby_os.Prelude.{
  ℕ, zero, suc, Bool, true, false, not, ◌&&◌, ◌||◌, Option, none, some, if◌then◌else◌, update,
}
use hobby_os.Proc.Queue.{Links, is_null, push_back, pop_front}

pub data ProcState : Type 0 where
  ready running blocked sleeping stopped zombie : ProcState

abbrev pub is_ready : ProcState → Bool
is_ready ProcState.ready = true
is_ready _ = false

abbrev pub is_running : ProcState → Bool
is_running ProcState.running = true
is_running _ = false

pub record Pcbs : Type 0 where
  pub state : ℕ → ProcState
  -- `m_waitingOn`, the semaphore on which the PCB waits
  pub waiting_on : ℕ → Option ℕ
  -- `Scheduler::m_list` is not null; its head and tail, with `m_next` of all PCBs
  pub has_list : Bool
  pub run_queue : Links
  -- `PCB::s_running` and `PCB::s_timeSliceCounter`
  pub current : ℕ
  pub time_slice_counter : ℕ

abbrev pub set_state : Pcbs → ℕ → ProcState → Pcbs
set_state s p st = record s { state = update s.state p st }

-- `ProcList::put`: a null pointer is ignored.
unfoldable pub list_put : Links → Option ℕ → Links
unfolding push_back
list_put q none = q
list_put q (some p) = push_back q p

-- `ProcList::get`.
unfoldable pub list_get : Links → Option ℕ × Links
unfolding pop_front
list_get q = pop_front q

-- `Scheduler::put`: the list is made at the first call.
unfoldable pub put : Pcbs → ℕ → Pcbs
unfolding list_put
put s p = record s {
  has_list = true;
  run_queue =
      list_put
        (if s.has_list
          then s.run_queue
          else record { head = none; tail = none; next = s.run_queue.next })
        (some p);
}

-- `Scheduler::get`.
unfoldable pub get : Pcbs → Option ℕ × Pcbs
unfolding list_get
get s =
    if s.has_list
    then ((list_get s.run_queue).0, record s { run_queue = (list_get s.run_queue).1 })
    else (none, s)

-- `Scheduler::empty`.
unfoldable pub is_empty : Pcbs → Bool
is_empty s = not s.has_list || is_null s.run_queue.head

-- `while (next && next->m_state != READY) next = Scheduler::get();` with fuel, from a first `get`;
-- the outer `none` is fuel run out.
unfoldable pub next_ready : ℕ → Pcbs → Option (Option ℕ × Pcbs)
next_ready zero s = none
next_ready (suc fuel) s =
    let rest = next_ready fuel (get s).1 in
    elim (get s).0 [
      | none ↦ some (none, (get s).1)
      | some p ↦ if is_ready (s.state p) then some (some p, (get s).1) else rest
    ]

-- `if (current->m_state == RUNNING) { current->m_state = READY; Scheduler::put(current); }`
unfoldable pub requeue : Pcbs → Pcbs
requeue s =
    if is_running (s.state s.current)
    then put (set_state s s.current ProcState.ready) s.current
    else s

-- A call of `PCB::dispatch` returns at once, hands over to a PCB, or panics.
pub data Dispatched : Type 0 where
  same : Dispatched
  to : ℕ → Dispatched
  panic : Dispatched

unfoldable pub hand_over : Option ℕ × Pcbs → Dispatched × Pcbs
hand_over (none, s) = (panic, s)
hand_over (some p, s) = (to p, record (set_state s p ProcState.running) { current = p })

unfoldable pub dispatch : ℕ → Pcbs → Option (Dispatched × Pcbs)
dispatch fuel s =
    if is_empty s && is_running (s.state s.current)
    then some (same, s)
    else Option.map hand_over (next_ready fuel (requeue (record s { time_slice_counter = 0 })))
