-- ===== src/Proc/Sleep.antt =====
-- The timed sleep queue of kernel/proc/scheduler.cpp: PCBs in the order in which they wake, each with
-- the ticks that it sleeps beyond the PCB before it (`m_relativeSleepTime`). The chain through
-- `m_nextSleep` from `m_sleepHead` is a list; `m_sleepTail` is written by the code and never read.
-- `m_lock` is a flag: an `acquire` while it is held spins for ever, which is the outer `none`.
-- A `time_t` is a word of 64 bits, and its arithmetic wraps.
pub mod Deadlines
pub mod Ticks
pub mod Wakes
use hobby_os.Prelude.{
  ℕ, Bool, true, false, Option, none, some, List, [], ◌∷◌, ◌==◌, leb, if◌then◌else◌, add64, sub64,
}
use hobby_os.Proc.Pcb.{Pcbs, ProcState, set_state, put}

pub record Sleeper : Type 0 where
  pub pcb : ℕ
  pub rest : ℕ

pub record Timer : Type 0 where
  pub locked : Bool
  pub sleepers : List Sleeper

-- The walk of `putSleep`: behind all who wake no later, and the next one sleeps relative to it.
unfoldable pub insert_from : ℕ → ℕ → ℕ → List Sleeper → List Sleeper
insert_from elapsed p t [] = record { pcb = p; rest = sub64 t elapsed } ∷ []
insert_from elapsed p t (x ∷ xs) =
    let rest = insert_from (add64 elapsed x.rest) p t xs in
    let own = sub64 t elapsed in
    if leb (add64 elapsed x.rest) t
    then x ∷ rest
    else record { pcb = p; rest = own } ∷ record x { rest = sub64 x.rest own } ∷ xs

-- An empty queue takes the PCB as it is.
unfoldable pub insert_sleeper : ℕ → ℕ → List Sleeper → List Sleeper
unfolding insert_from
insert_sleeper p t [] = record { pcb = p; rest = t } ∷ []
insert_sleeper p t (x ∷ xs) = insert_from 0 p t (x ∷ xs)

-- `putSleep`.
unfoldable pub put_sleep : Timer → ℕ → ℕ → Option Timer
unfolding insert_sleeper
put_sleep s p t =
    if s.locked then none else some (record s { sleepers = insert_sleeper p t s.sleepers })

-- The loop of `awake`: `getSleep` while the head has no ticks left; each becomes READY and runnable.
unfoldable pub drain : List Sleeper → Pcbs → List Sleeper × Pcbs
drain [] k = ([], k)
drain (x ∷ xs) k =
    let rest = drain xs (put (set_state k x.pcb ProcState.ready) x.pcb) in
    if x.rest == 0 then rest else (x ∷ xs, k)

-- One tick off the head, then the loop.
unfoldable pub tick : List Sleeper → Pcbs → List Sleeper × Pcbs
unfolding drain
tick [] k = ([], k)
tick (x ∷ xs) k = drain (record x { rest = sub64 x.rest 1 } ∷ xs) k

-- `awake`.
unfoldable pub awake : Timer → Pcbs → Option (Timer × Pcbs)
unfolding tick
awake s k =
    let (left, k') = tick s.sleepers k in
    if s.locked then none else some (record s { sleepers = left }, k')

-- The two last branches of `wakeUp`, behind the head: `none` is a PCB that is not in the queue. In
-- the middle branch the code adds the PCB's ticks to the PCB itself (`cur`), which then is reset.
unfoldable pub cut : ℕ → List Sleeper → Option (List Sleeper)
cut p [] = none
cut p (x ∷ xs) =
    let rest = cut p xs in
    if x.pcb == p then some xs else (elim rest [ none ↦ none | some r ↦ some (x ∷ r) ])

-- The first branch of `wakeUp`: the new head takes over the ticks of the old one.
unfoldable pub behead : ℕ → List Sleeper → List Sleeper
behead ticks [] = []
behead ticks (y ∷ ys) = record y { rest = add64 y.rest ticks } ∷ ys

unfoldable pub take_out : ℕ → List Sleeper → Option (List Sleeper)
unfolding cut behead
take_out p [] = none
take_out p (x ∷ xs) =
    if x.pcb == p
    then some (behead x.rest xs)
    else (elim (cut p xs) [ none ↦ none | some r ↦ some (x ∷ r) ])

-- `wakeUp`. A PCB that is not found returns at `if (!cur) return`, with the lock held.
unfoldable pub wake_up : Timer → ℕ → Option Timer
unfolding take_out
wake_up s p = if s.locked then none else (elim (take_out p s.sleepers) [
  | none ↦ some (record s { locked = true })
  | some xs ↦ some (record s { sleepers = xs })
])

-- `getSleep`, whose callers hold the lock: the first PCB, whatever time it has left.
unfoldable pub get_sleep : List Sleeper → Option ℕ × List Sleeper
get_sleep [] = (none, [])
get_sleep (x ∷ xs) = (some x.pcb, xs)
