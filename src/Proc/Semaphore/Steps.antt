-- ===== src/Proc/Semaphore/Steps.antt =====
-- What one call of `signal` or `wait` does to a semaphore whose queue holds a list of PCBs.
use hobby_os.Prelude.{
  ℕ, ◌+◌, ◌-◌, ◌<◌, ◌≡◌, refl, ◌≢◌, true, false, none, some, List, [], ◌∷◌, ◌++◌, arith, Absent,
  half_word, update, update_self,
}
use hobby_os.Proc.Queue.{pop_front}
use hobby_os.Proc.Queue.Refine.{Holds, push_back-Holds, pop_front-Holds}
use hobby_os.Proc.Pcb.{Pcbs, ProcState, set_state, put}
use hobby_os.Proc.Semaphore.{Semaphore, signal, wait, block}

-- With nobody blocked, `signal` counts up.
pub signal_idle :
    (s : Semaphore) (k : Pcbs)
    → Holds s.blocked []
    → s.value + 1 < half_word
    → signal s k ≡ some (record s { value = s.value + 1 }, k)
unfolding signal
signal_idle s k h b = let e = h.chain in ground arith

-- The PCB that `signal` wakes is READY, waits on nothing, and stands in the run queue.
abbrev pub woken : Pcbs → ℕ → Pcbs
woken k p =
    put (set_state (record k { waiting_on = update k.waiting_on p none }) p ProcState.ready) p

-- With PCBs blocked, `signal` wakes the first and leaves the count.
pub signal_blocked :
    (s : Semaphore) (k : Pcbs) (p : ℕ) (ps : List ℕ)
    → Holds s.blocked (p ∷ ps)
    → (s' : Semaphore) × (signal s k ≡ some (s', woken k p))
      × (s'.value ≡ s.value)
      × Holds s'.blocked ps
unfolding signal
signal_blocked s k p ps h =
    let (first, rest) = pop_front-Holds s.blocked p ps h in
    let e = h.chain.0 in (record s { blocked = (pop_front s.blocked).1 }, ground arith, refl, rest)

-- With a positive count, `wait` takes one and returns.
pub wait_granted :
    (me : ℕ) (s : Semaphore) (k : Pcbs)
    → s.value ≢ 0
    → wait me s k ≡ (false, record s { value = s.value - 1 }, k)
unfolding wait
wait_granted me s k h = ground arith

-- At zero, `wait` puts the running PCB behind the others that are blocked.
pub wait_blocked :
    (me : ℕ) (s : Semaphore) (k : Pcbs) (ps : List ℕ)
    → s.value ≡ 0
    → Holds s.blocked ps
    → Absent k.current ps
    → (s' : Semaphore) × (k' : Pcbs) × (wait me s k ≡ (true, s', k'))
      × (s'.value ≡ 0)
      × Holds s'.blocked (ps ++ k.current ∷ [])
      × (k'.state k.current ≡ ProcState.blocked)
      × (k'.waiting_on k.current ≡ some me)
unfolding wait
wait_blocked me s k ps z h a = (
  (block me s k).0,
  (block me s k).1,
  ground arith,
  z,
  push_back-Holds s.blocked ps k.current h a,
  update_self k.state k.current ProcState.blocked,
  update_self k.waiting_on k.current (some me),
)
