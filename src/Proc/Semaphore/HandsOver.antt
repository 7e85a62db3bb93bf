-- ===== src/Proc/Semaphore/HandsOver.antt =====
-- A wait and the signal behind it in kernel/proc/sync/sem.cpp: the permit goes to the first that waits.
use hobby_os.Prelude.{
  ℕ, ◌≡◌, ◌≢◌, ◌∙◌, true, none, some, List, [], ◌∷◌, ◌++◌, Absent, update, update_self, update_ne,
}
use mathlib.Core.Path.{subst}
use hobby_os.Proc.Queue.Refine.{Holds}
use hobby_os.Proc.Pcb.{Pcbs, ProcState, set_state, put}
use hobby_os.Proc.Pcb.Dispatch.{Queued, put-Queued}
use hobby_os.Proc.Semaphore.{Semaphore, signal, wait}
use hobby_os.Proc.Semaphore.Steps.{signal_blocked, wait_blocked, woken}

-- The woken PCB, in the run queue and in the states of the PCBs.
woken-Queued :
    (k : Pcbs) (p : ℕ) (rs : List ℕ)
    → Queued k rs
    → Absent p rs
    → Queued (woken k p) (rs ++ p ∷ [])
      × ((woken k p).state p ≡ ProcState.ready)
      × ((woken k p).waiting_on p ≡ none)
      × ((q : ℕ) → p ≢ q → (woken k p).state q ≡ k.state q)
unfolding put
woken-Queued k p rs h away = (
  put-Queued (set_state (record k { waiting_on = update k.waiting_on p none }) p ProcState.ready) rs
      p (record { made = h.made; holds = h.holds }) away,
  update_self k.state p ProcState.ready,
  update_self k.waiting_on p none,
  λ q ne. update_ne k.state p ProcState.ready q ne,
)

-- The running PCB waits on a semaphore whose count is 0, and is BLOCKED there behind those that wait
-- already. Later, whatever other PCBs have become, a signal wakes the first of them all, when that one
-- is not in the run queue: the count stays 0, the others keep their order, the first waits on nothing,
-- is READY, and is the last in the run queue, and no other state changes.
pub signal-wait :
    (me : ℕ) (s : Semaphore) (k later : Pcbs) (ws xs rs : List ℕ) (x : ℕ)
    → s.value ≡ 0
    → Holds s.blocked ws
    → Absent k.current ws
    → ws ++ k.current ∷ [] ≡ x ∷ xs
    → Queued later rs
    → Absent x rs
    → (s1 : Semaphore) × (k1 : Pcbs) × (s2 : Semaphore) × (k2 : Pcbs) × (wait me s k
        ≡ (true, s1, k1))
      × (k1.state k.current ≡ ProcState.blocked)
      × (k1.waiting_on k.current ≡ some me)
      × (signal s1 later ≡ some (s2, k2))
      × (s2.value ≡ 0)
      × Holds s2.blocked xs
      × Queued k2 (rs ++ x ∷ [])
      × (k2.state x ≡ ProcState.ready)
      × (k2.waiting_on x ≡ none)
      × ((q : ℕ) → x ≢ q → k2.state q ≡ later.state q)
signal-wait me s k later ws xs rs x zero h away first run apart =
    let (s1, k1, waits, value, queue, state, on) = wait_blocked me s k ws zero h away in
    let (s2, signals, same, rest) =
      signal_blocked s1 later x xs (subst (Holds s1.blocked) first queue) in
    let (queued, ready, free, others) = woken-Queued later x rs run apart in
    (
      s1,
      k1,
      s2,
      woken later x,
      waits,
      state,
      on,
      signals,
      same ∙ value,
      rest,
      queued,
      ready,
      free,
      others,
    )
