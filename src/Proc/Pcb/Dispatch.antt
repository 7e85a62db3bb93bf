-- ===== src/Proc/Pcb/Dispatch.antt =====
-- The dispatcher takes turns.
use mathlib.Core.List.{append_assoc}
use hobby_os.Prelude.{
  ℕ, zero, suc, ◌<◌, true, false, ◌≡◌, refl, sym, ap, ◌∙◌, ◌≢◌, some, List, [], ◌∷◌, ◌++◌, arith,
  length, All, Absent, update_self, update_ne,
}
use hobby_os.Proc.Queue.Refine.{Holds, push_back-Holds, pop_front-Holds}
use hobby_os.Proc.Queue.Remove.{Absent-split}
use hobby_os.Proc.Pcb.{
  Pcbs, ProcState, is_ready, is_running, set_state, put, get, is_empty, next_ready, requeue, to,
  hand_over, dispatch, list_put, list_get,
}

-- The run queue exists and holds these PCBs, first to last.
pub record Queued (s : Pcbs) (xs : List ℕ) : Type 0 where
  pub made : s.has_list ≡ true
  pub holds : Holds s.run_queue xs

-- None of these PCBs is READY.
abbrev pub Idle : Pcbs → List ℕ → Type 0
Idle s = All (λ p. is_ready (s.state p) ≡ false)

pub put-Queued :
    (s : Pcbs) (xs : List ℕ) (p : ℕ) → Queued s xs → Absent p xs → Queued (put s p) (xs ++ p ∷ [])
unfolding put list_put
put-Queued s xs p q a = record {
  made = refl;
  holds = rw q.made (push_back-Holds s.run_queue xs p q.holds a);
}

get-Queued :
    (s : Pcbs) (x : ℕ) (xs : List ℕ)
    → Queued s (x ∷ xs)
    → ((get s).0 ≡ some x)
      × Queued (get s).1 xs
      × ((get s).1.state ≡ s.state)
      × ((get s).1.time_slice_counter ≡ s.time_slice_counter)
unfolding get list_get
get-Queued s x xs q =
    let (first, rest) = pop_front-Holds s.run_queue x xs q.holds in
    rw (q.made, get) (first, record { made = refl; holds = rest }, refl, refl)

-- The loop skips what is not READY and stops at the first PCB that is.
pub next_ready-Queued :
    (fuel : ℕ) (s : Pcbs) (ys zs : List ℕ) (n : ℕ)
    → length ys < fuel
    → Queued s (ys ++ n ∷ zs)
    → Idle s ys
    → is_ready (s.state n) ≡ true
    → (s' : Pcbs) × (next_ready fuel s ≡ some (some n, s'))
      × Queued s' zs
      × (s'.state ≡ s.state)
      × (s'.time_slice_counter ≡ s.time_slice_counter)
unfolding next_ready
next_ready-Queued zero s ys zs n f q i r = absurd (omega arith)
next_ready-Queued (suc fuel) s [] zs n f q i r =
    let (first, rest, same_states, same_slice) = get-Queued s n zs q in
    ((get s).1, ground arith, rest, same_states, same_slice)
next_ready-Queued (suc fuel) s (y ∷ ys) zs n f q i r =
    let (first, rest, same_states, same_slice) = get-Queued s y (ys ++ n ∷ zs) q in
    let (s', found, left, states, slice) =
      next_ready-Queued fuel (get s).1 ys zs n (omega arith) rest (rw same_states i.1)
        (rw same_states r) in
    let idle = i.0 in (s', ground arith, left, states ∙ same_states, slice ∙ same_slice)

state-put :
    (s : Pcbs) (p : ℕ)
    → p ≢ s.current
    → (put (set_state s s.current ProcState.ready) s.current).state p ≡ s.state p
unfolding put
state-put s p ne = update_ne s.state s.current ProcState.ready p (λ e. ne (sym e))

Idle-put :
    (s : Pcbs) (ys : List ℕ)
    → Absent s.current ys
    → Idle s ys
    → Idle (put (set_state s s.current ProcState.ready) s.current) ys
Idle-put s [] a i = tt
Idle-put s (y ∷ ys) a i = (ap is_ready (state-put s y a.0) ∙ i.0, Idle-put s ys a.1 i.1)

-- `s_timeSliceCounter = 0`
abbrev started : Pcbs → Pcbs
started s = record s { time_slice_counter = 0 }

dispatch_found_running :
    (fuel : ℕ) (s s' : Pcbs) (n : ℕ)
    → s.state s.current ≡ ProcState.running
    → is_empty s ≡ false
    → next_ready fuel (put (set_state (started s) s.current ProcState.ready) s.current)
      ≡ some (some n, s')
    → dispatch fuel s ≡ some (to n, record (set_state s' n ProcState.running) { current = n })
unfolding dispatch requeue hand_over
dispatch_found_running fuel s s' n run e found = ground arith

is_empty-Queued : (s : Pcbs) (ys zs : List ℕ) (n : ℕ) → Queued s (ys ++ n ∷ zs) → is_empty s ≡ false
unfolding is_empty
is_empty-Queued s [] zs n q = let e = q.made in let h = q.holds.chain.0 in ground arith
is_empty-Queued s (y ∷ ys) zs n q = let e = q.made in let h = q.holds.chain.0 in ground arith

dispatch_found_waiting :
    (fuel : ℕ) (s s' : Pcbs) (n : ℕ)
    → is_running (s.state s.current) ≡ false
    → next_ready fuel (started s) ≡ some (some n, s')
    → dispatch fuel s ≡ some (to n, record (set_state s' n ProcState.running) { current = n })
unfolding dispatch requeue hand_over
dispatch_found_waiting fuel s s' n w found = ground arith

-- With the running PCB in state RUNNING and not in the run queue, every PCB of the queue before `n`
-- not READY, `n` READY and fuel for those before it, `dispatch` puts the running PCB behind the
-- others in state READY, makes `n` the running PCB in state RUNNING, takes those before it out of the
-- queue, starts a new time slice, and changes the state of no other PCB.
pub dispatch_running :
    (fuel : ℕ) (s : Pcbs) (ys zs : List ℕ) (n : ℕ)
    → length ys < fuel
    → Queued s (ys ++ n ∷ zs)
    → Absent s.current (ys ++ n ∷ zs)
    → s.state s.current ≡ ProcState.running
    → Idle s ys
    → is_ready (s.state n) ≡ true
    → (s' : Pcbs) × (dispatch fuel s ≡ some (to n, s'))
      × Queued s' (zs ++ s.current ∷ [])
      × (s'.current ≡ n)
      × (s'.state n ≡ ProcState.running)
      × (s'.state s.current ≡ ProcState.ready)
      × (s'.time_slice_counter ≡ 0)
      × ((p : ℕ) → p ≢ n → p ≢ s.current → s'.state p ≡ s.state p)
unfolding dispatch requeue hand_over put
dispatch_running fuel s ys zs n f q a run i r =
    let s1 = put (set_state (started s) s.current ProcState.ready) s.current in
    let (before, ne, behind) = Absent-split s.current n ys zs a in
    let queued : Queued s1 (ys ++ n ∷ (zs ++ s.current ∷ [])) = rw append_assoc at (
      put-Queued (set_state (started s) s.current ProcState.ready) (ys ++ n ∷ zs) s.current
        (record { made = q.made; holds = q.holds }) a) in
    let (s', found, left, states, slice) =
      next_ready-Queued fuel s1 ys (zs ++ s.current ∷ []) n f queued
        (Idle-put (started s) ys before i) (ap is_ready (state-put (started s) n ne) ∙ r) in
    (
      record (set_state s' n ProcState.running) { current = n },
      dispatch_found_running fuel s s' n run (is_empty-Queued s ys zs n q) found,
      record { made = left.made; holds = left.holds },
      refl,
      update_self s'.state n ProcState.running,
      update_ne s'.state n ProcState.running s.current ne
          ∙ ap (λ (g : ℕ → ProcState). g s.current) states
          ∙ update_self s.state s.current ProcState.ready,
      slice,
      λ p away other.
          update_ne s'.state n ProcState.running p (λ e. away (sym e))
          ∙ ap (λ (g : ℕ → ProcState). g p) states
          ∙ state-put (started s) p other,
    )

Idle-started : (s : Pcbs) (ys : List ℕ) → Idle s ys → Idle (started s) ys
Idle-started s [] i = tt
Idle-started s (y ∷ ys) i = (i.0, Idle-started s ys i.1)

-- With the running PCB in another state than RUNNING, every PCB of the queue before `n` not READY, `n`
-- READY and fuel for those before it, `dispatch` makes `n` the running PCB and does not put the old
-- one back; the queue keeps those behind `n`, and no other state changes.
pub dispatch_waiting :
    (fuel : ℕ) (s : Pcbs) (ys zs : List ℕ) (n : ℕ)
    → length ys < fuel
    → Queued s (ys ++ n ∷ zs)
    → is_running (s.state s.current) ≡ false
    → Idle s ys
    → is_ready (s.state n) ≡ true
    → (s' : Pcbs) × (dispatch fuel s ≡ some (to n, s'))
      × Queued s' zs
      × (s'.current ≡ n)
      × (s'.state n ≡ ProcState.running)
      × ((p : ℕ) → p ≢ n → s'.state p ≡ s.state p)
dispatch_waiting fuel s ys zs n f q w i r =
    let (s', found, left, states, slice) =
      next_ready-Queued fuel (started s) ys zs n f (record { made = q.made; holds = q.holds })
        (Idle-started s ys i) r in
    (
      record (set_state s' n ProcState.running) { current = n },
      dispatch_found_waiting fuel s s' n w found,
      record { made = left.made; holds = left.holds },
      refl,
      update_self s'.state n ProcState.running,
      λ p ne.
          update_ne s'.state n ProcState.running p (λ e. ne (sym e))
          ∙ ap (λ (g : ℕ → ProcState). g p) states,
    )
