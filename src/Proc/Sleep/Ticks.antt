-- ===== src/Proc/Sleep/Ticks.antt =====
-- One timer tick: who wakes, and when the others will.
use hobby_os.Prelude.{
  ℕ, ◌+◌, ◌-◌, ◌<◌, ◌≡◌, refl, false, some, inl, inr, List, [], ◌∷◌, arith, ◌==◌, if◌then◌else◌,
  sub64, Bool-cases,
}
use hobby_os.Proc.Pcb.{Pcbs, ProcState, set_state, put}
use hobby_os.Proc.Sleep.{Sleeper, Timer, drain, tick, awake}
use hobby_os.Proc.Sleep.Deadlines.{due, Fits}

-- The specification: every time falls by one tick, and the times that reach zero leave the list.
unfoldable pub elapse : ℕ → List (ℕ × ℕ) → List (ℕ × ℕ)
elapse n [] = []
elapse n ((p, d) ∷ ds) = let rest = elapse n ds in if d - n == 0 then rest else (p, d - n) ∷ rest

-- The PCBs whose time has come, in order.
unfoldable pub expired : ℕ → List (ℕ × ℕ) → List ℕ
expired n [] = []
expired n ((p, d) ∷ ds) = let rest = expired n ds in if d - n == 0 then p ∷ rest else rest

-- Each becomes READY and joins the run queue.
unfoldable pub wake_all : List ℕ → Pcbs → Pcbs
wake_all [] k = k
wake_all (p ∷ ps) k = wake_all ps (put (set_state k p ProcState.ready) p)

elapse-later : (n b : ℕ) (xs : List Sleeper) → n < b → elapse n (due b xs) ≡ due (b - n) xs
unfolding elapse
elapse-later n b [] h = refl
elapse-later n b (x ∷ xs) h =
    let ih = elapse-later n (b + x.rest) xs (omega arith) in
    let e : b - n + x.rest ≡ b + x.rest - n = omega arith in rw e (ground arith)

expired-later : (n b : ℕ) (xs : List Sleeper) → n < b → expired n (due b xs) ≡ []
unfolding expired
expired-later n b [] h = refl
expired-later n b (x ∷ xs) h =
    let ih = expired-later n (b + x.rest) xs (omega arith) in ground arith

-- The loop, once the ticks `n` are over: the list stands at base `b`, which is `n` ticks back.
drain-due :
    (n : ℕ) (xs : List Sleeper) (k : Pcbs)
    → (due 0 (drain xs k).0 ≡ elapse n (due n xs))
      × ((drain xs k).1 ≡ wake_all (expired n (due n xs)) k)
unfolding drain elapse expired wake_all
drain-due n [] k = (refl, refl)
drain-due n (x ∷ xs) k =
    let gap : n + x.rest - n ≡ x.rest = omega arith in
    elim (Bool-cases (x.rest == 0)) [
      | inl now ↦
          let base : n + x.rest ≡ n = ground arith in
          rw (gap, now, base) (drain-due n xs (put (set_state k x.pcb ProcState.ready) x.pcb))
      | inr later ↦
          let far : n < n + x.rest = ground arith in
          let start : 0 + x.rest ≡ x.rest = omega arith in
          rw
            (
              gap,
              later,
              elapse-later n (n + x.rest) xs far,
              expired-later n (n + x.rest) xs far,
              gap,
              start,
            )
            (refl, refl)
    ]

-- The head has a tick left.
abbrev pub HasTick : List Sleeper → Type 0
HasTick [] = Unit
HasTick (x ∷ xs) = 0 < x.rest

tick-due :
    (xs : List Sleeper) (k : Pcbs)
    → HasTick xs
    → Fits 0 xs
    → (due 0 (tick xs k).0 ≡ elapse 1 (due 0 xs))
      × ((tick xs k).1 ≡ wake_all (expired 1 (due 0 xs)) k)
unfolding tick elapse expired wake_all
tick-due [] k h f = (refl, refl)
tick-due (x ∷ xs) k h f =
    let e : 1 + sub64 x.rest 1 ≡ 0 + x.rest = omega (arith, f.0) in
    rw (← e) (drain-due 1 (record x { rest = sub64 x.rest 1 } ∷ xs) k)

drain-HasTick : (xs : List Sleeper) (k : Pcbs) → HasTick (drain xs k).0
unfolding drain
drain-HasTick [] k = tt
drain-HasTick (x ∷ xs) k = elim (Bool-cases (x.rest == 0)) [
  | inl now ↦ rw now (drain-HasTick xs _)
  | inr later ↦ rw later (ground arith)
]

tick-HasTick : (xs : List Sleeper) (k : Pcbs) → HasTick (tick xs k).0
unfolding tick
tick-HasTick [] k = tt
tick-HasTick (x ∷ xs) k = drain-HasTick (record x { rest = sub64 x.rest 1 } ∷ xs) k

-- With the lock free, a tick left at the head and no time that overflows a word, `awake` returns with
-- the lock free, takes one tick off every time, wakes exactly the PCBs whose time has come, first to
-- last, makes each of them READY and runnable, and leaves a tick at the head.
pub awake-due :
    (s : Timer) (k : Pcbs)
    → s.locked ≡ false
    → HasTick s.sleepers
    → Fits 0 s.sleepers
    → (s' : Timer) × (awake s k ≡ some (s', wake_all (expired 1 (due 0 s.sleepers)) k))
      × (s'.locked ≡ false)
      × (due 0 s'.sleepers ≡ elapse 1 (due 0 s.sleepers))
      × HasTick s'.sleepers
unfolding awake
awake-due s k free h f =
    let (times, woken) = tick-due s.sleepers k h f in
    (
      record s { sleepers = (tick s.sleepers k).0 },
      ground arith,
      free,
      times,
      tick-HasTick s.sleepers k,
    )
