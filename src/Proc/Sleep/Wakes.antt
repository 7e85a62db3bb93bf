-- ===== src/Proc/Sleep/Wakes.antt =====
-- `wakeUp`, which takes a PCB out of the queue before its time.
use hobby_os.Prelude.{
  ℕ, ◌+◌, ◌-◌, ◌≡◌, refl, sym, ap, ◌∙◌, true, false, none, some, List, [], ◌∷◌, ◌++◌, arith, add64,
  Absent,
}
use hobby_os.Proc.Pcb.{Pcbs}
use hobby_os.Proc.Sleep.{Sleeper, Timer, cut, behead, take_out, wake_up, put_sleep, awake}
use hobby_os.Proc.Sleep.Deadlines.{due, Fits}

abbrev pub pcbs : List Sleeper → List ℕ
pcbs [] = []
pcbs (x ∷ xs) = x.pcb ∷ pcbs xs

due-behead :
    (ticks : ℕ) (xs : List Sleeper) → Fits ticks xs → due 0 (behead ticks xs) ≡ due ticks xs
unfolding behead
due-behead ticks [] f = refl
due-behead ticks (y ∷ ys) f =
    let e : 0 + add64 y.rest ticks ≡ ticks + y.rest = omega (arith, f.0) in rw e

-- With the lock free and no time that overflows a word, `wake_up` of the first in the queue takes it
-- out, frees the lock, and leaves all others their times.
pub wake_up_first :
    (x : Sleeper) (xs : List Sleeper)
    → Fits 0 (x ∷ xs)
    → (s' : Timer) × (wake_up (record { locked = false; sleepers = x ∷ xs }) x.pcb ≡ some s')
      × (s'.locked ≡ false)
      × (due 0 (x ∷ xs) ≡ (x.pcb, x.rest) ∷ due 0 s'.sleepers)
unfolding wake_up
wake_up_first x xs f =
    let start : 0 + x.rest ≡ x.rest = omega arith in
    (
      record { locked = false; sleepers = behead x.rest xs },
      ground arith,
      refl,
      rw start (ap (◌∷◌ (x.pcb, x.rest)) (sym (due-behead x.rest xs (rw start at f.1)))),
    )

cut-middle :
    (x : Sleeper) (front back : List Sleeper)
    → Absent x.pcb (pcbs front)
    → cut x.pcb (front ++ x ∷ back) ≡ some (front ++ back)
unfolding cut
cut-middle x [] back a = ground arith
cut-middle x (y ∷ front) back a =
    let ih = cut-middle x front back a.1 in let ne = a.0 in ground arith

abbrev pub earlier : ℕ → List (ℕ × ℕ) → List (ℕ × ℕ)
earlier n [] = []
earlier n ((p, d) ∷ ds) = (p, d - n) ∷ earlier n ds

due-shift : (n b : ℕ) (xs : List Sleeper) → due b xs ≡ earlier n (due (b + n) xs)
due-shift n b [] = refl
due-shift n b (x ∷ xs) =
    let e : b + n + x.rest ≡ b + x.rest + n = omega arith in
    let back : b + x.rest + n - n ≡ b + x.rest = omega arith in
    rw (e, back) (ap (◌∷◌ (x.pcb, b + x.rest)) (due-shift n (b + x.rest) xs))

-- The time at which the last of these wakes.
abbrev pub span : ℕ → List Sleeper → ℕ
span b [] = b
span b (x ∷ xs) = span (b + x.rest) xs

due-append :
    (b : ℕ) (front back : List Sleeper)
    → due b (front ++ back) ≡ due b front ++ due (span b front) back
due-append b [] back = refl
due-append b (x ∷ front) back = ap (◌∷◌ (x.pcb, b + x.rest)) (due-append (b + x.rest) front back)

-- With the lock free, `wake_up` of a PCB that is not the first takes it out, frees the lock, and
-- leaves those in front of it their times, but all that stand behind it wake early, by the ticks that
-- it had beyond the one before it.
pub wake_up_behind :
    (w x : Sleeper) (front back : List Sleeper)
    → Absent x.pcb (pcbs (w ∷ front))
    → (s' : Timer) × (wake_up (record { locked = false; sleepers = w ∷ front ++ x ∷ back }) x.pcb
        ≡ some s')
      × (s'.locked ≡ false)
      × (due 0 (w ∷ front ++ x ∷ back)
          ≡ due 0 (w ∷ front)
            ++ (x.pcb, span 0 (w ∷ front) + x.rest) ∷ due (span 0 (w ∷ front) + x.rest) back)
      × (due 0 s'.sleepers
          ≡ due 0 (w ∷ front) ++ earlier x.rest (due (span 0 (w ∷ front) + x.rest) back))
unfolding wake_up
wake_up_behind w x front back a =
    let found = cut-middle x front back a.1 in
    let ne = a.0 in
    (
      record { locked = false; sleepers = w ∷ front ++ back },
      ground arith,
      refl,
      due-append 0 (w ∷ front) (x ∷ back),
      due-append 0 (w ∷ front) back
          ∙ ap (λ t. due 0 (w ∷ front) ++ t) (due-shift x.rest (span 0 (w ∷ front)) back),
    )

cut-Absent : (p : ℕ) (xs : List Sleeper) → Absent p (pcbs xs) → cut p xs ≡ none
unfolding cut
cut-Absent p [] a = refl
cut-Absent p (x ∷ xs) a = let ih = cut-Absent p xs a.1 in let ne = a.0 in ground arith

take_out-Absent : (p : ℕ) (xs : List Sleeper) → Absent p (pcbs xs) → take_out p xs ≡ none
unfolding take_out
take_out-Absent p [] a = refl
take_out-Absent p (x ∷ xs) a = let no_one = cut-Absent p xs a.1 in let ne = a.0 in ground arith

-- With the lock free, `wake_up` of a PCB that is not in the queue leaves the lock held: every later
-- `put_sleep`, `awake` or `wake_up` spins for ever.
pub wake_up-Absent :
    (s : Timer) (p : ℕ)
    → s.locked ≡ false
    → Absent p (pcbs s.sleepers)
    → (s' : Timer) × (wake_up s p ≡ some s')
      × ((q t : ℕ) → put_sleep s' q t ≡ none)
      × ((k : Pcbs) → awake s' k ≡ none)
      × ((q : ℕ) → wake_up s' q ≡ none)
unfolding wake_up put_sleep awake
wake_up-Absent s p free a =
    let no_one = take_out-Absent p s.sleepers a in
    (record s { locked = true }, ground arith, λ q t. refl, λ k. refl, λ q. refl)
