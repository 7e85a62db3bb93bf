-- ===== src/Proc/Sleep/Deadlines.antt =====
-- The queue read as absolute times, and `put_sleep` as an insertion by time.
use hobby_os.Prelude.{
  ℕ, ◌+◌, ◌≤◌, ◌<◌, ◌≡◌, ap, false, some, inl, inr, List, [], ◌∷◌, arith, leb, if◌then◌else◌, All,
  word, add64, sub64, Bool-cases, leb→le,
}
use hobby_os.Proc.Sleep.{Sleeper, Timer, insert_from, insert_sleeper, put_sleep}

-- Each PCB with the tick at which it wakes, counted from now; `base` is that of the PCB before.
abbrev pub due : ℕ → List Sleeper → List (ℕ × ℕ)
due base [] = []
due base (x ∷ xs) = (x.pcb, base + x.rest) ∷ due (base + x.rest) xs

-- No time overflows a word.
abbrev pub Fits : ℕ → List Sleeper → Type 0
Fits base xs = All (λ (e : ℕ × ℕ). e.1 < word) (due base xs)

-- The specification: behind all with the same time or an earlier one.
unfoldable pub insert_due : ℕ → ℕ → List (ℕ × ℕ) → List (ℕ × ℕ)
insert_due p t [] = (p, t) ∷ []
insert_due p t ((q, d) ∷ ds) =
    let rest = insert_due p t ds in if leb d t then (q, d) ∷ rest else (p, t) ∷ (q, d) ∷ ds

due-insert_from :
    (e p t : ℕ) (xs : List Sleeper)
    → e ≤ t
    → t < word
    → Fits e xs
    → due e (insert_from e p t xs) ≡ insert_due p t (due e xs)
unfolding insert_from insert_due
due-insert_from e p t [] le lt f = ap (λ (d : ℕ). (p, d) ∷ []) (omega arith)
due-insert_from e p t (x ∷ xs) le lt f =
    let sum : add64 e x.rest ≡ e + x.rest = omega (arith, f.0) in
    elim (Bool-cases (leb (e + x.rest) t)) [
      | inl before ↦
          rw (sum, before)
            (ap (◌∷◌ (x.pcb, e + x.rest))
              (due-insert_from (e + x.rest) p t xs (leb→le _ _ before) lt f.1))
      | inr behind ↦
          let own : e + sub64 t e ≡ t = omega arith in
          let fits = f.0 in
          let later : t + sub64 x.rest (sub64 t e) ≡ e + x.rest = ground arith in
          rw (sum, behind, own, later)
    ]

due-insert_sleeper :
    (p t : ℕ) (xs : List Sleeper)
    → t < word
    → Fits 0 xs
    → due 0 (insert_sleeper p t xs) ≡ insert_due p t (due 0 xs)
unfolding insert_sleeper insert_due
due-insert_sleeper p t [] lt f = ap (λ (d : ℕ). (p, d) ∷ []) (omega arith)
due-insert_sleeper p t (x ∷ xs) lt f = due-insert_from 0 p t (x ∷ xs) (omega arith) lt f

-- With the lock free and no time that overflows a word, `put_sleep` returns with the lock free, keeps
-- everybody's time and puts the PCB behind all that wake no later.
pub put_sleep-due :
    (s : Timer) (p t : ℕ)
    → s.locked ≡ false
    → t < word
    → Fits 0 s.sleepers
    → (s' : Timer) × (put_sleep s p t ≡ some s')
      × (s'.locked ≡ false)
      × (due 0 s'.sleepers ≡ insert_due p t (due 0 s.sleepers))
unfolding put_sleep
put_sleep-due s p t free lt f = (
  record s { sleepers = insert_sleeper p t s.sleepers },
  rw free,
  free,
  due-insert_sleeper p t s.sleepers lt f,
)
