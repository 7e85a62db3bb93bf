-- ===== src/Proc/Semaphore/Traces.antt =====
-- Any sequence of calls, against a counter with a list of waiters.
use hobby_os.Prelude.{
  ℕ, ◌+◌, ◌-◌, ◌≤◌, ◌<◌, ◌≡◌, refl, sym, ◌∙◌, ◌≢◌, Bool, true, false, ◌⊎◌, inl, inr, Option, none,
  some, List, [], ◌∷◌, ◌++◌, arith, Absent, half_word, if◌then◌else◌, ◌==◌, Bool-cases,
}
use hobby_os.Proc.Queue.Refine.{Holds}
use hobby_os.Proc.Pcb.{Pcbs}
use hobby_os.Proc.Semaphore.{Semaphore, signal, wait}
use hobby_os.Proc.Semaphore.Steps.{signal_idle, signal_blocked, wait_granted, wait_blocked, woken}

-- `P` by the PCB that runs, `V` by anyone.
pub data Call : Type 0 where
  waits : ℕ → Call
  signals : Call

-- One call on the code's semaphore at address `me`. The scheduler has made the caller current.
unfoldable pub call : ℕ → Call → Semaphore × Pcbs → Option (Semaphore × Pcbs)
call me (waits p) (s, k) = let (_, s', k') = wait me s (record k { current = p }) in some (s', k')
call me signals (s, k) = signal s k

unfoldable pub run : ℕ → List Call → Semaphore × Pcbs → Option (Semaphore × Pcbs)
unfolding call
run me [] s = some s
run me (c ∷ cs) s = elim (call me c s) [ none ↦ none | some s' ↦ run me cs s' ]

-- The specification: a count, the waiters in order, and the PCBs let through, in order.
pub record Counter : Type 0 where
  pub count : ℕ
  pub waiters : List ℕ
  pub passed : List ℕ

unfoldable pub spec_signal : Counter → Counter
spec_signal c = elim c.waiters [
  | [] ↦ record c { count = c.count + 1 }
  | p ∷ ps ↦ record c { waiters = ps; passed = c.passed ++ p ∷ [] }
]

unfoldable pub spec_call : Call → Counter → Counter
unfolding spec_signal
spec_call (waits p) c =
    if c.count == 0
    then record c { waiters = c.waiters ++ p ∷ [] }
    else record c { count = c.count - 1; passed = c.passed ++ p ∷ [] }
spec_call signals c = spec_signal c

unfoldable pub spec_run : List Call → Counter → Counter
spec_run [] c = c
spec_run (k ∷ ks) c = spec_run ks (spec_call k c)

abbrev pub signal_count : List Call → ℕ
signal_count [] = 0
signal_count (waits p ∷ ks) = signal_count ks
signal_count (signals ∷ ks) = signal_count ks + 1

-- A PCB that is blocked makes no call.
abbrev pub Allowed : List Call → Counter → Type 0
Allowed [] c = Unit
Allowed (waits p ∷ ks) c = Absent p c.waiters × Allowed ks (spec_call (waits p) c)
Allowed (signals ∷ ks) c = Allowed ks (spec_call signals c)

-- The semaphore and the specification agree, and nobody waits while the count is positive.
pub record Agrees (s : Semaphore) (c : Counter) : Type 0 where
  pub count : s.value ≡ c.count
  pub queue : Holds s.blocked c.waiters
  pub eager : (c.count ≡ 0) ⊎ (c.waiters ≡ [])

-- The three fields of a counter stand apart here, so that a proof can split on the waiters.
signal-Agrees :
    (s : Semaphore) (k : Pcbs) (count : ℕ) (waiters passed : List ℕ)
    → count + 1 < half_word
    → Agrees s (record { count = count; waiters = waiters; passed = passed })
    → (s' : Semaphore) × (k' : Pcbs) × (signal s k ≡ some (s', k'))
      × Agrees s' (spec_call signals (record { count = count; waiters = waiters; passed = passed }))
unfolding spec_call spec_signal
signal-Agrees s k count [] passed b a = (
  record s { value = s.value + 1 },
  k,
  signal_idle s k a.queue (rw a.count b),
  record { count = omega (arith, a.count); queue = a.queue; eager = inr refl },
)
signal-Agrees s k count (p ∷ ps) passed b a =
    let (s', done, same, rest) = signal_blocked s k p ps a.queue in
    (
      s',
      woken k p,
      done,
      record {
        count = same ∙ a.count;
        queue = rest;
        eager = elim a.eager [ inl z ↦ inl z | inr e ↦ cc ];
      },
    )

wait-Agrees :
    (me : ℕ) (s : Semaphore) (k : Pcbs) (c : Counter)
    → Agrees s c
    → Absent k.current c.waiters
    → (b : Bool) × (s' : Semaphore) × (k' : Pcbs) × (wait me s k ≡ (b, s', k'))
      × Agrees s' (spec_call (waits k.current) c)
unfolding spec_call
wait-Agrees me s k c a absent = elim (Bool-cases (c.count == 0)) [
  | inl zero_count ↦
      let z : c.count ≡ 0 = ground arith in
      let (s', k', done, same, rest, st, on) =
        wait_blocked me s k c.waiters (a.count ∙ z) a.queue absent in
      (
        true,
        s',
        k',
        done,
        rw zero_count (record { count = same ∙ sym z; queue = rest; eager = inl z }),
      )
  | inr positive ↦
      let nz : s.value ≢ 0 = λ e. absurd (ground arith) in
      (
        false,
        record s { value = s.value - 1 },
        k,
        wait_granted me s k nz,
        rw positive (record {
          count = omega (arith, a.count);
          queue = a.queue;
          eager = elim a.eager [ inl z ↦ absurd (ground arith) | inr e ↦ inr e ];
        }),
      )
]

count_wait : (p : ℕ) (c : Counter) → (spec_call (waits p) c).count ≤ c.count
unfolding spec_call
count_wait p c = ground arith

count_signal : (c : Counter) → (spec_call signals c).count ≤ c.count + 1
unfolding spec_call spec_signal
count_signal c = ground arith

-- From a semaphore that agrees with the specification, every run of the code on calls that blocked
-- PCBs do not make, and that can not carry the count past a word of 32 bits, returns, and agrees with
-- the specification at its end: the count, the PCBs that are blocked and their order, and that nobody
-- is blocked while the count is positive.
pub run-Agrees :
    (me : ℕ) (calls : List Call) (s : Semaphore) (k : Pcbs) (c : Counter)
    → c.count + signal_count calls < half_word
    → Allowed calls c
    → Agrees s c
    → (s' : Semaphore) × (k' : Pcbs) × (run me calls (s, k) ≡ some (s', k'))
      × Agrees s' (spec_run calls c)
unfolding run spec_run
run-Agrees me [] s k c b ok a = (s, k, refl, a)
run-Agrees me (waits p ∷ ks) s k c b ok a =
    let (_, s1, k1, done, a1) = wait-Agrees me s (record k { current = p }) c a ok.0 in
    let (s', k', rest, a') =
      run-Agrees me ks s1 k1 (spec_call (waits p) c) (omega (arith, count_wait p c)) ok.1 a1 in
    (s', k', rw (done, run) rest, a')
run-Agrees me (signals ∷ ks) s k c b ok a =
    let (s1, k1, done, a1) = signal-Agrees s k c.count c.waiters c.passed (omega arith) a in
    let (s', k', rest, a') =
      run-Agrees me ks s1 k1 (spec_call signals c) (omega (arith, count_signal c)) ok a1 in
    (s', k', rw (done, run) rest, a')
