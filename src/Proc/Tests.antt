-- ===== src/Proc/Tests.antt =====
-- The theorems on processes, each applied to a small system.
use hobby_os.Prelude.{
  ℕ, ◌≡◌, ◌≢◌, inr, refl, ap, ◌∙◌, Bool, true, false, none, some, List, [], ◌∷◌, ◌++◌, ◌==◌,
  if◌then◌else◌, arith,
}
use hobby_os.Data.HashMap
use hobby_os.Data.HashMap.{HashTrait, HashMapEntry, HashMap, no_entries, push, find_entry}
use hobby_os.Data.HashMap.Rehash.{total-no_entries}
use hobby_os.Data.HashMap.Chains.{read-push, push-IsPlaced, total, total-push}
use hobby_os.Data.HashMap.Represents.{Represents, put, value_of}
use hobby_os.Data.HashMap.Traits.{u64_trait}
use hobby_os.Proc.Futex.{Futexes, World, links_of, enter, wake}
use hobby_os.Proc.Futex.Waits.{woken_after_wait}
use hobby_os.Proc.Futex.Wakes.{Leads, ready_all, wake-ready}
use hobby_os.Proc.Queue.{Links, remove}
use hobby_os.Proc.Queue.Refine.{Holds}
use hobby_os.Proc.Queue.Remove.{remove-Holds}
use hobby_os.Proc.Pcb.{ProcState, Pcbs, to, dispatch}
use hobby_os.Proc.Pcb.Dispatch.{Queued, dispatch_running}
use hobby_os.Proc.Semaphore.{Semaphore, signal, wait}
use hobby_os.Proc.Semaphore.Traces.{
  waits, signals, run, Counter, spec_call, spec_run, Agrees, run-Agrees,
}
use hobby_os.Proc.Semaphore.HandsOver.{signal-wait}
use hobby_os.Proc.Sleep.{Sleeper, Timer, put_sleep, awake, wake_up}
use hobby_os.Proc.Sleep.Deadlines.{due, insert_due, put_sleep-due}
use hobby_os.Proc.Sleep.Ticks.{elapse, expired, wake_all, HasTick, awake-due}
use hobby_os.Proc.Sleep.Wakes.{wake_up_behind, wake_up-Absent}

-- A queue of 7 and 9.
abbrev two_links : Links
two_links = record { head = some 7; tail = some 9; next = λ p. if p == 7 then some 9 else none }

two_links-Holds : Holds two_links (7 ∷ 9 ∷ [])
two_links-Holds = record {
  chain = (refl, (refl, refl));
  tail_last = refl;
  distinct = ((omega arith, tt), (tt, tt));
}

remove-Holds_example : (q' : Links) × (remove 5 two_links 9 ≡ some q') × Holds q' ((7 ∷ []) ++ [])
remove-Holds_example = remove-Holds 5 two_links 9 (7 ∷ []) [] (omega arith) two_links-Holds

-- PCB 3 runs or is blocked; 7 is blocked and 9 is READY.
abbrev states : ProcState → ℕ → ProcState
states st p = if p == 3 then st else if p == 7 then ProcState.blocked else ProcState.ready

abbrev pcbs : ProcState → Pcbs
pcbs st = record {
  state = states st;
  waiting_on = λ _. none;
  time_slice_counter = 7;
  has_list = true;
  run_queue = two_links;
  current = 3;
}

dispatch_running_example :
    (s' : Pcbs) × (dispatch 5 (pcbs ProcState.running) ≡ some (to 9, s'))
    × Queued s' ([] ++ 3 ∷ [])
    × (s'.current ≡ 9)
    × (s'.state 9 ≡ ProcState.running)
    × (s'.state 3 ≡ ProcState.ready)
    × (s'.time_slice_counter ≡ 0)
    × ((p : ℕ) → p ≢ 9 → p ≢ 3 → s'.state p ≡ states ProcState.running p)
dispatch_running_example =
    dispatch_running 5 (pcbs ProcState.running) (7 ∷ []) [] 9 (omega arith)
      (record { made = refl; holds = two_links-Holds }) (omega arith, (omega arith, tt)) refl
      (refl, tt) refl

-- A mutex, taken by 3, waited for by 4, and given back.
abbrev mutex : Semaphore
mutex = record { value = 1; blocked = record { head = none; tail = none; next = λ _. none } }

abbrev counter : Counter
counter = record { count = 1; waiters = []; passed = [] }

mutex-Agrees : Agrees mutex counter
mutex-Agrees = record {
  count = refl;
  queue = record { chain = refl; tail_last = refl; distinct = tt };
  eager = inr refl;
}

run-Agrees_example :
    (s' : Semaphore) × (k' : Pcbs) × (run 100
        (waits 3 ∷ waits 4 ∷ signals ∷ [])
        (mutex, pcbs ProcState.running)
      ≡ some (s', k'))
    × Agrees s' (spec_run (waits 3 ∷ waits 4 ∷ signals ∷ []) counter)
unfolding spec_call
run-Agrees_example =
    run-Agrees 100 (waits 3 ∷ waits 4 ∷ signals ∷ []) mutex (pcbs ProcState.running) counter
      (omega arith) (tt, (tt, tt)) mutex-Agrees

-- 1 wakes at tick 1, 2 at tick 1 and 3 at tick 6.
abbrev sleepers : List Sleeper
sleepers =
    record { pcb = 1; rest = 1 } ∷ record { pcb = 2; rest = 0 } ∷ record { pcb = 3; rest = 5 } ∷ []

abbrev timer : Timer
timer = record { locked = false; sleepers = sleepers }

put_sleep-due_example :
    (s' : Timer) × (put_sleep timer 4 3 ≡ some s')
    × (s'.locked ≡ false)
    × (due 0 s'.sleepers ≡ insert_due 4 3 (due 0 sleepers))
put_sleep-due_example =
    put_sleep-due timer 4 3 refl (omega arith) (omega arith, (omega arith, (omega arith, tt)))

awake-due_example :
    (s' : Timer) × (awake timer (pcbs ProcState.running)
      ≡ some (s', wake_all (expired 1 (due 0 sleepers)) (pcbs ProcState.running)))
    × (s'.locked ≡ false)
    × (due 0 s'.sleepers ≡ elapse 1 (due 0 sleepers))
    × HasTick s'.sleepers
awake-due_example =
    awake-due timer (pcbs ProcState.running) refl (omega arith)
      (omega arith, (omega arith, (omega arith, tt)))

-- 1 wakes at tick 2, 2 at tick 5 and 3 at tick 9, which becomes tick 6.
wake_up_behind_example :
    (s' : Timer) × (wake_up
        (record {
          locked = false;
          sleepers =
              record { pcb = 1; rest = 2 }
              ∷ record { pcb = 2; rest = 3 }
              ∷ record { pcb = 3; rest = 4 }
              ∷ [];
        })
        2
      ≡ some s')
    × (s'.locked ≡ false)
    × (due 0 (
          record { pcb = 1; rest = 2 }
          ∷ record { pcb = 2; rest = 3 }
          ∷ record { pcb = 3; rest = 4 }
          ∷ [])
        ≡ (1, 2) ∷ (2, 5) ∷ (3, 9) ∷ [])
    × (due 0 s'.sleepers ≡ (1, 2) ∷ (3, 6) ∷ [])
wake_up_behind_example =
    wake_up_behind (record { pcb = 1; rest = 2 }) (record { pcb = 2; rest = 3 }) []
      (record { pcb = 3; rest = 4 } ∷ []) (omega arith, tt)

wake_up-Absent_example :
    (s' : Timer) × (wake_up timer 8 ≡ some s')
    × ((q t : ℕ) → put_sleep s' q t ≡ none)
    × ((k : Pcbs) → awake s' k ≡ none)
    × ((q : ℕ) → wake_up s' q ≡ none)
wake_up-Absent_example = wake_up-Absent timer 8 refl (omega arith, (omega arith, (omega arith, tt)))

instance abbrev key : HashTrait ℕ
key = u64_trait

abbrev futex_entry : HashMapEntry ℕ ℕ
futex_entry = record { key = 4096; value = 1 }

-- The word at 4096 has the queue 1, with 7 and 9.
abbrev one_key : HashMap ℕ ℕ
one_key = record { entries = push 4 no_entries futex_entry; capacity = 4; count = 1 }

one_key-Represents : Represents (put (λ k. none) 4096 1) one_key
unfolding total find_entry HashMap.at
one_key-Represents = record {
  width = omega arith;
  placed = push-IsPlaced 4 no_entries futex_entry (λ i h. (tt, tt)) refl;
  counted =
      omega (arith, total-push 4 no_entries futex_entry (omega arith), total-no_entries ℕ ℕ 4);
  reads = λ q. ap value_of (read-push 4 no_entries futex_entry q) ∙ cases (4096 == q);
}
  where
    cases :
        (b : Bool)
        → value_of {K = ℕ} {V = ℕ} (if b then some futex_entry else none)
          ≡ (if b then some 1 else none)
    cases true = refl
    cases false = refl

abbrev waiting : Futexes
waiting = record {
  table = some one_key;
  queues = λ q. record { waiters_head = some 7; waiters_tail = some 9; ref_count = 2 };
  futex_next = two_links.next;
  waiting_key = λ p. 4096;
}

abbrev world : World
world = record { futexes = waiting; timer = timer; pcbs = pcbs ProcState.running }

waiting-Leads : Leads waiting 4096 1
waiting-Leads = record {
  map = one_key;
  view = put (λ k. none) 4096 1;
  table = refl;
  reads = one_key-Represents;
  entry = refl;
}

wake-ready_example :
    (w' : World) × (wake world 4096 1 ≡ some (w', 1))
    × Holds (links_of w'.futexes 1) (9 ∷ [])
    × (w'.pcbs ≡ ready_all (pcbs ProcState.running) (7 ∷ []))
wake-ready_example =
    wake-ready world 4096 1 1 (7 ∷ 9 ∷ []) waiting-Leads two_links-Holds (refl, (refl, tt))

-- Later 12 runs and 14 is in the run queue.
abbrev later : Pcbs
later = record (pcbs ProcState.blocked) {
  run_queue = record { head = some 14; tail = some 14; next = λ _. none };
  current = 12;
}

later-Queued : Queued later (14 ∷ [])
later-Queued = record {
  made = refl;
  holds = record { chain = (refl, refl); tail_last = refl; distinct = (tt, tt) };
}

-- 3 waits behind 7 and 9, and 7 is woken.
signal-wait_example :
    (s1 : Semaphore) × (k1 : Pcbs) × (s2 : Semaphore) × (k2 : Pcbs) × (wait 100
        (record { value = 0; blocked = two_links })
        (pcbs ProcState.running)
      ≡ (true, s1, k1))
    × (k1.state 3 ≡ ProcState.blocked)
    × (k1.waiting_on 3 ≡ some 100)
    × (signal s1 later ≡ some (s2, k2))
    × (s2.value ≡ 0)
    × Holds s2.blocked (9 ∷ 3 ∷ [])
    × Queued k2 (14 ∷ 7 ∷ [])
    × (k2.state 7 ≡ ProcState.ready)
    × (k2.waiting_on 7 ≡ none)
    × ((q : ℕ) → 7 ≢ q → k2.state q ≡ later.state q)
signal-wait_example =
    signal-wait 100 (record { value = 0; blocked = two_links }) (pcbs ProcState.running) later
      (7 ∷ 9 ∷ []) (9 ∷ 3 ∷ []) (14 ∷ []) 7 refl two_links-Holds (omega arith, (omega arith, tt))
      refl later-Queued (omega arith, tt)

-- 3 waits too, and is woken with the other two.
woken_after_wait_example :
    (w1 : World) × (w2 : World) × (enter world 4096 8 5 5 0 ≡ some (w1, none))
    × (w1.pcbs.state 3 ≡ ProcState.blocked)
    × Holds (links_of w1.futexes 1) (7 ∷ 9 ∷ 3 ∷ [])
    × (wake (record w1 { timer = timer; pcbs = later }) 4096 5 ≡ some (w2, 3))
    × Holds (links_of w2.futexes 1) []
    × Queued w2.pcbs (14 ∷ 7 ∷ 9 ∷ 3 ∷ [])
    × (w2.pcbs.state 3 ≡ ProcState.ready)
woken_after_wait_example =
    woken_after_wait world 4096 8 1 5 5 (7 ∷ 9 ∷ []) (14 ∷ []) timer later waiting-Leads
      two_links-Holds (omega arith, (omega arith, tt)) (omega arith) later-Queued
      (refl, (refl, (refl, tt))) ((omega arith, tt), ((omega arith, tt), ((omega arith, tt), tt)))
