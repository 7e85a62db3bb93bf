-- ===== src/Proc/Futex/Wakes.antt =====
-- Waking in kernel/proc/sync/futex.cpp: in the order of waiting, as many as asked for.
use hobby_os.Prelude.{
  ℕ, zero, suc, ◌≡◌, refl, sym, ap, ◌∙◌, Bool, true, false, Option, some, List, [], ◌∷◌, min,
  length, take, drop, ◌==◌, ◌&&◌, All, Absent, arith, update_self, update_ne, if◌then◌else◌,
}
use mathlib.Core.Option
use mathlib.Core.Path.{subst, ap₂}
use hobby_os.Data.HashMap
use hobby_os.Data.HashMap.{HashMap}
use hobby_os.Data.HashMap.Traits.{u64_trait}
use hobby_os.Data.HashMap.Represents.{Represents}
use hobby_os.Data.HashMap.Erase.{contains-Represents, erase-Represents, is_set}
use hobby_os.Proc.Queue.{Links, is_null, pop_front}
use hobby_os.Proc.Queue.Refine.{Holds, pop_front-Holds, pop_front-empty}
use hobby_os.Proc.Pcb.{Pcbs, ProcState, set_state, put}
use hobby_os.Proc.Sleep.{Timer}
use hobby_os.Proc.Futex.{
  Futexes, FutexQueue, World, Woken, is_sleeping, links_of, with_links, one_more, wake_next,
  wake_popped, wake_one, wake_loop, wake, wake_in, try_free_queue, try_free_in,
}

-- The PCBs become READY and enter the run queue, one after the other.
unfoldable pub ready_all : Pcbs → List ℕ → Pcbs
ready_all k [] = k
ready_all k (p ∷ ps) = ready_all (put (set_state k p ProcState.ready) p) ps

-- None of them waits with a timeout.
abbrev pub Untimed : Pcbs → List ℕ → Type 0
Untimed k = All (λ p. is_sleeping (k.state p) ≡ false)

put-state : (k : Pcbs) (p : ℕ) → (put k p).state ≡ k.state
unfolding put
put-state k p = refl

Untimed-ready :
    (k : Pcbs) (p : ℕ) (ps : List ℕ)
    → Absent p ps
    → Untimed k ps
    → Untimed (put (set_state k p ProcState.ready) p) ps
unfolding put
Untimed-ready k p [] away h = tt
Untimed-ready k p (q ∷ ps) away h = (
  ap is_sleeping (update_ne k.state p ProcState.ready q (λ e. away.0 (sym e))) ∙ h.0,
  Untimed-ready k p ps away.1 h.1,
)

wake_one_untimed :
    (t : Timer) (k : Pcbs) (p : ℕ)
    → is_sleeping (k.state p) ≡ false
    → wake_one t k p ≡ some (t, put (set_state k p ProcState.ready) p)
unfolding wake_one
wake_one_untimed t k p h = rw h

wake_loop-ready :
    (n : ℕ) (q : Links) (t : Timer) (k : Pcbs) (ws : List ℕ)
    → Holds q ws
    → Untimed k ws
    → (r : Woken) × (wake_loop n q t k ≡ some r)
      × (r.woken ≡ min n (length ws))
      × Holds r.queue (drop n ws)
      × (r.timer ≡ t)
      × (r.pcbs ≡ ready_all k (take n ws))
unfolding wake_loop ready_all
wake_loop-ready zero q t k ws h blocked =
    (record { queue = q; timer = t; pcbs = k; woken = 0 }, refl, omega arith, h, refl, refl)
wake_loop-ready (suc n) q t k [] h blocked = (
  record { queue = q; timer = t; pcbs = k; woken = 0 },
  ap (wake_popped q t k (wake_loop n (pop_front q).1)) (ap (λ r. r.0) (pop_front-empty q h)),
  omega arith,
  h,
  refl,
  refl,
)
wake_loop-ready (suc n) q t k (p ∷ ws) h blocked =
    let (popped, left) = pop_front-Holds q p ws h in
    let (r, run, count, rest, timer, pcbs) =
      wake_loop-ready n (pop_front q).1 t (put (set_state k p ProcState.ready) p) ws left
        (Untimed-ready k p ws h.distinct.0 blocked.1) in
    (
      one_more r,
      ap (wake_popped q t k (wake_loop n (pop_front q).1)) popped
          ∙ ap (wake_next (wake_loop n (pop_front q).1)) (wake_one_untimed t k p blocked.0)
          ∙ ap (Option.map one_more) run,
      omega (arith, count),
      rest,
      timer,
      pcbs,
    )

-- The table leads from the key to the queue object `q`.
pub record Leads (f : Futexes) (key q : ℕ) : Type 0 where
  pub map : HashMap ℕ ℕ
  pub view : ℕ → Option ℕ
  pub table : f.table ≡ some map
  pub reads : Represents ⦃t = u64_trait⦄ view map
  pub entry : view key ≡ some q

-- A queue that is idle leaves the table; the queues and the pointers stay as they are.
try_free_queue-Leads :
    (f : Futexes) (key q : ℕ)
    → Leads f key q
    → (f' : Futexes) × (try_free_queue f key ≡ some f')
      × (f'.queues ≡ f.queues)
      × (f'.futex_next ≡ f.futex_next)
unfolding try_free_queue
try_free_queue-Leads f key q h =
    let (f', run, queues, next) =
      freed ((f.queues q).ref_count == 0 && is_null (f.queues q).waiters_head) in
    (f', ap (λ o. try_free_in f o key) h.table ∙ rw (there, found) run, queues, next)
  where
    there : HashMap.contains ⦃t = u64_trait⦄ h.map key ≡ true
    there = contains-Represents ⦃t = u64_trait⦄ h.view h.map key h.reads ∙ ap is_set h.entry

    found : HashMap.at ⦃t = u64_trait⦄ h.map key ≡ some q
    found = h.reads.reads key ∙ h.entry

    freed :
        (b : Bool)
        → (f' : Futexes) × ((if b
              then Option.map
                  (λ t'. record f { table = some t' })
                  (HashMap.erase ⦃t = u64_trait⦄ h.map key)
              else some f)
            ≡ some f')
          × (f'.queues ≡ f.queues)
          × (f'.futex_next ≡ f.futex_next)
    freed true =
        let (m', run, holds, one, width) =
          erase-Represents ⦃t = u64_trait⦄ h.view h.map key q h.reads h.entry in
        (record f { table = some m' }, rw run, refl, refl)
    freed false = (f, refl, refl, refl)

pub links_of-with_links : (f : Futexes) (q : ℕ) (l : Links) → links_of (with_links f q l) q ≡ l
links_of-with_links f q l =
    ap (λ (x : FutexQueue). record { head = x.waiters_head; tail = x.waiters_tail; next = l.next })
      (update_self f.queues q
        (record (f.queues q) { waiters_head = l.head; waiters_tail = l.tail }))

links_same :
    (f g : Futexes) (q : ℕ)
    → f.queues ≡ g.queues
    → f.futex_next ≡ g.futex_next
    → links_of f q ≡ links_of g q
links_same f g q h n =
    ap₂
      (λ (qs : ℕ → FutexQueue) (next : ℕ → Option ℕ). record {
        head = (qs q).waiters_head;
        tail = (qs q).waiters_tail;
        next = next;
      })
      h n

-- A wake on a key whose queue holds PCBs that wait without a timeout wakes the first `count` of them,
-- or all: they become READY and enter the run queue in the order of their waiting, the others stay in
-- the queue, and the answer is their number.
pub wake-ready :
    (w : World) (key count q : ℕ) (ws : List ℕ)
    → Leads w.futexes key q
    → Holds (links_of w.futexes q) ws
    → Untimed w.pcbs ws
    → (w' : World) × (wake w key count ≡ some (w', min count (length ws)))
      × Holds (links_of w'.futexes q) (drop count ws)
      × (w'.pcbs ≡ ready_all w.pcbs (take count ws))
unfolding wake
wake-ready w key count q ws h queue blocked =
    let (r, run, woken, rest, timer, pcbs) =
      wake_loop-ready count (links_of w.futexes q) w.timer w.pcbs ws queue blocked in
    let f1 = with_links w.futexes q r.queue in
    let (f', freed, queues, next) = try_free_queue-Leads f1 key q (still r.queue) in
    (
      record { futexes = f'; timer = r.timer; pcbs = r.pcbs },
      ap (λ o. wake_in w key count o) h.table
          ∙ rw (there, found, run, freed)
              (ap (λ n. some (record { futexes = f'; timer = r.timer; pcbs = r.pcbs }, n)) woken),
      subst (λ l. Holds l (drop count ws))
          (sym (links_same f' f1 q queues next ∙ links_of-with_links w.futexes q r.queue)) rest,
      pcbs,
    )
  where
    there : HashMap.contains ⦃t = u64_trait⦄ h.map key ≡ true
    there = contains-Represents ⦃t = u64_trait⦄ h.view h.map key h.reads ∙ ap is_set h.entry

    found : HashMap.at ⦃t = u64_trait⦄ h.map key ≡ some q
    found = h.reads.reads key ∙ h.entry

    still : (l : Links) → Leads (with_links w.futexes q l) key q
    still l = record {
      map = h.map;
      view = h.view;
      table = h.table;
      reads = h.reads;
      entry = h.entry;
    }
