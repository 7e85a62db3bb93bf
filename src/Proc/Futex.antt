-- ===== src/Proc/Futex.antt =====
-- kernel/proc/sync/futex.h and futex.cpp: queues of waiting PCBs by the physical address of a word.
-- The map is Data.HashMap with 64-bit keys, the queues are Proc.Queue threaded through `m_futexNext`.
-- `wake` lets the lock go round each `Scheduler::put`: the loop is one step here.
-- A wait ends at its `yield`: `leave` is what it does when it runs again. What the word holds and the
-- address of a new queue are arguments; `none` is a panic, or a spin on a lock that nobody releases.
use mathlib.Core.Option
use hobby_os.Prelude.{
  ℕ, zero, suc, ◌+◌, ◌%◌, Bool, true, false, not, ◌&&◌, ◌||◌, bit_and, Option, none, some, ◌==◌,
  ltb, if◌then◌else◌, add32, sub32, update, ℤ, pos, negsuc,
}
use hobby_os.Data.HashMap
use hobby_os.Data.HashMap.{HashMap}
use hobby_os.Data.HashMap.Traits.{u64_trait}
use hobby_os.Mm.PageTable.{PageTables, translate}
use hobby_os.Proc.Queue
use hobby_os.Proc.Queue.{Links, is_null, push_back, pop_front}
use hobby_os.Proc.Pcb.{Pcbs, ProcState, set_state, put}
use hobby_os.Proc.Sleep.{Timer, put_sleep, wake_up}
pub mod Waits
pub mod Wakes

pub record FutexQueue : Type 0 where
  pub waiters_head : Option ℕ
  pub waiters_tail : Option ℕ
  pub ref_count : ℕ

pub record Futexes : Type 0 where
  -- `s_table`, null until the first wait
  pub table : Option (HashMap ℕ ℕ)
  pub queues : ℕ → FutexQueue
  -- `m_futexNext` and `m_waitingOnFutexKey` of all PCBs
  pub futex_next : ℕ → Option ℕ
  pub waiting_key : ℕ → ℕ

abbrev pub futex_eagain : ℤ
futex_eagain = negsuc 10

abbrev pub futex_einval : ℤ
futex_einval = negsuc 21

abbrev pub futex_etimedout : ℤ
futex_etimedout = negsuc 109

abbrev pub is_sleeping : ProcState → Bool
is_sleeping ProcState.sleeping = true
is_sleeping _ = false

-- The queue object at `q`, with the pointers of the PCBs.
abbrev pub links_of : Futexes → ℕ → Links
links_of f q = record {
  head = (f.queues q).waiters_head;
  tail = (f.queues q).waiters_tail;
  next = f.futex_next;
}

abbrev pub with_links : Futexes → ℕ → Links → Futexes
with_links f q l = record f {
  queues = update f.queues q (record (f.queues q) { waiters_head = l.head; waiters_tail = l.tail });
  futex_next = l.next;
}

abbrev pub table_of : Option (HashMap ℕ ℕ) → HashMap ℕ ℕ
table_of none = HashMap.init 64
table_of (some t) = t

abbrev pub empty_queue : FutexQueue
empty_queue = record { waiters_head = none; waiters_tail = none; ref_count = 0 }

abbrev pub find_queue : Futexes → HashMap ℕ ℕ → ℕ → ℕ → Option (Futexes × ℕ)
find_queue f t key fresh =
    let old =
      Option.map (λ q. (record f { table = some t }, q)) (HashMap.at ⦃t = u64_trait⦄ t key) in
    let new =
      Option.map
        (λ t'. (record f { table = some t'; queues = update f.queues fresh empty_queue }, fresh))
        (HashMap.insert ⦃t = u64_trait⦄ t key fresh) in
    if HashMap.contains ⦃t = u64_trait⦄ t key then old else new

unfoldable pub get_queue : Futexes → ℕ → ℕ → Option (Futexes × ℕ)
get_queue f key fresh = find_queue f (table_of f.table) key fresh

-- `delete q` frees memory only.
abbrev pub free_if_idle : Futexes → HashMap ℕ ℕ → ℕ → ℕ → Option Futexes
free_if_idle f t key q =
    let idle = (f.queues q).ref_count == 0 && is_null (f.queues q).waiters_head in
    let freed =
      Option.map (λ t'. record f { table = some t' }) (HashMap.erase ⦃t = u64_trait⦄ t key) in
    if idle then freed else some f

abbrev pub try_free_found : Futexes → HashMap ℕ ℕ → ℕ → Option ℕ → Option Futexes
try_free_found f t key none = none
try_free_found f t key (some q) = free_if_idle f t key q

abbrev pub try_free_in : Futexes → Option (HashMap ℕ ℕ) → ℕ → Option Futexes
try_free_in f none key = some f
try_free_in f (some t) key =
    if HashMap.contains ⦃t = u64_trait⦄ t key
    then try_free_found f t key (HashMap.at ⦃t = u64_trait⦄ t key)
    else some f

unfoldable pub try_free_queue : Futexes → ℕ → Option Futexes
try_free_queue f key = try_free_in f f.table key

-- The physical address of the word, or 0: null and unaligned pointers, no page tables, no page.
abbrev pub translate_key : Option (PageTables × ℕ) → ℕ → ℕ
translate_key none uaddr = 0
translate_key (some (m, root)) uaddr = translate m root uaddr

unfoldable pub to_phys_key : Option (PageTables × ℕ) → ℕ → ℕ
to_phys_key pmt uaddr =
    if uaddr == 0 || not (bit_and uaddr 3 == 0) then 0 else translate_key pmt uaddr

-- What the call is: refused, a wait or a wake, on a key.
pub data Operation : Type 0 where
  invalid : Operation
  wait_on : ℕ → Operation
  wake_on : ℕ → Operation

abbrev pub operation_of : ℕ → ℕ → Operation
operation_of key op = if op == 0 then wait_on key else (if op == 1 then wake_on key else invalid)

unfoldable pub syscall : Option (PageTables × ℕ) → ℕ → ℕ → Operation
syscall pmt uaddr op =
    let key = to_phys_key pmt uaddr in if key == 0 then invalid else operation_of key op

pub record World : Type 0 where
  pub futexes : Futexes
  pub timer : Timer
  pub pcbs : Pcbs

-- `wait` from the test of the word to the `yield`, for the running PCB.
abbrev pub enqueue : World → ℕ → Futexes × ℕ → World
enqueue w key (f, q) =
    let me = w.pcbs.current in
    let counted = record f {
      queues =
          update f.queues q (record (f.queues q) { ref_count = add32 (f.queues q).ref_count 1 });
      waiting_key = update f.waiting_key me key;
    } in
    record w {
      futexes = with_links counted q (push_back (links_of counted q) me);
      pcbs = set_state w.pcbs me ProcState.blocked;
    }

abbrev pub start_timeout : World → ℕ → Option World
start_timeout w timeout =
    let me = w.pcbs.current in
    let asleep =
      Option.map (λ t. record w { timer = t; pcbs = set_state w.pcbs me ProcState.sleeping })
        (put_sleep w.timer me timeout) in
    if ltb 0 timeout then asleep else some w

abbrev pub enter_with : World → ℕ → ℕ → Option (Futexes × ℕ) → Option World
enter_with w key timeout none = none
enter_with w key timeout (some r) = start_timeout (enqueue w key r) timeout

-- The result is the answer of a call that does not wait, or nothing.
unfoldable pub enter : World → ℕ → ℕ → ℕ → ℕ → ℕ → Option (World × Option ℤ)
enter w key fresh current val timeout =
    let waits =
      Option.map (λ w'. (w', none)) (enter_with w key timeout (get_queue w.futexes key fresh)) in
    if not (current == val) then some (w, some futex_eagain) else waits

-- The rest of `wait`, when the PCB `me` runs again; `q` is the queue that it had got.
unfoldable pub leave : Futexes → ℕ → ℕ → ℕ → ℕ → ℕ → ℕ → Option (Futexes × ℤ)
leave f key q me timeout now val =
    let f1 = record f {
      waiting_key = update f.waiting_key me 0;
      queues =
          update f.queues q (record (f.queues q) { ref_count = sub32 (f.queues q).ref_count 1 });
    } in
    let answer = if ltb 0 timeout && now == val then futex_etimedout else pos 0 in
    Option.map (λ f2. (f2, answer)) (try_free_queue f1 key)

-- A waiter with a timeout is taken out of the sleep queue, and keeps its state.
unfoldable pub wake_one : Timer → Pcbs → ℕ → Option (Timer × Pcbs)
wake_one t k p =
    let early = Option.map (λ t'. (t', put k p)) (wake_up t p) in
    if is_sleeping (k.state p) then early else some (t, put (set_state k p ProcState.ready) p)

pub record Woken : Type 0 where
  pub queue : Links
  pub timer : Timer
  pub pcbs : Pcbs
  pub woken : ℕ

abbrev pub one_more : Woken → Woken
one_more r = record r { woken = r.woken + 1 }

abbrev pub wake_next : (Timer → Pcbs → Option Woken) → Option (Timer × Pcbs) → Option Woken
wake_next rest none = none
wake_next rest (some (t, k)) = Option.map one_more (rest t k)

abbrev pub wake_popped :
    Links → Timer → Pcbs → (Timer → Pcbs → Option Woken) → Option ℕ → Option Woken
wake_popped q t k rest none = some (record { queue = q; timer = t; pcbs = k; woken = 0 })
wake_popped q t k rest (some p) = wake_next rest (wake_one t k p)

-- `while (woken < count)`, with `count` rounds left.
unfoldable pub wake_loop : ℕ → Links → Timer → Pcbs → Option Woken
wake_loop zero q t k = some (record { queue = q; timer = t; pcbs = k; woken = 0 })
wake_loop (suc n) q t k = wake_popped q t k (wake_loop n (pop_front q).1) (pop_front q).0

abbrev pub wake_done : World → ℕ → ℕ → Option Woken → Option (World × ℕ)
wake_done w key q none = none
wake_done w key q (some r) =
    Option.map (λ f. (record { futexes = f; timer = r.timer; pcbs = r.pcbs }, r.woken))
      (try_free_queue (with_links w.futexes q r.queue) key)

abbrev pub wake_found : World → ℕ → ℕ → Option ℕ → Option (World × ℕ)
wake_found w key count none = none
wake_found w key count (some q) =
    wake_done w key q (wake_loop count (links_of w.futexes q) w.timer w.pcbs)

abbrev pub wake_in : World → ℕ → ℕ → Option (HashMap ℕ ℕ) → Option (World × ℕ)
wake_in w key count none = some (w, 0)
wake_in w key count (some t) =
    if HashMap.contains ⦃t = u64_trait⦄ t key
    then wake_found w key count (HashMap.at ⦃t = u64_trait⦄ t key)
    else some (w, 0)

unfoldable pub wake : World → ℕ → ℕ → Option (World × ℕ)
wake w key count = wake_in w key count w.futexes.table

abbrev pub remove_found : ℕ → Futexes → ℕ → Option ℕ → Option Futexes
remove_found fuel f p none = none
remove_found fuel f p (some q) =
    Option.map (λ l. with_links f q (record l { next = update l.next p none }))
      (Queue.remove fuel (links_of f q) p)

abbrev pub remove_in : ℕ → Futexes → ℕ → ℕ → Option (HashMap ℕ ℕ) → Option Futexes
remove_in fuel f key p none = some f
remove_in fuel f key p (some t) =
    if HashMap.contains ⦃t = u64_trait⦄ t key
    then remove_found fuel f p (HashMap.at ⦃t = u64_trait⦄ t key)
    else some f

unfoldable pub force_remove : ℕ → Futexes → ℕ → ℕ → Option Futexes
force_remove fuel f key p = remove_in fuel f key p f.table
