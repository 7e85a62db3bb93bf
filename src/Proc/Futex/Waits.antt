-- ===== src/Proc/Futex/Waits.antt =====
-- Waiting in kernel/proc/sync/futex.cpp, and the wake that follows.
use hobby_os.Prelude.{
  All, Distinct, ℕ, zero, suc, ◌+◌, ◌<◌, ◌≤◌, ◌≡◌, refl, sym, ap, ◌∙◌, true, none, some, List, [],
  ◌∷◌, ◌++◌, min, length, take, drop, ==_refl, Absent, arith, update, update_self, add32,
}
use mathlib.Core.Option
use mathlib.Core.List.{append_assoc, append-nil}
use hobby_os.Proc.Pcb.Dispatch.{Queued, put-Queued}
use hobby_os.Proc.Queue.Remove.{Absent-append}
use hobby_os.Proc.Sleep.{Timer}
use mathlib.Core.Path.{subst}
use hobby_os.Data.HashMap
use hobby_os.Data.HashMap.{HashMap}
use hobby_os.Data.HashMap.Traits.{u64_trait}
use hobby_os.Data.HashMap.Erase.{contains-Represents, is_set}
use hobby_os.Proc.Queue.{push_back}
use hobby_os.Proc.Queue.Refine.{Holds, push_back-Holds}
use hobby_os.Proc.Pcb.{Pcbs, ProcState, set_state, put}
use hobby_os.Proc.Futex.{
  Futexes, FutexQueue, World, links_of, find_queue, get_queue, table_of, enqueue, enter_with, enter,
  wake,
}
use hobby_os.Proc.Futex.Wakes.{Leads, Untimed, ready_all, links_of-with_links, wake-ready}

-- The queue of a key that has one.
get_queue-Leads :
    (f : Futexes) (key fresh q : ℕ)
    → (h : Leads f key q) → get_queue f key fresh ≡ some (record f { table = some h.map }, q)
unfolding get_queue
get_queue-Leads f key fresh q h =
    ap (λ o. find_queue f (table_of o) key fresh) h.table ∙ rw (there, found)
  where
    there : HashMap.contains ⦃t = u64_trait⦄ h.map key ≡ true
    there = contains-Represents ⦃t = u64_trait⦄ h.view h.map key h.reads ∙ ap is_set h.entry

    found : HashMap.at ⦃t = u64_trait⦄ h.map key ≡ some q
    found = h.reads.reads key ∙ h.entry

enqueue-Holds :
    (w : World) (key q : ℕ) (f : Futexes) (ws : List ℕ)
    → Holds (links_of f q) ws
    → Absent w.pcbs.current ws
    → Holds (links_of (enqueue w key (f, q)).futexes q) (ws ++ w.pcbs.current ∷ [])
enqueue-Holds w key q f ws h away =
    subst (λ l. Holds l (ws ++ w.pcbs.current ∷ []))
      (sym (links_of-with_links counted q (push_back (links_of counted q) w.pcbs.current)))
      (push_back-Holds (links_of counted q) ws w.pcbs.current
        (subst (λ l. Holds l ws) (sym uncounted) h) away)
  where
    counted : Futexes
    counted = record f {
      queues =
          update f.queues q (record (f.queues q) { ref_count = add32 (f.queues q).ref_count 1 });
      waiting_key = update f.waiting_key w.pcbs.current key;
    }

    uncounted : links_of counted q ≡ links_of f q
    uncounted =
        ap
          (λ (x : FutexQueue). record {
            head = x.waiters_head;
            tail = x.waiters_tail;
            next = f.futex_next;
          })
          (update_self f.queues q
            (record (f.queues q) { ref_count = add32 (f.queues q).ref_count 1 }))

take_all : (n : ℕ) (xs : List ℕ) → length xs ≤ n → take n xs ≡ xs
take_all zero [] h = refl
take_all zero (x ∷ xs) h = absurd (omega (arith, h))
take_all (suc n) [] h = refl
take_all (suc n) (x ∷ xs) h = ap (λ ys. x ∷ ys) (take_all n xs (omega (arith, h)))

drop_all : (n : ℕ) (xs : List ℕ) → length xs ≤ n → drop n xs ≡ []
drop_all zero [] h = refl
drop_all zero (x ∷ xs) h = absurd (omega (arith, h))
drop_all (suc n) [] h = refl
drop_all (suc n) (x ∷ xs) h = drop_all n xs (omega (arith, h))

ready_all-last :
    (k : Pcbs) (ps : List ℕ) (p : ℕ) → (ready_all k (ps ++ p ∷ [])).state p ≡ ProcState.ready
unfolding ready_all put
ready_all-last k [] p = update_self k.state p ProcState.ready
ready_all-last k (q ∷ ps) p = ready_all-last (put (set_state k q ProcState.ready) q) ps p

length-snoc : (xs : List ℕ) (x : ℕ) → length (xs ++ x ∷ []) ≡ length xs + 1
length-snoc [] x = omega arith
length-snoc (y ∷ xs) x = omega (arith, length-snoc xs x)

-- The state of the futexes when the running PCB has begun to wait.
abbrev pub entered : (w : World) (key q : ℕ) → Leads w.futexes key q → World
entered w key q h = enqueue w key (record (w.futexes) { table = some h.map }, q)

enter-entered :
    (w : World) (key fresh q val : ℕ)
    → (h : Leads w.futexes key q) → enter w key fresh val val 0 ≡ some (entered w key q h, none)
unfolding enter
enter-entered w key fresh q val h = rw (==_refl val) (
    ap (λ o. Option.map (λ w'. (w', none)) (enter_with w key 0 o))
      (get_queue-Leads w.futexes key fresh q h))

-- The PCBs enter the run queue behind those that are there.
ready_all-Queued :
    (k : Pcbs) (rs ps : List ℕ)
    → Queued k rs
    → Distinct ps
    → All (λ p. Absent p rs) ps
    → Queued (ready_all k ps) (rs ++ ps)
unfolding ready_all
ready_all-Queued k rs [] q once apart = subst (Queued k) (sym (append-nil rs)) q
ready_all-Queued k rs (p ∷ ps) q once apart =
    let k1 = put (set_state k p ProcState.ready) p in
    let queued : Queued k1 (rs ++ p ∷ []) =
      put-Queued (set_state k p ProcState.ready) rs p (record { made = q.made; holds = q.holds })
        apart.0 in
    subst (Queued (ready_all k1 ps)) (append_assoc rs (p ∷ []) ps)
      (ready_all-Queued k1 (rs ++ p ∷ []) ps queued once.1 (further ps once.0 apart.1))
  where
    further :
        (qs : List ℕ)
        → Absent p qs
        → All (λ q. Absent q rs) qs
        → All (λ q. Absent q (rs ++ p ∷ [])) qs
    further [] away apart = tt
    further (q ∷ qs) away apart =
        (Absent-append q rs (p ∷ []) apart.0 ((λ e. away.0 (sym e)), tt), further qs away.1 apart.1)

-- A PCB that finds the expected value in a word, and waits on its key without a timeout, when the key
-- has a queue, is BLOCKED at the end of the queue. Later, whatever other PCBs have become, when none
-- of the queue waits with a timeout or is in the run queue, a wake that asks for more than were there
-- before it wakes all: the answer counts them and this PCB, the queue is empty, they enter the run
-- queue in the order of their waiting, behind those that are there, this PCB last, and it is READY.
pub woken_after_wait :
    (w : World) (key fresh q val count : ℕ) (ws rs : List ℕ) (t : Timer) (k : Pcbs)
    → Leads w.futexes key q
    → Holds (links_of w.futexes q) ws
    → Absent w.pcbs.current ws
    → length ws < count
    → Queued k rs
    → Untimed k (ws ++ w.pcbs.current ∷ [])
    → All (λ p. Absent p rs) (ws ++ w.pcbs.current ∷ [])
    → (w1 : World) × (w2 : World) × (enter w key fresh val val 0 ≡ some (w1, none))
      × (w1.pcbs.state w.pcbs.current ≡ ProcState.blocked)
      × Holds (links_of w1.futexes q) (ws ++ w.pcbs.current ∷ [])
      × (wake (record w1 { timer = t; pcbs = k }) key count ≡ some (w2, length ws + 1))
      × Holds (links_of w2.futexes q) []
      × Queued w2.pcbs (rs ++ (ws ++ w.pcbs.current ∷ []))
      × (w2.pcbs.state w.pcbs.current ≡ ProcState.ready)
woken_after_wait w key fresh q val count ws rs t k h queue away room running untimed apart =
    let w1 = entered w key q h in
    let all = ws ++ w.pcbs.current ∷ [] in
    let there = enqueue-Holds w key q (record (w.futexes) { table = some h.map }) ws queue away in
    let (w2, run, left, pcbs) =
      wake-ready (record w1 { timer = t; pcbs = k }) key count q all
        (record { map = h.map; view = h.view; table = refl; reads = h.reads; entry = h.entry })
        there untimed in
    let enough : length all ≤ count = omega (arith, room, length-snoc ws w.pcbs.current) in
    let number : min count (length all) ≡ length ws + 1 =
      omega (arith, room, length-snoc ws w.pcbs.current) in
    let woken = pcbs ∙ ap (ready_all k) (take_all count all enough) in
    (
      w1,
      w2,
      enter-entered w key fresh q val h,
      update_self w.pcbs.state w.pcbs.current ProcState.blocked,
      there,
      run ∙ ap (λ n. some (w2, n)) number,
      subst (Holds (links_of w2.futexes q)) (drop_all count all enough) left,
      subst (λ (s : Pcbs). Queued s (rs ++ all)) (sym woken)
          (ready_all-Queued k rs all running there.distinct apart),
      ap (λ (s : Pcbs). s.state w.pcbs.current) woken ∙ ready_all-last k ws w.pcbs.current,
    )
