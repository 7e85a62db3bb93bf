-- ===== src/Proc/Queue.antt =====
-- The singly linked queues of PCBs that the kernel threads through a pointer field of the PCB itself:
-- `m_next` (kernel/proc/list/proclist.cpp), `m_semNext` (kernel/proc/sync/sem.cpp) and `m_futexNext`
-- (kernel/proc/sync/futex.h, futex.cpp). A PCB's address is a number, `nullptr` is `none`, and the
-- pointer field of all PCBs is the function `next`.
pub mod Refine
pub mod Remove
use mathlib.Core.Option
use hobby_os.Prelude.{
  ℕ, zero, suc, Bool, true, false, Option, none, some, ◌==◌, if◌then◌else◌, update,
}

pub record Links : Type 0 where
  pub head : Option ℕ
  pub tail : Option ℕ
  pub next : ℕ → Option ℕ

-- p == q on pointers, of which the second is not null.
abbrev pub is_ptr : Option ℕ → ℕ → Bool
is_ptr none p = false
is_ptr (some q) p = q == p

abbrev pub is_null : Option ℕ → Bool
is_null none = true
is_null (some q) = false

-- `pcb->next = nullptr; if (!tail) head = tail = pcb; else { tail->next = pcb; tail = pcb; }`
unfoldable pub push_back : Links → ℕ → Links
push_back q p = elim q.tail [
  | none ↦ record { head = some p; tail = some p; next = update q.next p none }
  | some t ↦ record {
    head = q.head;
    tail = some p;
    next = update (update q.next p none) t (some p);
  }
]

-- `head = head->next; if (!head) tail = nullptr; pcb->next = nullptr;`
unfoldable pub pop_front : Links → Option ℕ × Links
pop_front q = elim q.head [
  | none ↦ (none, q)
  | some p ↦ (
    some p,
    record {
      head = q.next p;
      tail = if is_null (q.next p) then none else q.tail;
      next = update q.next p none;
    },
  )
]

-- `while (cur && cur->next != pcb) cur = cur->next;` with fuel; the outer `none` is fuel run out.
unfoldable pub find_before : ℕ → (ℕ → Option ℕ) → ℕ → Option ℕ → Option (Option ℕ)
find_before zero next p cur = none
find_before (suc fuel) next p none = some none
find_before (suc fuel) next p (some c) =
    let rest = find_before fuel next p (next c) in if is_ptr (next c) p then some (some c) else rest

-- The `if (cur)` of the removals: unlink `p` behind `cur`.
unfoldable pub unlink_after : Links → ℕ → Option ℕ → Links
unlink_after q p none = q
unlink_after q p (some c) = record {
  head = q.head;
  tail = if is_ptr q.tail p then some c else q.tail;
  next = update (update q.next c (q.next p)) p none;
}

-- `Semaphore::forceRemove`: the PCB leaves the queue wherever it stands.
unfoldable pub remove : ℕ → Links → ℕ → Option Links
unfolding find_before unlink_after
remove fuel q p =
    if is_ptr q.head p
    then some (record {
      head = q.next p;
      tail = if is_null (q.next p) then none else q.tail;
      next = update q.next p none;
    })
    else Option.map (unlink_after q p) (find_before fuel q.next p q.head)
