-- ===== src/Data/LinkedList.antt =====
-- kernel/lib/list.h: the doubly linked list, over a store of nodes.
-- A node is an address, 0 the null pointer; the fields of all nodes are functions of the address.
-- A new node's address is an argument, and `none` is a panic.
use hobby_os.Prelude.{
  ℕ, ◌+◌, ◌-◌, Bool, Option, none, some, if◌then◌else◌, update, ◌==◌, ◌||◌, suc, zero,
}
pub mod Links
pub mod Bypass
pub mod Ends
pub mod Edits
pub mod Moves

pub record LinkedList {ℓ} (T : Type ℓ) : Type ℓ where
  pub next : ℕ → ℕ
  pub prev : ℕ → ℕ
  pub value : ℕ → T
  pub head : ℕ
  pub tail : ℕ
  pub size : ℕ

-- `if (node) node->link = to`.
unfoldable pub bypass : (ℕ → ℕ) → ℕ → ℕ → ℕ → ℕ
bypass link node to = if node == 0 then link else update link node to

module _ {ℓ} {T : Type ℓ} where
  abbrev new_node : LinkedList T → ℕ → T → LinkedList T
  new_node l node v = record l {
    next = update l.next node 0;
    prev = update l.prev node 0;
    value = update l.value node v;
  }

  unfoldable pub add_last : LinkedList T → ℕ → T → LinkedList T
  add_last l node v =
      let l1 = new_node l node v in
      let linked = record l1 {
        next = update l1.next l1.tail node;
        prev = update l1.prev node l1.tail;
        tail = node;
        size = l1.size + 1;
      } in
      if l1.tail == 0 then record l1 { head = node; tail = node; size = l1.size + 1 } else linked

  unfoldable pub add_first : LinkedList T → ℕ → T → LinkedList T
  add_first l node v =
      let l1 = new_node l node v in
      let linked = record l1 {
        next = update l1.next node l1.head;
        prev = update l1.prev l1.head node;
        head = node;
        size = l1.size + 1;
      } in
      if l1.head == 0 then record l1 { head = node; tail = node; size = l1.size + 1 } else linked

  unfoldable pub remove_last : LinkedList T → Option (T × LinkedList T)
  remove_last l =
      let before = l.prev l.tail in
      let cut =
        if before == 0
        then record l { head = 0; tail = 0; size = l.size - 1 }
        else record l { next = update l.next before 0; tail = before; size = l.size - 1 } in
      if l.tail == 0 then none else some (l.value l.tail, cut)

  unfoldable pub remove_first : LinkedList T → Option (T × LinkedList T)
  remove_first l =
      let behind = l.next l.head in
      let cut =
        if behind == 0
        then record l { head = 0; tail = 0; size = l.size - 1 }
        else record l { prev = update l.prev behind 0; head = behind; size = l.size - 1 } in
      if l.head == 0 then none else some (l.value l.head, cut)

  -- `node->prev->next = node->next`, or the head, and then the same for the node behind.
  unfoldable pub remove : LinkedList T → ℕ → T × LinkedList T
  remove l node =
      let next1 = bypass l.next (l.prev node) (l.next node) in
      let head1 = if l.prev node == 0 then l.next node else l.head in
      let prev1 = bypass l.prev (next1 node) (l.prev node) in
      let tail1 = if next1 node == 0 then l.prev node else l.tail in
      (
        l.value node,
        record l { next = next1; prev = prev1; head = head1; tail = tail1; size = l.size - 1 },
      )

  abbrev pub begin : LinkedList T → ℕ
  begin l = l.head

  abbrev pub end : LinkedList T → ℕ
  end l = 0

  unfoldable pub is_empty : LinkedList T → Bool
  is_empty l = l.size == 0

  unfoldable pub first : LinkedList T → T
  first l = l.value l.head

  unfoldable pub back : LinkedList T → T
  back l = l.value l.tail

  unfoldable pub clear : LinkedList T → LinkedList T
  clear l = record l { head = 0; tail = 0; size = 0 }

  unfoldable pub move_front : LinkedList T → ℕ → LinkedList T
  move_front l node =
      let next1 = bypass l.next (l.prev node) (l.next node) in
      let prev1 = bypass l.prev (next1 node) (l.prev node) in
      let tail1 = if node == l.tail then prev1 node else l.tail in
      let next2 = update next1 node l.head in
      let prev2 = update prev1 node 0 in
      let prev3 = bypass prev2 l.head node in
      let tail2 = if tail1 == 0 then node else tail1 in
      if node == 0 || node == l.head
      then l
      else record l { next = next2; prev = prev3; head = node; tail = tail2 }
