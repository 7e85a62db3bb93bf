-- ===== src/Data/LinkedList/Moves.antt =====
-- Removal at the ends and the move to the front of kernel/lib/list.h.
use mathlib.Core.Path.{subst}
use hobby_os.Prelude.{
  ==_refl, ne→==, ℕ, ◌-◌, ◌≡◌, ◌≢◌, refl, sym, ap, ap₂, ◌∙◌, List, [], ◌∷◌, ◌++◌, arith, update,
  update_self, update_ne, ◌==◌, ◌||◌, if◌then◌else◌, Bool-cases, inl, inr, true, length-append,
  some,
}
use hobby_os.Data.LinkedList.{LinkedList, remove_last, remove_first, move_front, bypass, clear}
use hobby_os.Data.LinkedList.Links.{
  first_or, last_or, Chain, Links, Chain-next, Chain-prev, Chain-split, Absent-last,
  Chain-set_after, Chain-set_before,
}
use hobby_os.Data.LinkedList.Bypass.{
  Chain-bypass, Chain-same, bypass_ne, Absent-left, Absent-right, Absent-join, Distinct-middle,
  Distinct-drop, Distinct-left, bypass-update,
}
use hobby_os.Data.LinkedList.Ends.{last_or-append, Absent-drop}
use hobby_os.Data.LinkedList.Edits.{Links-middle, next-bypass}

module _ {ℓ} {T : Type ℓ} where
  pub Links-tail :
      (l : LinkedList T) (xs : List ℕ) (node : ℕ) → Links l (xs ++ node ∷ []) → l.tail ≡ node
  Links-tail l xs node r = r.tail ∙ last_or-append 0 xs (node ∷ [])

  -- The last node leaves, and its value is the result.
  pub remove_last-Links :
      (l : LinkedList T) (xs : List ℕ) (node : ℕ)
      → Links l (xs ++ node ∷ [])
      → (l' : LinkedList T) × (remove_last l ≡ some (l.value node, l'))
        × Links l' xs
        × (l'.value ≡ l.value)
  unfolding remove_last
  remove_last-Links l [] node r = (
    record l { head = 0; tail = 0; size = l.size - 1 },
    rw (r.tail, r.chain.0, ne→== node 0 r.nonnull.0),
    record {
      head = refl;
      tail = refl;
      chain = tt;
      apart = tt;
      nonnull = tt;
      size = omega (arith, r.size);
    },
    refl,
  )
  remove_last-Links l (x ∷ xs) node r =
      let (left, right) = Chain-split l.next l.prev 0 0 (x ∷ xs) (node ∷ []) r.chain in
      let live = Absent-last 0 x xs (Absent-left 0 (x ∷ xs) (node ∷ []) r.nonnull) in
      let live_node = (Absent-right 0 (x ∷ xs) (node ∷ []) r.nonnull).0 in
      let t = last_or x xs in
      (
        record l { next = update l.next t 0; tail = t; size = l.size - 1 },
        rw (Links-tail l (x ∷ xs) node r, right.0, ne→== node 0 live_node, ne→== t 0 live),
        record {
          head = r.head;
          tail = refl;
          chain =
              Chain-set_after l.next l.prev 0 x node 0 xs
                (Distinct-left (x ∷ xs) (node ∷ []) r.apart) left;
          apart = Distinct-left (x ∷ xs) (node ∷ []) r.apart;
          nonnull = Absent-left 0 (x ∷ xs) (node ∷ []) r.nonnull;
          size = omega (arith, r.size, length-append (x ∷ xs) (node ∷ []));
        },
        refl,
      )

  -- The first node leaves, and its value is the result.
  pub remove_first-Links :
      (l : LinkedList T) (node : ℕ) (xs : List ℕ)
      → Links l (node ∷ xs)
      → (l' : LinkedList T) × (remove_first l ≡ some (l.value node, l'))
        × Links l' xs
        × (l'.value ≡ l.value)
  unfolding remove_first
  remove_first-Links l node [] r = (
    record l { head = 0; tail = 0; size = l.size - 1 },
    rw (r.head, r.chain.1, ne→== node 0 r.nonnull.0),
    record {
      head = refl;
      tail = refl;
      chain = tt;
      apart = tt;
      nonnull = tt;
      size = omega (arith, r.size);
    },
    refl,
  )
  remove_first-Links l node (x ∷ xs) r = (
    record l { prev = update l.prev x 0; head = x; size = l.size - 1 },
    rw (r.head, r.chain.1, ne→== node 0 r.nonnull.0, ne→== x 0 r.nonnull.1.0),
    record {
      head = refl;
      tail = r.tail;
      chain = Chain-set_before l.next l.prev node x 0 0 xs r.apart.1.0 r.chain.2;
      apart = r.apart.1;
      nonnull = r.nonnull.1;
      size = omega (arith, r.size);
    },
    refl,
  )

  pub clear-Links : (l : LinkedList T) → Links (clear l) []
  unfolding clear
  clear-Links l = record {
    head = refl;
    tail = refl;
    chain = tt;
    apart = tt;
    nonnull = tt;
    size = refl;
  }

  -- The last node once `node` is passed by.
  new_tail :
      (l : LinkedList T) (xs ys : List ℕ) (node : ℕ)
      → Links l (xs ++ node ∷ ys)
      → (if node == l.tail
          then bypass l.prev (bypass l.next (l.prev node) (l.next node) node) (l.prev node) node
          else l.tail)
        ≡ last_or 0 (xs ++ ys)
  new_tail l xs [] node r =
      let still = next-bypass l xs [] node r in
      let live = (Absent-right 0 xs (node ∷ []) r.nonnull).0 in
      rw (Links-tail l xs node r, ==_refl node, still)
        (bypass_ne l.prev 0 (l.prev node) node (λ e. live (sym e))
          ∙ (Links-middle l xs [] node r).0
          ∙ sym (last_or-append 0 xs []))
  new_tail l xs (y ∷ ys) node r =
      let t = r.tail ∙ last_or-append 0 xs (node ∷ y ∷ ys) in
      let away = (Distinct-middle xs (y ∷ ys) node r.apart).1 in
      rw (t, ne→== node (last_or y ys) (λ e. Absent-last node y ys away (sym e)))
        (sym (last_or-append 0 xs (y ∷ ys)))

  move_front_same :
      (l : LinkedList T) (node : ℕ) → (node == 0 || node == l.head) ≡ true → move_front l node ≡ l
  unfolding move_front
  move_front_same l node h = rw h

  move_front_moved :
      (l : LinkedList T) (node : ℕ)
      → node ≢ 0
      → node ≢ l.head
      → move_front l node ≡ (
          let next1 = bypass l.next (l.prev node) (l.next node) in
          let prev1 = bypass l.prev (next1 node) (l.prev node) in
          let tail1 = if node == l.tail then prev1 node else l.tail in
          record l {
            next = update next1 node l.head;
            prev = bypass (update prev1 node 0) l.head node;
            head = node;
            tail = if tail1 == 0 then node else tail1;
          })
  unfolding move_front
  move_front_moved l node nonnull other = rw (ne→== node 0 nonnull, ne→== node l.head other)

  -- A node of the list, wherever it stands, is moved to the front; the others keep their order.
  pub move_front-Links :
      (l : LinkedList T) (xs ys : List ℕ) (node : ℕ)
      → Links l (xs ++ node ∷ ys)
      → Links (move_front l node) (node ∷ xs ++ ys)
  unfolding move_front
  move_front-Links l [] ys node r =
      subst (λ l'. Links l' (node ∷ ys))
        (sym (move_front_same l node (rw (r.head, ne→== node 0 r.nonnull.0, ==_refl node)))) r
  move_front-Links l (x ∷ xs) ys node r =
      let (left, right) = Distinct-middle (x ∷ xs) ys node r.apart in
      let gone : Chain next1 prev1 0 ((x ∷ xs) ++ ys) 0 =
        Chain-same (ap₂ (bypass l.next) (sym middle.0) (sym middle.1))
          (ap₂ (bypass l.prev) (sym still) (sym middle.0)) 0 ((x ∷ xs) ++ ys) 0
          (Chain-bypass l.next l.prev node (x ∷ xs) ys r.apart r.nonnull r.chain) in
      let fresh = Absent-join node (x ∷ xs) ys left right in
      let kept = Absent-drop 0 (x ∷ xs) ys node r.nonnull in
      let order = Distinct-drop (x ∷ xs) ys node r.apart in
      let t = new_tail l (x ∷ xs) ys node r in
      subst (λ l'. Links l' (node ∷ (x ∷ xs) ++ ys))
        (sym (
          move_front_moved l node (Absent-right 0 (x ∷ xs) (node ∷ ys) r.nonnull).0
            (λ e. left.0 (sym (e ∙ r.head)))))
        (record {
          head = refl;
          tail = rw (t, ne→== (last_or x (xs ++ ys)) 0 (Absent-last 0 x (xs ++ ys) kept)) refl;
          chain =
              Chain-same (ap (update next1 node) (sym r.head))
                (sym (
                  ap (λ h. bypass (update prev1 node 0) h node) r.head
                  ∙ bypass-update (update prev1 node 0) x node kept.0))
                0 (node ∷ (x ∷ xs) ++ ys) 0
                (
                  update_ne (update prev1 node 0) x node node left.0 ∙ update_self prev1 node 0,
                  update_self next1 node x,
                  Chain-set_before (update next1 node x) (update prev1 node 0) 0 x 0 node (xs ++ ys)
                      order.0
                      (Chain-prev (update next1 node x) prev1 0 node 0 0 ((x ∷ xs) ++ ys) fresh
                        (Chain-next next1 prev1 0 node x 0 ((x ∷ xs) ++ ys) fresh gone)),
                );
          apart = (fresh, order);
          nonnull = ((Absent-right 0 (x ∷ xs) (node ∷ ys) r.nonnull).0, kept);
          size =
              omega (arith, r.size, length-append (x ∷ xs) (node ∷ ys), length-append (x ∷ xs) ys);
        })
    where
      next1 : ℕ → ℕ
      next1 = bypass l.next (l.prev node) (l.next node)

      prev1 : ℕ → ℕ
      prev1 = bypass l.prev (next1 node) (l.prev node)

      middle : (l.prev node ≡ last_or x xs) × (l.next node ≡ first_or 0 ys)
      middle = Links-middle l (x ∷ xs) ys node r

      still : next1 node ≡ first_or 0 ys
      still = next-bypass l (x ∷ xs) ys node r

  -- The values stay with their nodes.
  pub move_front-value : (l : LinkedList T) (node : ℕ) → (move_front l node).value ≡ l.value
  unfolding move_front
  move_front-value l node = elim (Bool-cases (node == 0 || node == l.head)) [
    | inl same ↦ rw same
    | inr moved ↦ rw moved
  ]
