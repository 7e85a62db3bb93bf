-- ===== src/Data/LinkedList/Edits.antt =====
-- Insertion at both ends and removal of kernel/lib/list.h, on the nodes that the list has.
use hobby_os.Prelude.{
  ne→==, ℕ, ◌≡◌, ◌≢◌, refl, sym, ap₂, ◌∙◌, List, [], ◌∷◌, ◌++◌, arith, update, update_self,
  update_ne, Absent, ◌==◌, Bool-cases, inl, inr, length-append,
}
use hobby_os.Data.LinkedList.{LinkedList, add_first, add_last, remove, bypass}
use hobby_os.Data.LinkedList.Links.{
  first_or, last_or, Chain, Links, Chain-next, Chain-prev, Chain-split, Chain-join, Absent-last,
  Chain-set_after, Chain-set_before,
}
use hobby_os.Data.LinkedList.Bypass.{
  Chain-bypass, Chain-same, bypass_ne, Absent-join, Distinct-drop,
}
use hobby_os.Data.LinkedList.Ends.{
  last_or-ne, head-without, tail-without, last_or-append, Absent-drop, Distinct-snoc,
}

module _ {ℓ} {T : Type ℓ} where
  -- A fresh node becomes the head.
  pub add_first-Links :
      (l : LinkedList T) (xs : List ℕ) (node : ℕ) (v : T)
      → Links l xs
      → node ≢ 0
      → Absent node xs
      → Links (add_first l node v) (node ∷ xs)
  unfolding add_first
  add_first-Links l [] node v r nonnull fresh = rw r.head (record {
    head = refl;
    tail = refl;
    chain = (update_self l.prev node 0, update_self l.next node 0, tt);
    apart = (tt, tt);
    nonnull = (nonnull, tt);
    size = omega (arith, r.size);
  })
  add_first-Links l (x ∷ xs) node v r nonnull fresh =
      rw (r.head, ne→== x 0 r.nonnull.0)
        (record {
          head = refl;
          tail = r.tail;
          chain = (ground arith, ground arith, back);
          apart = (fresh, r.apart);
          nonnull = (nonnull, r.nonnull);
          size = omega (arith, r.size);
        })
    where
      old : Chain (update l.next node 0) (update l.prev node 0) 0 (x ∷ xs) 0
      old =
          Chain-prev (update l.next node 0) l.prev 0 node 0 0 (x ∷ xs) fresh
            (Chain-next l.next l.prev 0 node 0 0 (x ∷ xs) fresh r.chain)

      back :
          Chain
            (update (update l.next node 0) node x)
            (update (update l.prev node 0) x node)
            node
            (x ∷ xs)
            0
      back =
          Chain-set_before (update (update l.next node 0) node x) (update l.prev node 0) 0 x 0 node
            xs r.apart.0
            (Chain-next (update l.next node 0) (update l.prev node 0) 0 node x 0 (x ∷ xs) fresh old)

  -- The value goes to the new node alone.
  pub add_first-value :
      (l : LinkedList T) (node : ℕ) (v : T) → (add_first l node v).value ≡ update l.value node v
  unfolding add_first
  add_first-value l node v = elim (Bool-cases (l.head == 0)) [
    | inl empty ↦ rw empty
    | inr linked ↦ rw linked
  ]

  add_last-Links :
      (l : LinkedList T) (xs : List ℕ) (node : ℕ) (v : T)
      → Links l xs
      → node ≢ 0
      → Absent node xs
      → Links (add_last l node v) (xs ++ node ∷ [])
  unfolding add_last
  add_last-Links l [] node v r nonnull fresh = rw r.tail (record {
    head = refl;
    tail = refl;
    chain = (update_self l.prev node 0, update_self l.next node 0, tt);
    apart = (tt, tt);
    nonnull = (nonnull, tt);
    size = omega (arith, r.size);
  })
  add_last-Links l (x ∷ xs) node v r nonnull fresh =
      let live = Absent-last 0 x xs r.nonnull in
      rw (r.tail, ne→== (last_or x xs) 0 live)
        (record {
          head = r.head;
          tail = sym (last_or-append x xs (node ∷ []));
          chain =
              Chain-join (update next1 t node) (update prev1 node t) 0 0 (x ∷ xs) (node ∷ [])
                (Chain-prev (update next1 t node) prev1 0 node t node (x ∷ xs) fresh
                  (Chain-set_after next1 prev1 0 x 0 node xs r.apart old))
                (update_self prev1 node t, last_next, tt);
          apart = Distinct-snoc (x ∷ xs) node r.apart fresh;
          nonnull = Absent-join 0 (x ∷ xs) (node ∷ []) r.nonnull (nonnull, tt);
          size = omega (arith, r.size, length-append (x ∷ xs) (node ∷ []));
        })
    where
      t : ℕ
      t = last_or x xs

      next1 : ℕ → ℕ
      next1 = update l.next node 0

      prev1 : ℕ → ℕ
      prev1 = update l.prev node 0

      old : Chain next1 prev1 0 (x ∷ xs) 0
      old =
          Chain-prev next1 l.prev 0 node 0 0 (x ∷ xs) fresh
            (Chain-next l.next l.prev 0 node 0 0 (x ∷ xs) fresh r.chain)

      last_next : update next1 t node node ≡ 0
      last_next =
          update_ne next1 t node node (Absent-last node x xs fresh) ∙ update_self l.next node 0

  -- Where a node stands, and that its neighbours are other nodes.
  pub Links-middle :
      (l : LinkedList T) (xs ys : List ℕ) (node : ℕ)
      → Links l (xs ++ node ∷ ys)
      → (l.prev node ≡ last_or 0 xs) × (l.next node ≡ first_or 0 ys)
  Links-middle l xs ys node r =
      let (left, right) = Chain-split l.next l.prev 0 0 xs (node ∷ ys) r.chain in (right.0, right.1)

  -- The link behind a node that is passed by is still its own.
  pub next-bypass :
      (l : LinkedList T) (xs ys : List ℕ) (node : ℕ)
      → Links l (xs ++ node ∷ ys)
      → bypass l.next (l.prev node) (l.next node) node ≡ first_or 0 ys
  next-bypass l xs ys node r =
      let (before, behind) = Links-middle l xs ys node r in
      bypass_ne l.next (l.prev node) (l.next node) node
        (λ e. last_or-ne xs ys node r.apart r.nonnull (sym before ∙ e))
      ∙ behind

  -- A node leaves the list, from wherever it stands, and the others keep their order.
  pub remove-Links :
      (l : LinkedList T) (xs ys : List ℕ) (node : ℕ)
      → Links l (xs ++ node ∷ ys)
      → Links (remove l node).1 (xs ++ ys)
  unfolding remove
  remove-Links l xs ys node r =
      let (before, behind) = Links-middle l xs ys node r in
      let still = next-bypass l xs ys node r in
      record {
        head = rw (before, behind, r.head) (head-without xs ys node r.nonnull);
        tail = rw (still, before, r.tail) (tail-without xs ys node r.nonnull);
        chain =
            Chain-same (ap₂ (bypass l.next) (sym before) (sym behind))
              (ap₂ (bypass l.prev) (sym still) (sym before)) 0 (xs ++ ys) 0
              (Chain-bypass l.next l.prev node xs ys r.apart r.nonnull r.chain);
        apart = Distinct-drop xs ys node r.apart;
        nonnull = Absent-drop 0 xs ys node r.nonnull;
        size = omega (arith, r.size, length-append xs (node ∷ ys), length-append xs ys);
      }
