-- ===== src/Data/LruCache/Erases.antt =====
-- Erasing from the cache of kernel/lib/lru_cache.h, and inserting a key that it has.
use mathlib.Core.Path.{subst}
use hobby_os.Prelude.{
  ℕ, ◌≡◌, refl, sym, ap, ◌∙◌, List, [], ◌∷◌, ◌++◌, some, none, length-append, arith,
}
use hobby_os.Data.HashMap
use hobby_os.Data.HashMap.{HashTrait, HashMap}
use hobby_os.Data.HashMap.Represents.{Represents, Represents-same}
use hobby_os.Data.HashMap.Erase.{clear-Represents}
use hobby_os.Data.HashMap.Assign.{assign-Represents, put_same}
use hobby_os.Data.LinkedList
use hobby_os.Data.LinkedList.{LinkedList}
use hobby_os.Data.LinkedList.Edits.{remove-Links}
use hobby_os.Data.LinkedList.Moves.{clear-Links, move_front-value}
use hobby_os.Data.LruCache.{LruCache, CacheEntry, touch, refresh, insert, erase, drop_node, flush}
use hobby_os.Data.LruCache.Nodes.{node_of, KeysApart, KeysApart-drop, node_of-middle}
use hobby_os.Data.LruCache.Cached.{Cached, contains-missing, contains-node, at-node, touch-Cached}
use hobby_os.Data.LruCache.Inserts.{erase-node}

module _ {K V : Type 0} ⦃t : HashTrait K⦄ where
  pub remove-value :
      (l : LinkedList (CacheEntry K V)) (node : ℕ) → (LinkedList.remove l node).1.value ≡ l.value
  unfolding LinkedList.remove
  remove-value l node = refl

  -- The entry of a node leaves list and map.
  pub drop_node-Cached :
      (c : LruCache K V) (xs ys : List ℕ) (node : ℕ)
      → Cached c (xs ++ node ∷ ys)
      → (c' : LruCache K V) × (drop_node c node ≡ some c')
        × Cached c' (xs ++ ys)
        × (c'.list ≡ (LinkedList.remove c.list node).1)
  unfolding drop_node
  drop_node-Cached c xs ys node h =
      let (m, run, holds, size, width) = erase-node c xs ys node h in
      let l = (LinkedList.remove c.list node).1 in
      let same = sym (remove-value c.list node) in
      (
        record c { map = m; list = l },
        rw run,
        record {
          links = remove-Links c.list xs ys node h.links;
          keys =
              subst (λ v. KeysApart v (xs ++ ys)) same
                (KeysApart-drop c.list.value xs ys node h.keys);
          index = subst (λ v. Represents (node_of v (xs ++ ys)) m) same holds;
          counted = size;
          bound = omega (arith, h.bound, length-append xs (node ∷ ys), length-append xs ys);
        },
        refl,
      )

  -- Erasing a key that the cache holds takes out its entry alone, and the order stays.
  pub erase-Cached :
      (c : LruCache K V) (xs ys : List ℕ) (node : ℕ)
      → Cached c (xs ++ node ∷ ys)
      → (c' : LruCache K V) × (erase c (c.list.value node).key ≡ some c')
        × Cached c' (xs ++ ys)
        × (c'.list.value ≡ c.list.value)
  unfolding erase
  erase-Cached c xs ys node h =
      let (m, run, holds, size, width) = erase-node c xs ys node h in
      (
        record c { list = (LinkedList.remove c.list node).1; map = m },
        rw (contains-node c xs ys node h, at-node c xs ys node h, run),
        record {
          links = remove-Links c.list xs ys node h.links;
          keys =
              subst (λ v. KeysApart v (xs ++ ys)) (sym (remove-value c.list node))
                (KeysApart-drop c.list.value xs ys node h.keys);
          index =
              subst (λ v. Represents (node_of v (xs ++ ys)) m) (sym (remove-value c.list node))
                holds;
          counted = size;
          bound = omega (arith, h.bound, length-append xs (node ∷ ys), length-append xs ys);
        },
        remove-value c.list node,
      )

  -- Erasing a key that the cache does not hold changes nothing.
  pub erase-missing :
      (c : LruCache K V) (xs : List ℕ) (k : K)
      → Cached c xs
      → node_of c.list.value xs k ≡ none
      → erase c k ≡ some c
  unfolding erase
  erase-missing c xs k h missing = rw (contains-missing c xs k h missing)

  -- After the move the key leads to the node in front.
  found_first :
      (c : LruCache K V) (xs ys : List ℕ) (node : ℕ)
      → Cached c (xs ++ node ∷ ys)
      → node_of (touch c node).list.value (node ∷ xs ++ ys) (c.list.value node).key ≡ some node
  unfolding touch
  found_first c xs ys node h =
      ap (λ w. node_of (touch c node).list.value (node ∷ xs ++ ys) (w node).key)
        (sym (move_front-value c.list node))
      ∙ node_of-middle (touch c node).list.value [] (xs ++ ys) node
          (touch-Cached c xs ys node h).keys

  -- Inserting a key that the cache holds makes its entry the most recently used one; the entry keeps
  -- its old value, and nothing is evicted.
  insert_again :
      (c : LruCache K V) (xs ys : List ℕ) (node fresh : ℕ) (v : V)
      → Cached c (xs ++ node ∷ ys)
      → (c' : LruCache K V) × (insert c fresh (c.list.value node).key v ≡ some (c', []))
        × Cached c' (node ∷ xs ++ ys)
        × (c'.list ≡ (touch c node).list)
  unfolding insert refresh
  insert_again c xs ys node fresh v h =
      let c1 = touch c node in
      let k = (c.list.value node).key in
      let front = touch-Cached c xs ys node h in
      let old = found_first c xs ys node h in
      let (m, run, holds, size) = assign-Represents _ c1.map k node node front.index old in
      let again : HashMap.assign c1.map k c1.list.head ≡ some m =
        ap (HashMap.assign c1.map k) front.links.head ∙ run in
      (
        record c1 { map = m },
        rw (contains-node c xs ys node h, at-node c xs ys node h, again),
        record {
          links = front.links;
          keys = front.keys;
          index =
              Represents-same _ _ m (put_same (node_of c1.list.value (node ∷ xs ++ ys)) k node old)
                holds;
          counted = size ∙ front.counted;
          bound = front.bound;
        },
        refl,
      )

  -- Flushing empties the cache.
  pub flush-Cached : (c : LruCache K V) (xs : List ℕ) → Cached c xs → Cached (flush c).0 []
  unfolding flush LinkedList.clear HashMap.clear
  flush-Cached c xs h = record {
    links = clear-Links c.list;
    keys = tt;
    index = clear-Represents _ c.map h.index;
    counted = refl;
    bound = omega arith;
  }
