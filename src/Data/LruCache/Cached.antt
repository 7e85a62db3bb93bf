-- ===== src/Data/LruCache/Cached.antt =====
-- kernel/lib/lru_cache.h: what the cache holds, and the look-ups, which reorder it.
use mathlib.Core.Path.{subst}
use hobby_os.Data.HashMap
use hobby_os.Prelude.{
  ℕ, ◌≡◌, ◌≤◌, sym, ap, ◌∙◌, List, ◌∷◌, ◌++◌, some, none, true, false, length, length-append, arith,
}
use hobby_os.Data.HashMap.{HashTrait, HashMap}
use hobby_os.Data.HashMap.Represents.{Represents, Represents-same}
use hobby_os.Data.HashMap.Erase.{contains-Represents, is_set}
use hobby_os.Data.LinkedList.Links.{Links}
use hobby_os.Data.LinkedList.Moves.{move_front-Links, move_front-value}
use hobby_os.Data.LruCache.{LruCache, touch, contains, at, get}
use hobby_os.Data.LruCache.Nodes.{
  node_of, KeysApart, node_of-front, KeysApart-front, node_of-middle,
}

module _ {K V : Type 0} ⦃t : HashTrait K⦄ where
  -- The cache holds the entries of the nodes `xs`, the most recently used first: the list has these
  -- nodes, their keys differ, the map leads from each key to its node, and they are not too many.
  pub record Cached (c : LruCache K V) (xs : List ℕ) : Type 0 where
    pub links : Links c.list xs
    pub keys : KeysApart c.list.value xs
    pub index : Represents (node_of c.list.value xs) c.map
    pub counted : c.map.count ≡ length xs
    pub bound : length xs ≤ c.capacity

  -- The node of a key that the cache holds goes to the front, and all else stays.
  pub touch-Cached :
      (c : LruCache K V) (xs ys : List ℕ) (node : ℕ)
      → Cached c (xs ++ node ∷ ys)
      → Cached (touch c node) (node ∷ xs ++ ys)
  unfolding touch
  touch-Cached c xs ys node h =
      let same = sym (move_front-value c.list node) in
      let size : length (xs ++ node ∷ ys) ≡ length (node ∷ xs ++ ys) =
        omega (arith, length-append xs (node ∷ ys), length-append xs ys) in
      record {
        links = move_front-Links c.list xs ys node h.links;
        keys =
            subst (λ v. KeysApart v (node ∷ xs ++ ys)) same
              (KeysApart-front c.list.value xs ys node h.keys);
        index =
            subst (λ v. Represents (node_of v (node ∷ xs ++ ys)) c.map) same
              (Represents-same _ _ c.map (λ q. node_of-front c.list.value xs ys node q h.keys)
                h.index);
        counted = h.counted ∙ size;
        bound = omega (arith, h.bound, size);
      }

  pub at-node :
      (c : LruCache K V) (xs ys : List ℕ) (node : ℕ)
      → Cached c (xs ++ node ∷ ys)
      → HashMap.at c.map (c.list.value node).key ≡ some node
  at-node c xs ys node h =
      h.index.reads (c.list.value node).key ∙ node_of-middle c.list.value xs ys node h.keys

  pub contains-node :
      (c : LruCache K V) (xs ys : List ℕ) (node : ℕ)
      → Cached c (xs ++ node ∷ ys)
      → HashMap.contains c.map (c.list.value node).key ≡ true
  contains-node c xs ys node h =
      contains-Represents _ c.map (c.list.value node).key h.index
      ∙ ap is_set (node_of-middle c.list.value xs ys node h.keys)

  pub contains-missing :
      (c : LruCache K V) (xs : List ℕ) (k : K)
      → Cached c xs
      → node_of c.list.value xs k ≡ none
      → HashMap.contains c.map k ≡ false
  contains-missing c xs k h missing = contains-Represents _ c.map k h.index ∙ ap is_set missing

  -- A key that the cache holds is found, wherever its entry stands in the order, with its value, and
  -- becomes the most recently used one.
  pub get-Cached :
      (c : LruCache K V) (xs ys : List ℕ) (node : ℕ)
      → Cached c (xs ++ node ∷ ys)
      → (get c (c.list.value node).key ≡ some (touch c node, some (c.list.value node).value))
        × (contains c (c.list.value node).key ≡ some (touch c node, true))
        × Cached (touch c node) (node ∷ xs ++ ys)
  unfolding get contains
  get-Cached c xs ys node h =
      let there = contains-node c xs ys node h in
      let it = at-node c xs ys node h in
      (rw (there, it), rw (there, it), touch-Cached c xs ys node h)

  -- A key that the cache does not hold is not found, and nothing changes.
  pub get-missing :
      (c : LruCache K V) (xs : List ℕ) (k : K)
      → Cached c xs
      → node_of c.list.value xs k ≡ none
      → (get c k ≡ some (c, none)) × (contains c k ≡ some (c, false)) × (at c k ≡ none)
  unfolding get contains at
  get-missing c xs k h missing =
      let gone = contains-missing c xs k h missing in
      (rw gone, rw gone, rw (h.index.reads k ∙ missing))
