-- ===== src/Data/LruCache.antt =====
-- kernel/lib/lru_cache.h: the LRU cache, a hash map from keys to the nodes of a list that has the
-- most recently used entry first.
-- `none` is a panic or a read through the null pointer. What an operation hands to the eviction
-- callback is a result, in the order of the calls; the address of a new node is an argument.
use mathlib.Core.Option
use hobby_os.Prelude.{
  ℕ, zero, suc, ◌≡◌, Bool, true, false, Option, none, some, List, [], ◌∷◌, leb, if◌then◌else◌, ◌==◌,
}
use hobby_os.Data.HashMap
use hobby_os.Data.HashMap.{HashMap, HashTrait}
use hobby_os.Data.LinkedList
use hobby_os.Data.LinkedList.{LinkedList}
pub mod Nodes
pub mod Cached
pub mod Inserts
pub mod Erases
pub mod Loops

infixl 5 ◌>>=◌
abbrev pub ◌>>=◌ {ℓ κ} : {A : Type ℓ} {B : Type κ} → Option A → (A → Option B) → Option B
none >>= f = none
some a >>= f = f a

pub record CacheEntry (K V : Type 0) : Type 0 where
  pub key : K
  pub value : V

pub record LruCache (K V : Type 0) : Type 0 where
  pub capacity : ℕ
  pub list : LinkedList (CacheEntry K V)
  pub map : HashMap K ℕ

-- The entries that were handed to the eviction callback.
abbrev pub Evicted : Type 0 → Type 0 → Type 0
Evicted K V = List (CacheEntry K V)

module _ {K V : Type 0} ⦃t : HashTrait K⦄ where
  -- The node goes to the front.
  unfoldable pub touch : LruCache K V → ℕ → LruCache K V
  touch c it = record c { list = LinkedList.move_front c.list it }

  unfoldable pub contains : LruCache K V → K → Option (LruCache K V × Bool)
  contains c k =
      let hit = (do it ← HashMap.at c.map k; some (touch c it, true)) in
      if HashMap.contains c.map k then hit else some (c, false)

  unfoldable pub at : LruCache K V → K → Option V
  at c k = do it ← HashMap.at c.map k; some (c.list.value it).value

  -- `none` in the result stands for the answer `false`.
  unfoldable pub get : LruCache K V → K → Option (LruCache K V × Option V)
  get c k =
      let hit = (do it ← HashMap.at c.map k; some (touch c it, some (c.list.value it).value)) in
      if HashMap.contains c.map k then hit else some (c, none)

  -- The least recently used entry leaves.
  unfoldable pub evict : LruCache K V → Option (LruCache K V × Evicted K V)
  evict c =
      let entry = LinkedList.back c.list in
      let cut = (do
        map ← HashMap.erase c.map entry.key
        last ← LinkedList.remove_last c.list
        some (record c { map = map; list = last.1 }, entry ∷ [])) in
      if c.list.tail == 0 then none else cut

  unfoldable pub make_room : LruCache K V → Option (LruCache K V × Evicted K V)
  make_room c = if leb c.capacity c.map.count then evict c else some (c, [])

  unfoldable pub add_front : LruCache K V → ℕ → K → V → Option (LruCache K V)
  add_front c node k v =
      let list = LinkedList.add_first c.list node (record { key = k; value = v }) in
      do
        map ← HashMap.insert c.map k (LinkedList.begin list)
        some (record c { map = map; list = list })

  -- A key that is there keeps its value.
  unfoldable pub refresh : LruCache K V → K → Option (LruCache K V)
  refresh c k = do
    it ← HashMap.at c.map k
    let c' = touch c it
    map ← HashMap.assign c'.map k (LinkedList.begin c'.list)
    some (record c' { map = map })

  unfoldable pub insert : LruCache K V → ℕ → K → V → Option (LruCache K V × Evicted K V)
  insert c node k v =
      let old = (do c' ← refresh c k; some (c', [])) in
      let new = (do room ← make_room c; c' ← add_front room.0 node k v; some (c', room.1)) in
      if HashMap.contains c.map k then old else new

  unfoldable pub erase : LruCache K V → K → Option (LruCache K V)
  erase c k =
      let cut = (do
        it ← HashMap.at c.map k
        map ← HashMap.erase c.map k
        some (record c { list = (LinkedList.remove c.list it).1; map = map })) in
      if HashMap.contains c.map k then cut else some c

  -- The body of the loop of `eraseIf`, for an entry that the predicate takes.
  unfoldable pub drop_node : LruCache K V → ℕ → Option (LruCache K V)
  drop_node c it = do
    map ← HashMap.erase c.map (c.list.value it).key
    some (record c { map = map; list = (LinkedList.remove c.list it).1 })

  -- The loop from the node `it` on; `none` is also a loop that outlives its fuel.
  unfoldable pub erase_if :
      ℕ → (K → V → Bool) → LruCache K V → ℕ → Option (LruCache K V × Evicted K V)
  erase_if zero predicate c it = none
  erase_if (suc fuel) predicate c it =
      let entry = c.list.value it in
      let behind = c.list.next it in
      let drop = (do
        c' ← drop_node c it
        rest ← erase_if fuel predicate c' behind
        some (rest.0, entry ∷ rest.1)) in
      let keep = erase_if fuel predicate c behind in
      if it == 0 then some (c, []) else (if predicate entry.key entry.value then drop else keep)

module _ {K V : Type 0} where
  -- The entries of the nodes from `it` on.
  unfoldable pub entries_from : ℕ → LinkedList (CacheEntry K V) → ℕ → List (CacheEntry K V)
  entries_from zero l it = []
  entries_from (suc fuel) l it =
      let rest = entries_from fuel l (l.next it) in if it == 0 then [] else l.value it ∷ rest

  -- Every entry is handed to the callback, and list and map are emptied.
  unfoldable pub flush : LruCache K V → LruCache K V × Evicted K V
  flush c = (
    record c { list = LinkedList.clear c.list; map = HashMap.clear c.map },
    entries_from c.list.size c.list c.list.head,
  )
