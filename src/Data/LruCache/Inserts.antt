-- ===== src/Data/LruCache/Inserts.antt =====
-- Insertion into the cache of kernel/lib/lru_cache.h: eviction, room and refreshing.
use mathlib.Core.Path.{subst}
use hobby_os.Prelude.{
  ℕ, ◌≡◌, ◌≢◌, ◌<◌, ◌^◌, refl, sym, ap, ◌∙◌, List, [], ◌∷◌, ◌++◌, some, none, true, false,
  if◌then◌else◌, length, length-append, arith, leb, ◌==◌, update, update_self, Absent, ne→==,
}
use hobby_os.Data.HashMap
use hobby_os.Data.HashMap.{HashTrait, HashMap}
use hobby_os.Data.HashMap.Represents.{Represents, Represents-same, Fits, insert-Represents}
use hobby_os.Data.HashMap.Erase.{erase-Represents}
use hobby_os.Data.LinkedList
use hobby_os.Data.LinkedList.{LinkedList}
use hobby_os.Data.LinkedList.Bypass.{Absent-right}
use hobby_os.Data.LinkedList.Edits.{add_first-Links, add_first-value}
use hobby_os.Data.LinkedList.Moves.{remove_last-Links, Links-tail}
use hobby_os.Data.LruCache.{LruCache, CacheEntry, evict, make_room, add_front, insert}
use hobby_os.Data.LruCache.Nodes.{
  node_of, KeysApart, node_of-drop, KeysApart-drop, node_of-middle, node_of-update,
  KeysApart-update, node_of-drop_none,
}
use hobby_os.Data.LruCache.Cached.{Cached, contains-missing}

append_nil : (xs : List ℕ) → xs ++ [] ≡ xs
append_nil [] = refl
append_nil (x ∷ xs) = ap (λ ys. x ∷ ys) (append_nil xs)

module _ {K V : Type 0} ⦃t : HashTrait K⦄ where
  -- The map without the key of a node is the map of the other nodes.
  pub erase-node :
      (c : LruCache K V) (xs ys : List ℕ) (node : ℕ)
      → Cached c (xs ++ node ∷ ys)
      → (m : HashMap K ℕ) × (HashMap.erase c.map (c.list.value node).key ≡ some m)
        × Represents (node_of c.list.value (xs ++ ys)) m
        × (m.count ≡ length (xs ++ ys))
        × (m.capacity ≡ c.map.capacity)
  erase-node c xs ys node h =
      let (m, run, holds, one, width) =
        erase-Represents _ c.map (c.list.value node).key node h.index
          (node_of-middle c.list.value xs ys node h.keys) in
      (
        m,
        run,
        Represents-same _ _ m (λ q. sym (node_of-drop c.list.value xs ys node q h.keys)) holds,
        omega (arith, one, h.counted, length-append xs (node ∷ ys), length-append xs ys),
        width,
      )

  evict_step :
      (c : LruCache K V) (node : ℕ) (e : CacheEntry K V) (m : HashMap K ℕ)
      (l : LinkedList (CacheEntry K V))
      → c.list.tail ≡ node
      → node ≢ 0
      → HashMap.erase c.map (c.list.value node).key ≡ some m
      → LinkedList.remove_last c.list ≡ some (e, l)
      → evict c ≡ some (record c { map = m; list = l }, c.list.value node ∷ [])
  unfolding evict LinkedList.back
  evict_step c node e m l tail live run cut =
      let test : (c.list.tail == 0) ≡ false = ap (λ n. n == 0) tail ∙ ne→== node 0 live in
      let erased : HashMap.erase c.map (c.list.value c.list.tail).key ≡ some m =
        ap (λ n. HashMap.erase c.map (c.list.value n).key) tail ∙ run in
      rw (test, erased, cut)
        (ap (λ n. some (record c { map = m; list = l }, c.list.value n ∷ [])) tail)

  -- The least recently used entry leaves, and goes to the callback.
  pub evict-Cached :
      (c : LruCache K V) (xs : List ℕ) (node : ℕ)
      → Cached c (xs ++ node ∷ [])
      → (c' : LruCache K V) × (evict c ≡ some (c', c.list.value node ∷ []))
        × Cached c' xs
        × (c'.capacity ≡ c.capacity)
        × (length xs < c'.capacity)
        × (c'.list.value ≡ c.list.value)
        × (c'.map.capacity ≡ c.map.capacity)
  evict-Cached c xs node h =
      let (m, run, holds, size, width) = erase-node c xs [] node h in
      let (l, cut, links, values) = remove_last-Links c.list xs node h.links in
      let last = Links-tail c.list xs node h.links in
      let live = (Absent-right 0 xs (node ∷ []) h.links.nonnull).0 in
      let shorter = length-append xs (node ∷ []) in
      (
        record c { map = m; list = l },
        evict_step c node (c.list.value node) m l last live run cut,
        record {
          links = links;
          keys =
              subst (λ v. KeysApart v xs) (sym values)
                (subst (KeysApart c.list.value) (append_nil xs)
                  (KeysApart-drop c.list.value xs [] node h.keys));
          index =
              subst (λ v. Represents (node_of v xs) m) (sym values)
                (subst (λ ys. Represents (node_of c.list.value ys) m) (append_nil xs) holds);
          counted = size ∙ ap length (append_nil xs);
          bound = omega (arith, h.bound, shorter);
        },
        refl,
        omega (arith, h.bound, shorter),
        values,
        width,
      )

  -- A key that the cache does not hold becomes the most recently used one, where there is room.
  pub add_front-Cached :
      (c : LruCache K V) (xs : List ℕ) (node : ℕ) (k : K) (v : V)
      → Cached c xs
      → Fits c.map
      → node ≢ 0
      → Absent node xs
      → node_of c.list.value xs k ≡ none
      → length xs < c.capacity
      → (c' : LruCache K V) × (add_front c node k v ≡ some c')
        × Cached c' (node ∷ xs)
        × (c'.list.value ≡ update c.list.value node (record { key = k; value = v }))
  unfolding add_front
  add_front-Cached c xs node k v h fits live fresh missing room =
      let (m, run, holds, one) = insert-Represents _ c.map k node h.index fits missing in
      let e : CacheEntry K V = record { key = k; value = v } in
      let links = add_first-Links c.list xs node e h.links live fresh in
      let values = add_first-value c.list node e in
      let self = ap CacheEntry.key (update_self c.list.value node e) in
      (
        record c { map = m; list = LinkedList.add_first c.list node e },
        rw (links.head, run),
        record {
          links = links;
          keys =
              subst (λ w. KeysApart w (node ∷ xs)) (sym values)
                (
                  ap (node_of (update c.list.value node e) xs) self
                      ∙ node_of-update c.list.value xs node e k fresh
                      ∙ missing,
                  KeysApart-update c.list.value xs node e fresh h.keys,
                );
          index =
              subst (λ w. Represents (node_of w (node ∷ xs)) m) (sym values)
                (Represents-same _ _ m
                  (λ q. sym (
                    ap
                      (λ key.
                        if t.eq key q then some node else node_of (update c.list.value node e) xs q)
                      self
                    ∙ ap (λ o. if t.eq k q then some node else o)
                        (node_of-update c.list.value xs node e q fresh)))
                  holds);
          counted = one ∙ omega (arith, h.counted);
          bound = room;
        },
        values,
      )

  -- A new key enters a cache with room: nothing is evicted.
  pub insert_with_room :
      (c : LruCache K V) (xs : List ℕ) (node : ℕ) (k : K) (v : V)
      → Cached c xs
      → Fits c.map
      → node ≢ 0
      → Absent node xs
      → node_of c.list.value xs k ≡ none
      → length xs < c.capacity
      → (c' : LruCache K V) × (insert c node k v ≡ some (c', []))
        × Cached c' (node ∷ xs)
        × (c'.list.value ≡ update c.list.value node (record { key = k; value = v }))
  unfolding insert make_room
  insert_with_room c xs node k v h fits live fresh missing room =
      let (c', run, cached, values) =
        add_front-Cached c xs node k v h fits live fresh missing room in
      let below : leb c.capacity c.map.count ≡ false = ground (arith, h.counted) in
      (c', rw (contains-missing c xs k h missing, below, run), cached, values)

  -- A new key enters a full cache, at a node that is neither null nor in the list, with a map whose
  -- size is a word: the least recently used entry leaves and goes to the callback, and the others
  -- keep their order behind the new one.
  pub insert_when_full :
      (c : LruCache K V) (xs : List ℕ) (last node : ℕ) (k : K) (v : V)
      → Cached c (xs ++ last ∷ [])
      → Fits c.map
      → node ≢ 0
      → Absent node xs
      → node_of c.list.value (xs ++ last ∷ []) k ≡ none
      → c.capacity ≡ length (xs ++ last ∷ [])
      → (c' : LruCache K V) × (insert c node k v ≡ some (c', c.list.value last ∷ []))
        × Cached c' (node ∷ xs)
        × (c'.list.value ≡ update c.list.value node (record { key = k; value = v }))
  unfolding insert make_room
  insert_when_full c xs last node k v h fits live fresh missing full =
      let (c1, ran, cached, same, room, values, width) = evict-Cached c xs last h in
      let fewer : c1.map.count < 2 ^ 60 =
        omega (arith, cached.counted, h.counted, fits.1, length-append xs (last ∷ [])) in
      let gone =
        ap (λ w. node_of w xs k) values
        ∙ ap (λ ys. node_of c.list.value ys k) (sym (append_nil xs))
        ∙ node_of-drop_none c.list.value xs [] last k h.keys missing in
      let (c', run, after, written) =
        add_front-Cached c1 xs node k v cached (rw width fits.0, fewer) live fresh gone room in
      let above : leb c.capacity c.map.count ≡ true = ground (arith, h.counted) in
      (
        c',
        rw (contains-missing c (xs ++ last ∷ []) k h missing, above, ran, run),
        after,
        written ∙ ap (λ w. update w node (record { key = k; value = v })) values,
      )
