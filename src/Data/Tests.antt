-- ===== src/Data/Tests.antt =====
-- The theorems on the containers, each applied to a small map, list or cache.
use hobby_os.Prelude.{
  ℕ, ◌+◌, ◌≡◌, ◌<◌, refl, ap, ◌∙◌, Bool, true, false, none, some, [], ◌∷◌, ◌==◌, ltb, if◌then◌else◌,
  arith, update,
}
use hobby_os.Data.HashMap
use hobby_os.Data.HashMap.{HashTrait, HashMapEntry, HashMap, Buckets, no_entries, push, find_entry}
use hobby_os.Data.HashMap.Rehash.{total-no_entries}
use hobby_os.Data.HashMap.Chains.{IsPlaced, read-push, push-IsPlaced, total, total-push}
use hobby_os.Data.HashMap.Represents.{Represents, put, remove, value_of, insert-Represents}
use hobby_os.Data.HashMap.Erase.{erase-Represents}
use hobby_os.Data.HashMap.Iterator.{visited, chains_from, visited-chains_from}
use hobby_os.Data.HashMap.Traits.{u32_trait, hash_u32}
use hobby_os.Data.LinkedList
use hobby_os.Data.LinkedList.{LinkedList}
use hobby_os.Data.LinkedList.Links.{Links}
use hobby_os.Data.LinkedList.Edits.{remove-Links}
use hobby_os.Data.LinkedList.Moves.{move_front-Links}
use hobby_os.Data.LruCache
use hobby_os.Data.LruCache.{LruCache, CacheEntry, touch, erase_if}
use hobby_os.Data.LruCache.Cached.{Cached, get-Cached}
use hobby_os.Data.LruCache.Inserts.{insert_when_full}
use hobby_os.Data.LruCache.Loops.{erase_if-Cached}

instance abbrev key : HashTrait ℕ
key = u32_trait

abbrev entry : ℕ → ℕ → HashMapEntry ℕ ℕ
entry k v = record { key = k; value = v }

-- The keys 5 and 9 in a table of `width` buckets.
abbrev two_keys : ℕ → ℕ → ℕ → HashMap ℕ ℕ
two_keys width v w = record {
  entries = push width (push width no_entries (entry 5 v)) (entry 9 w);
  capacity = width;
  count = 2;
}

two_keys-IsPlaced : (width v : ℕ) → IsPlaced width (push width no_entries (entry 5 v))
unfolding find_entry
two_keys-IsPlaced width v = push-IsPlaced width no_entries (entry 5 v) (λ i h. (tt, tt)) refl

two_keys-reads :
    (width v w q : ℕ) → HashMap.at (two_keys width v w) q ≡ put (put (λ k. none) 5 v) 9 w q
unfolding HashMap.at find_entry
two_keys-reads width v w q =
    ap value_of (
      read-push width (push width no_entries (entry 5 v)) (entry 9 w) q
      ∙ ap (λ o. if 9 == q then some (entry 9 w) else o) (read-push width no_entries (entry 5 v) q))
    ∙ cases (9 == q) (5 == q)
  where
    cases :
        (b c : Bool)
        → value_of (if b then some (entry 9 w) else (if c then some (entry 5 v) else none))
          ≡ (if b then some w else (if c then some v else none))
    cases true c = refl
    cases false true = refl
    cases false false = refl

two_keys-Represents :
    (width v w : ℕ) → 0 < width → Represents (put (put (λ k. none) 5 v) 9 w) (two_keys width v w)
unfolding total find_entry
two_keys-Represents width v w pos = record {
  width = pos;
  placed =
      push-IsPlaced width (push width no_entries (entry 5 v)) (entry 9 w)
        (two_keys-IsPlaced width v) (read-push width no_entries (entry 5 v) 9);
  counted = omega (
    arith,
    total-push width (push width no_entries (entry 5 v)) (entry 9 w) pos,
    total-push width no_entries (entry 5 v) pos,
    empty_total width,
  );
  reads = two_keys-reads width v w;
}
  where
    empty_total : (n : ℕ) → total {K = ℕ} {V = ℕ} no_entries n ≡ 0
    empty_total n = total-no_entries ℕ ℕ n

-- A table of two buckets that doubles before the third key.
insert-Represents_example :
    (m' : HashMap ℕ ℕ) × (HashMap.insert (two_keys 2 7 3) 12 1 ≡ some m')
    × Represents (put (put (put (λ k. none) 5 7) 9 3) 12 1) m'
    × (m'.count ≡ 3)
insert-Represents_example =
    insert-Represents (put (put (λ k. none) 5 7) 9 3) (two_keys 2 7 3) 12 1
      (two_keys-Represents 2 7 3 (omega arith)) (omega arith, omega arith) refl

erase-Represents_example :
    (m' : HashMap ℕ ℕ) × (HashMap.erase (two_keys 2 7 3) 5 ≡ some m')
    × Represents (remove (put (put (λ k. none) 5 7) 9 3) 5) m'
    × (m'.count + 1 ≡ 2)
    × (m'.capacity ≡ 2)
erase-Represents_example =
    erase-Represents (put (put (λ k. none) 5 7) 9 3) (two_keys 2 7 3) 5 7
      (two_keys-Represents 2 7 3 (omega arith)) refl

visited-chains_from_example : visited 2 (two_keys 2 7 3) ≡ some (chains_from (two_keys 2 7 3) 0 2)
visited-chains_from_example =
    visited-chains_from (put (put (λ k. none) 5 7) 9 3) (two_keys 2 7 3)
      (two_keys-Represents 2 7 3 (omega arith))

-- Two nodes, 4 before 3, with the keys 9 and 5.
abbrev two_nodes : LinkedList (CacheEntry ℕ ℕ)
two_nodes = record {
  next = λ q. if q == 4 then 3 else 0;
  prev = λ q. if q == 3 then 4 else 0;
  value = λ q. if q == 3 then record { key = 5; value = 50 } else record { key = 9; value = 90 };
  head = 4;
  tail = 3;
  size = 2;
}

two_nodes-Links : Links two_nodes (4 ∷ 3 ∷ [])
two_nodes-Links = record {
  head = refl;
  tail = refl;
  chain = (refl, refl, (refl, refl, tt));
  apart = ((omega arith, tt), (tt, tt));
  nonnull = (omega arith, (omega arith, tt));
  size = refl;
}

move_front-Links_example : Links (LinkedList.move_front two_nodes 3) (3 ∷ 4 ∷ [])
move_front-Links_example = move_front-Links two_nodes (4 ∷ []) [] 3 two_nodes-Links

remove-Links_example : Links (LinkedList.remove two_nodes 4).1 (3 ∷ [])
remove-Links_example = remove-Links two_nodes [] (3 ∷ []) 4 two_nodes-Links

abbrev full_cache : LruCache ℕ ℕ
full_cache = record { capacity = 2; list = two_nodes; map = two_keys 4 3 4 }

full_cache-Cached : Cached full_cache (4 ∷ 3 ∷ [])
full_cache-Cached = record {
  links = two_nodes-Links;
  keys = (refl, (refl, tt));
  index = two_keys-Represents 4 3 4 (omega arith);
  counted = refl;
  bound = omega arith;
}

-- The cache is full, and the entry of the key 5 leaves it for that of the key 2.
insert_when_full_example :
    (c' : LruCache ℕ ℕ) × (LruCache.insert full_cache 8 2 20
      ≡ some (c', record { key = 5; value = 50 } ∷ []))
    × Cached c' (8 ∷ 4 ∷ [])
    × (c'.list.value ≡ update two_nodes.value 8 (record { key = 2; value = 20 }))
insert_when_full_example =
    insert_when_full full_cache (4 ∷ []) 3 8 2 20 full_cache-Cached (omega arith, omega arith)
      (omega arith) (omega arith, tt) refl refl

get-Cached_example :
    (LruCache.get full_cache 5 ≡ some (touch full_cache 3, some 50))
    × (LruCache.contains full_cache 5 ≡ some (touch full_cache 3, true))
    × Cached (touch full_cache 3) (3 ∷ 4 ∷ [])
get-Cached_example = get-Cached full_cache (4 ∷ []) [] 3 full_cache-Cached

-- Entries with a key above 6 are erased.
erase_if-Cached_example :
    (c' : LruCache ℕ ℕ) × (erase_if 3 (λ k v. ltb 6 k) full_cache 4
      ≡ some (c', record { key = 9; value = 90 } ∷ []))
    × Cached c' (3 ∷ [])
erase_if-Cached_example =
    erase_if-Cached (λ k v. ltb 6 k) full_cache 3 [] (4 ∷ 3 ∷ []) full_cache-Cached (omega arith)

-- The table of one bucket is traversed along its chain.
chain_order : chains_from (two_keys 1 7 3) 0 1 ≡ entry 9 3 ∷ entry 5 7 ∷ []
unfolding chains_from push hash_u32
chain_order = refl
