-- ===== src/Data/LruCache/Loops.antt =====
-- The loops of kernel/lib/lru_cache.h over the whole list: eraseIf and flush.
use mathlib.Core.Path.{subst, ap₂}
use hobby_os.Prelude.{
  ℕ, suc, zero, ◌≡◌, ◌<◌, refl, ap, ◌∙◌, List, [], ◌∷◌, ◌++◌, some, Bool, if◌then◌else◌, length,
  arith, Bool-cases, inl, inr, map, ne→==, Absent,
}
use hobby_os.Data.HashMap.{HashTrait}
use hobby_os.Data.LinkedList.{LinkedList}
use hobby_os.Data.LinkedList.Links.{first_or, Chain}
use hobby_os.Data.LinkedList.Bypass.{Absent-right}
use hobby_os.Data.LinkedList.Edits.{Links-middle}
use hobby_os.Data.LruCache.{LruCache, CacheEntry, erase_if, entries_from, flush}
use hobby_os.Data.LruCache.Cached.{Cached}
use hobby_os.Data.LruCache.Erases.{drop_node-Cached, remove-value}

module _ {K V : Type 0} where
  -- The nodes whose entries the predicate takes, and the others.
  abbrev pub taken : (K → V → Bool) → (ℕ → CacheEntry K V) → List ℕ → List ℕ
  taken p value [] = []
  taken p value (x ∷ xs) =
      if p (value x).key (value x).value then x ∷ taken p value xs else taken p value xs

  abbrev pub kept : (K → V → Bool) → (ℕ → CacheEntry K V) → List ℕ → List ℕ
  kept p value [] = []
  kept p value (x ∷ xs) =
      if p (value x).key (value x).value then kept p value xs else x ∷ kept p value xs

  entries_from-map :
      (l : LinkedList (CacheEntry K V)) (b : ℕ) (ys : List ℕ)
      → Chain l.next l.prev b ys 0
      → Absent 0 ys
      → entries_from (length ys) l (first_or 0 ys) ≡ map l.value ys
  unfolding entries_from
  entries_from-map l b [] chain nonnull = refl
  entries_from-map l b (y ∷ ys) chain nonnull =
      rw (ne→== y 0 nonnull.0, chain.1)
        (ap (λ r. l.value y ∷ r) (entries_from-map l y ys chain.2 nonnull.1))

append_assoc_node : (xs : List ℕ) (n : ℕ) (ys : List ℕ) → (xs ++ n ∷ []) ++ ys ≡ xs ++ n ∷ ys
append_assoc_node [] n ys = refl
append_assoc_node (x ∷ xs) n ys = ap (λ r. x ∷ r) (append_assoc_node xs n ys)

module _ {K V : Type 0} ⦃t : HashTrait K⦄ where
  -- Flushing hands every entry to the callback, from the most recently used one on.
  pub flush-entries :
      (c : LruCache K V) (xs : List ℕ) → Cached c xs → (flush c).1 ≡ map c.list.value xs
  unfolding flush
  flush-entries c xs h =
      ap₂ (λ n it. entries_from n c.list it) h.links.size h.links.head
      ∙ (entries_from-map c.list 0 xs h.links.chain h.links.nonnull)

  -- The loop of eraseIf from the first of the nodes `ys` on, once it has left the nodes `xs` in place:
  -- with fuel for `ys` it ends, takes out exactly the nodes that the predicate takes, hands them to the
  -- callback in their order, and keeps the others in theirs.
  pub erase_if-Cached :
      (p : K → V → Bool) (c : LruCache K V) (fuel : ℕ) (xs ys : List ℕ)
      → Cached c (xs ++ ys)
      → length ys < fuel
      → (c' : LruCache K V) × (erase_if fuel p c (first_or 0 ys)
          ≡ some (c', map c.list.value (taken p c.list.value ys)))
        × Cached c' (xs ++ kept p c.list.value ys)
  unfolding erase_if
  erase_if-Cached p c zero xs ys h enough = absurd (omega arith)
  erase_if-Cached p c (suc fuel) xs [] h enough = (c, refl, h)
  erase_if-Cached p c (suc fuel) xs (y ∷ ys) h enough =
      let live = (Absent-right 0 xs (y ∷ ys) h.links.nonnull).0 in
      let behind = (Links-middle c.list xs ys y h.links).1 in
      elim (Bool-cases (p (c.list.value y).key (c.list.value y).value)) [
        | inl take ↦
            let (c1, dropped, cached, l) = drop_node-Cached c xs ys y h in
            let same : c1.list.value ≡ c.list.value =
              ap LinkedList.value l ∙ remove-value c.list y in
            let (c', run, after) = erase_if-Cached p c1 fuel xs ys cached (omega arith) in
            (
              c',
              rw (ne→== y 0 live, take, dropped, behind, run)
                  (ap (λ w. some (c', c.list.value y ∷ map w (taken p w ys))) same),
              rw take (subst (λ w. Cached c' (xs ++ kept p w ys)) same after),
            )
        | inr keep ↦
            let (c', run, after) =
              erase_if-Cached p c fuel (xs ++ y ∷ []) ys (rw (append_assoc_node xs y ys) h)
                (omega arith) in
            (
              c',
              rw (ne→== y 0 live, keep, behind, run),
              rw keep (rw (append_assoc_node xs y (kept p c.list.value ys)) at after),
            )
      ]
