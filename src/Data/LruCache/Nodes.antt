-- ===== src/Data/LruCache/Nodes.antt =====
-- Which node of the list of kernel/lib/lru_cache.h has a key, and what an edit does to it.
use hobby_os.Prelude.{
  ℕ, ◌≡◌, refl, sym, ap, ◌∙◌, List, [], ◌∷◌, ◌++◌, Option, some, none, Bool, true, false,
  Bool-cases, inl, inr, if◌then◌else◌, update, update_ne, Absent,
}
use hobby_os.Data.HashMap.{HashTrait}
use hobby_os.Data.HashMap.Chains.{eq_refl}
use hobby_os.Data.LruCache.{CacheEntry}

module _ {K V : Type 0} ⦃t : HashTrait K⦄ where
  -- The first of the nodes whose entry has the key.
  abbrev pub node_of : (ℕ → CacheEntry K V) → List ℕ → K → Option ℕ
  node_of value [] k = none
  node_of value (x ∷ xs) k = if t.eq (value x).key k then some x else node_of value xs k

  -- No two of the nodes have the same key.
  abbrev pub KeysApart : (ℕ → CacheEntry K V) → List ℕ → Type 0
  KeysApart value [] = Unit
  KeysApart value (x ∷ xs) = (node_of value xs (value x).key ≡ none) × KeysApart value xs

  module _ (value : ℕ → CacheEntry K V) where
    -- The key of a node in the middle is not that of a node before it.
    pub node_of-middle :
        (xs ys : List ℕ) (n : ℕ)
        → KeysApart value (xs ++ n ∷ ys)
        → node_of value (xs ++ n ∷ ys) (value n).key ≡ some n
    node_of-middle [] ys n apart = rw (eq_refl (value n).key)
    node_of-middle (x ∷ xs) ys n apart = elim (Bool-cases (t.eq (value x).key (value n).key)) [
      | inl same ↦
          let e = (t.eq_iff (value x).key (value n).key).0 same in
          absurd (
            cc (
              sym (node_of-middle xs ys n apart.1)
              ∙ ap (node_of value (xs ++ n ∷ ys)) (sym e)
              ∙ apart.0))
      | inr other ↦ rw (other, node_of-middle xs ys n apart.1)
    ]

    -- A key before a node in the middle is not the node's.
    key_before :
        (x : ℕ) (xs ys : List ℕ) (n : ℕ)
        → KeysApart value ((x ∷ xs) ++ n ∷ ys)
        → t.eq (value x).key (value n).key ≡ false
    key_before x xs ys n apart = elim (Bool-cases (t.eq (value x).key (value n).key)) [
      | inl same ↦
          let e = (t.eq_iff (value x).key (value n).key).0 same in
          absurd (
            cc (
              sym (node_of-middle xs ys n apart.1)
              ∙ ap (node_of value (xs ++ n ∷ ys)) (sym e)
              ∙ apart.0))
      | inr other ↦ other
    ]

    node_of-without :
        (xs ys : List ℕ) (n : ℕ)
        → KeysApart value (xs ++ n ∷ ys)
        → node_of value (xs ++ ys) (value n).key ≡ none
    node_of-without [] ys n apart = apart.0
    node_of-without (x ∷ xs) ys n apart =
        rw (key_before x xs ys n apart) (node_of-without xs ys n apart.1)

    -- Without a node, its key has none, and the others are as before.
    pub node_of-drop :
        (xs ys : List ℕ) (n : ℕ) (q : K)
        → KeysApart value (xs ++ n ∷ ys)
        → node_of value (xs ++ ys) q
          ≡ (if t.eq (value n).key q then none else node_of value (xs ++ n ∷ ys) q)
    node_of-drop xs ys n q apart = elim (Bool-cases (t.eq (value n).key q)) [
      | inl same ↦ rw same (
          ap (node_of value (xs ++ ys)) (sym ((t.eq_iff (value n).key q).0 same))
          ∙ node_of-without xs ys n apart)
      | inr other ↦ rw other (skip xs other)
    ]
      where
        skip :
            (xs : List ℕ)
            → t.eq (value n).key q ≡ false
            → node_of value (xs ++ ys) q ≡ node_of value (xs ++ n ∷ ys) q
        skip [] other = rw other
        skip (x ∷ xs) other = ap (λ o. if t.eq (value x).key q then some x else o) (skip xs other)

    -- A node that is moved to the front is found as before.
    pub node_of-front :
        (xs ys : List ℕ) (n : ℕ) (q : K)
        → KeysApart value (xs ++ n ∷ ys)
        → node_of value (xs ++ n ∷ ys) q ≡ node_of value (n ∷ xs ++ ys) q
    node_of-front xs ys n q apart = elim (Bool-cases (t.eq (value n).key q)) [
      | inl same ↦ rw same (
          ap (node_of value (xs ++ n ∷ ys)) (sym ((t.eq_iff (value n).key q).0 same))
          ∙ node_of-middle xs ys n apart)
      | inr other ↦ rw other (sym (node_of-drop xs ys n q apart ∙ rw other))
    ]

    none_unless : (b : Bool) (o : Option ℕ) → o ≡ none → (if b then none else o) ≡ none
    none_unless true o h = refl
    none_unless false o h = h

    -- A key that no node has is still missing without one of them.
    pub node_of-drop_none :
        (xs ys : List ℕ) (n : ℕ) (q : K)
        → KeysApart value (xs ++ n ∷ ys)
        → node_of value (xs ++ n ∷ ys) q ≡ none
        → node_of value (xs ++ ys) q ≡ none
    node_of-drop_none xs ys n q apart missing =
        node_of-drop xs ys n q apart ∙ none_unless _ _ missing

    pub KeysApart-drop :
        (xs ys : List ℕ) (n : ℕ) → KeysApart value (xs ++ n ∷ ys) → KeysApart value (xs ++ ys)
    KeysApart-drop [] ys n apart = apart.1
    KeysApart-drop (x ∷ xs) ys n apart = (
      node_of-drop xs ys n (value x).key apart.1 ∙ none_unless _ _ apart.0,
      KeysApart-drop xs ys n apart.1,
    )

    pub KeysApart-front :
        (xs ys : List ℕ) (n : ℕ) → KeysApart value (xs ++ n ∷ ys) → KeysApart value (n ∷ xs ++ ys)
    KeysApart-front xs ys n apart = (node_of-without xs ys n apart, KeysApart-drop xs ys n apart)

    -- An entry that is written at a fresh node leaves the other nodes' keys.
    pub node_of-update :
        (xs : List ℕ) (n : ℕ) (e : CacheEntry K V) (q : K)
        → Absent n xs
        → node_of (update value n e) xs q ≡ node_of value xs q
    node_of-update [] n e q fresh = refl
    node_of-update (x ∷ xs) n e q fresh =
        rw (update_ne value n e x (λ h. fresh.0 (sym h)), node_of-update xs n e q fresh.1)

    pub KeysApart-update :
        (xs : List ℕ) (n : ℕ) (e : CacheEntry K V)
        → Absent n xs
        → KeysApart value xs
        → KeysApart (update value n e) xs
    KeysApart-update [] n e fresh apart = tt
    KeysApart-update (x ∷ xs) n e fresh apart = (
      ap (λ v. node_of (update value n e) xs v.key) (update_ne value n e x (λ h. fresh.0 (sym h)))
          ∙ node_of-update xs n e (value x).key fresh.1
          ∙ apart.0,
      KeysApart-update xs n e fresh.1 apart.1,
    )
