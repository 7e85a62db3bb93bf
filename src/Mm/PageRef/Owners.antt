-- ===== src/Mm/PageRef/Owners.antt =====
-- The table counts the owners of each page.
use hobby_os.Prelude.{
  ℕ, ◌+◌, ◌-◌, ◌<◌, ◌≡◌, refl, sym, ◌≢◌, Bool, true, false, Option, none, some, inl, inr, List, ◌∷◌,
  arith, ◌==◌, if◌then◌else◌, half_word, update, update_self, update-update, ==_iff, ap, ◌∙◌,
  Bool-cases, Option-cases, add32, sub32, bit_and-le,
}
use hobby_os.Mm.PageRef.{
  PageMeta, Buckets, hash, find_in, set_count, erase_in, init, inc_ref, dec_ref, get_ref,
}
use hobby_os.Mm.PageRef.Chains.{
  IsChain, find_in-set_count, find_in-set_count_ne, find_in-erase_in, find_in-erase_in_ne,
  find_in-cons_self, find_in-cons_ne, set_count-IsChain, erase_in-set_count, erase_in-IsChain,
  cons-IsChain, find_in_bounds,
}

-- Every page hashes to a bucket of the array.
pub hash-lt : (pa : ℕ) → hash pa < 1024
unfolding hash
hash-lt pa = omega (arith, bit_and-le _ 1023)

-- Every chain is well formed.
abbrev pub IsTable : Buckets → Type 0
IsTable b = (i : ℕ) → IsChain (b i)

pub init-IsTable : IsTable init
unfolding init
init-IsTable i = tt

abbrev owners : Option PageMeta → ℕ
owners none = 1
owners (some m) = m.refcount

get_ref_read :
    (b : Buckets) (q : ℕ) (o : Option PageMeta)
    → find_in q (b (hash q)) ≡ o
    → get_ref b q ≡ owners o
unfolding get_ref
get_ref_read b q none h = rw (h, get_ref)
get_ref_read b q (some m) h = rw (h, get_ref)

-- A new chain for the bucket of `p`, read at `p` and at a page whose entry it keeps.
get_ref-update_self :
    (b : Buckets) (p : ℕ) (c : List PageMeta) (o : Option PageMeta)
    → find_in p c ≡ o
    → get_ref (update b (hash p) c) p ≡ owners o
get_ref-update_self b p c o h =
    get_ref_read (update b (hash p) c) p o (ap (find_in p) (update_self b (hash p) c) ∙ h)

get_ref-update_ne :
    (b : Buckets) (p q : ℕ) (c : List PageMeta)
    → find_in q c ≡ find_in q (b (hash p))
    → get_ref (update b (hash p) c) q ≡ get_ref b q
get_ref-update_ne b p q c h =
    get_ref_read (update b (hash p) c) q (find_in q (b (hash q))) chain
    ∙ sym (get_ref_read b q (find_in q (b (hash q))) refl)
  where
    chain : find_in q (update b (hash p) c (hash q)) ≡ find_in q (b (hash q))
    chain = elim (Bool-cases (hash p == hash q)) [
      | inl same ↦ rw same (h ∙ ap (λ i. find_in q (b i)) ((==_iff _ _).0 same))
      | inr other ↦ rw other
    ]

-- What the two operations write, by what `find` sees.
inc_ref_missing :
    (b : Buckets) (p : ℕ)
    → find_in p (b (hash p)) ≡ none
    → inc_ref b p ≡ update b (hash p) (record { pa = p; refcount = 2 } ∷ b (hash p))
unfolding inc_ref
inc_ref_missing b p h = rw (h, inc_ref)

inc_ref_found :
    (b : Buckets) (p : ℕ) (m : PageMeta)
    → find_in p (b (hash p)) ≡ some m
    → inc_ref b p ≡ update b (hash p) (set_count p (add32 m.refcount 1) (b (hash p)))
unfolding inc_ref
inc_ref_found b p m h = rw (h, inc_ref)

dec_ref_missing : (b : Buckets) (p : ℕ) → find_in p (b (hash p)) ≡ none → dec_ref b p ≡ (true, b)
unfolding dec_ref
dec_ref_missing b p h = rw (h, dec_ref)

dec_ref_shared :
    (b : Buckets) (p : ℕ) (m : PageMeta)
    → find_in p (b (hash p)) ≡ some m
    → 1 < m.refcount
    → m.refcount < half_word
    → dec_ref b p ≡ (false, update b (hash p) (set_count p (m.refcount - 1) (b (hash p))))
unfolding dec_ref
dec_ref_shared b p m h lt fits =
    let e : sub32 m.refcount 1 ≡ m.refcount - 1 = omega arith in
    let more : ((m.refcount - 1) == 0) ≡ false = ground arith in rw (h, dec_ref) (rw (e, more))

dec_ref_last :
    (b : Buckets) (p : ℕ) (m : PageMeta)
    → find_in p (b (hash p)) ≡ some m
    → m.refcount ≡ 1
    → dec_ref b p ≡ (true, update b (hash p) (erase_in p (b (hash p))))
unfolding dec_ref
dec_ref_last b p m h one =
    let e : sub32 m.refcount 1 ≡ 0 = omega arith in
    let zeroed = set_count p 0 (b (hash p)) in
    let erased : erase_in p (update b (hash p) zeroed (hash p)) ≡ erase_in p (b (hash p)) =
      ap (erase_in p) (update_self b (hash p) zeroed) ∙ erase_in-set_count p 0 (b (hash p)) in
    rw (h, dec_ref)
      (rw (e, erased) (ap (λ (t : Buckets). (true, t)) (update-update b (hash p) zeroed _)))

inc_ref_self : (b : Buckets) (p : ℕ) → get_ref (inc_ref b p) p ≡ add32 (get_ref b p) 1
inc_ref_self b p = elim (Option-cases (find_in p (b (hash p)))) [
  | inl missing ↦
      rw (inc_ref_missing b p missing, get_ref_read b p none missing)
        (get_ref-update_self b p _ _ (find_in-cons_self p 2 (b (hash p))))
  | inr (m, found) ↦
      rw (inc_ref_found b p m found, get_ref_read b p (some m) found)
        (get_ref-update_self b p _ _ (find_in-set_count p (add32 m.refcount 1) _ m found))
]

inc_ref_other : (b : Buckets) (p q : ℕ) → p ≢ q → get_ref (inc_ref b p) q ≡ get_ref b q
inc_ref_other b p q ne = elim (Option-cases (find_in p (b (hash p)))) [
  | inl missing ↦
      rw (inc_ref_missing b p missing)
        (get_ref-update_ne b p q _ (find_in-cons_ne p q 2 (b (hash p)) ne))
  | inr (m, found) ↦
      rw (inc_ref_found b p m found)
        (get_ref-update_ne b p q _ (find_in-set_count_ne p q _ (b (hash p)) ne))
]

-- After `inc_ref` a page has one more owner, modulo 2 ^ 32, and every other page as many as before.
pub get_ref-inc_ref :
    (b : Buckets) (p q : ℕ)
    → get_ref (inc_ref b p) q ≡ (if p == q then add32 (get_ref b p) 1 else get_ref b q)
get_ref-inc_ref b p q = elim (Bool-cases (p == q)) [
  | inl same ↦
      let e : p ≡ q = (==_iff p q).0 same in
      rw same (ap (λ t. get_ref (inc_ref b p) t) (sym e) ∙ inc_ref_self b p)
  | inr other ↦ rw other (inc_ref_other b p q (λ e. ground arith))
]

write-IsTable :
    (b : Buckets) (i : ℕ) (c : List PageMeta) → IsTable b → IsChain c → IsTable (update b i c)
write-IsTable b i c t h j = elim (Bool-cases (i == j)) [
  | inl same ↦ rw same h
  | inr other ↦ rw other (t j)
]

-- `inc_ref` keeps a table well formed, with no page twice and no count zero, as long as the number of
-- owners of the page does not wrap.
pub inc_ref-IsTable :
    (b : Buckets) (p : ℕ) → IsTable b → get_ref b p + 1 < half_word → IsTable (inc_ref b p)
inc_ref-IsTable b p t lt = elim (Option-cases (find_in p (b (hash p)))) [
  | inl missing ↦
      rw (inc_ref_missing b p missing)
        (write-IsTable b (hash p) _ t (cons-IsChain p (b (hash p)) missing (t (hash p))))
  | inr (m, found) ↦
      let fits : m.refcount + 1 < half_word = rw (get_ref_read b p (some m) found) at lt in
      rw (inc_ref_found b p m found) (
        write-IsTable b (hash p) _ t
          (set_count-IsChain p _ (b (hash p)) (omega arith) (omega arith) (t (hash p))))
]

-- What `dec_ref` promises of its result, on a table `b` and a page `p`.
pub record LetGo (b : Buckets) (p : ℕ) (out : Bool × Buckets) : Type 0 where
  pub last : out.0 ≡ (get_ref b p == 1)
  pub less : get_ref out.1 p ≡ (if get_ref b p == 1 then 1 else get_ref b p - 1)
  pub others : (q : ℕ) → p ≢ q → get_ref out.1 q ≡ get_ref b q
  pub table : IsTable out.1

LetGo-last :
    (b : Buckets) (p : ℕ) (c : List PageMeta)
    → IsTable b
    → get_ref b p ≡ 1
    → find_in p c ≡ none
    → ((q : ℕ) → p ≢ q → find_in q c ≡ find_in q (b (hash p)))
    → IsChain c
    → LetGo b p (true, update b (hash p) c)
LetGo-last b p c t one gone keep chain = record {
  last = rw one;
  less = rw one (get_ref-update_self b p c none gone);
  others = λ q ne. get_ref-update_ne b p q c (keep q ne);
  table = write-IsTable b (hash p) c t chain;
}

LetGo-shared :
    (b : Buckets) (p : ℕ) (m : PageMeta)
    → IsTable b
    → find_in p (b (hash p)) ≡ some m
    → 1 < m.refcount
    → m.refcount < half_word
    → LetGo b p (false, update b (hash p) (set_count p (m.refcount - 1) (b (hash p))))
LetGo-shared b p m t found more fits =
    let read = get_ref_read b p (some m) found in
    let many : (m.refcount == 1) ≡ false = ground arith in
    record {
      last = rw (read, many);
      less =
          rw (read, many)
            (get_ref-update_self b p _ _ (find_in-set_count p (m.refcount - 1) _ m found));
      others = λ q ne. get_ref-update_ne b p q _ (find_in-set_count_ne p q _ (b (hash p)) ne);
      table =
          write-IsTable b (hash p) _ t
            (set_count-IsChain p _ (b (hash p)) (omega arith) (omega arith) (t (hash p)));
    }

-- On a well-formed table, `dec_ref` says that the caller was the last owner exactly when the page had
-- one owner, and then the page is as before, with one owner; otherwise it has one owner less. No other
-- page changes, and the table stays well formed.
pub dec_ref-LetGo : (b : Buckets) (p : ℕ) → IsTable b → LetGo b p (dec_ref b p)
dec_ref-LetGo b p t = elim (Option-cases (find_in p (b (hash p)))) [
  | inl missing ↦
      let read = get_ref_read b p none missing in
      rw (dec_ref_missing b p missing)
        (record { last = rw read; less = rw read; others = λ q ne. refl; table = t })
  | inr (m, found) ↦
      let (pos, fits) = find_in_bounds p (b (hash p)) m (t (hash p)) found in
      elim (Bool-cases (m.refcount == 1)) [
        | inl one ↦
            let e : m.refcount ≡ 1 = (==_iff _ _).0 one in
            rw (dec_ref_last b p m found e) (
              LetGo-last b p _ t (get_ref_read b p (some m) found ∙ e)
                (find_in-erase_in p (b (hash p)) (t (hash p)))
                (λ q ne. find_in-erase_in_ne p q (b (hash p)) ne)
                (erase_in-IsChain p (b (hash p)) (t (hash p))))
        | inr many ↦
            let more : 1 < m.refcount = ground arith in
            rw (dec_ref_shared b p m found more fits) (LetGo-shared b p m t found more fits)
      ]
]
