-- ===== src/Proc/Queue/Refine.antt =====
-- The linked queue holds a list: what `push_back` and `pop_front` do to that list.
use hobby_os.Prelude.{
  ℕ, ◌≡◌, refl, sym, ◌∙◌, ◌≢◌, Option, none, some, List, [], ◌∷◌, ◌++◌, arith, update, update_self,
  update_ne, Absent, Distinct,
}
use hobby_os.Proc.Queue.{Links, push_back, pop_front}

-- From `o` the pointers lead through `xs` and end.
abbrev pub Chain : (ℕ → Option ℕ) → Option ℕ → List ℕ → Type 0
Chain next o [] = o ≡ none
Chain next o (x ∷ xs) = (o ≡ some x) × Chain next (next x) xs

abbrev pub last? : List ℕ → Option ℕ
last? [] = none
last? (x ∷ []) = some x
last? (x ∷ y ∷ xs) = last? (y ∷ xs)

-- The queue holds the PCBs `xs`, first to last, each once.
pub record Holds (q : Links) (xs : List ℕ) : Type 0 where
  pub chain : Chain q.next q.head xs
  pub tail_last : q.tail ≡ last? xs
  pub distinct : Distinct xs

-- A write to the field of a PCB that is not in the queue changes nothing.
pub Chain-update :
    (next : ℕ → Option ℕ) (o v : Option ℕ) (p : ℕ) (xs : List ℕ)
    → Absent p xs
    → Chain next o xs
    → Chain (update next p v) o xs
Chain-update next o v p [] a c = c
Chain-update next o v p (x ∷ xs) a c =
    let keep : update next p v x ≡ next x = update_ne next p v x (λ e. a.0 (sym e)) in
    (c.0, rw keep (Chain-update next (next x) v p xs a.1 c.1))

pub last?-snoc : (xs : List ℕ) (p : ℕ) → last? (xs ++ p ∷ []) ≡ some p
last?-snoc [] p = refl
last?-snoc (x ∷ []) p = refl
last?-snoc (x ∷ y ∷ xs) p = last?-snoc (y ∷ xs) p

Absent-snoc : (p x : ℕ) (xs : List ℕ) → Absent x xs → p ≢ x → Absent x (xs ++ p ∷ [])
Absent-snoc p x [] a h = (h, tt)
Absent-snoc p x (y ∷ xs) a h = (a.0, Absent-snoc p x xs a.1 h)

Distinct-snoc : (p : ℕ) (xs : List ℕ) → Distinct xs → Absent p xs → Distinct (xs ++ p ∷ [])
Distinct-snoc p [] d a = (tt, tt)
Distinct-snoc p (x ∷ xs) d a =
    (Absent-snoc p x xs d.0 (λ e. a.0 (sym e)), Distinct-snoc p xs d.1 a.1)

pub last?-cons : (x : ℕ) (xs : List ℕ) → (t : ℕ) × (last? (x ∷ xs) ≡ some t)
last?-cons x [] = (x, refl)
last?-cons x (y ∷ xs) = last?-cons y xs

pub ne_last : (p t : ℕ) (xs : List ℕ) → Absent p xs → last? xs ≡ some t → t ≢ p
ne_last p t [] a l = cc
ne_last p t (x ∷ []) a l = ground arith
ne_last p t (x ∷ y ∷ xs) a l = ne_last p t (y ∷ xs) a.1 l

-- Linking `p` behind the last element.
Chain-snoc :
    (next : ℕ → Option ℕ) (o : Option ℕ) (p t x : ℕ) (xs : List ℕ)
    → last? (x ∷ xs) ≡ some t
    → next p ≡ none
    → t ≢ p
    → Distinct (x ∷ xs)
    → Chain next o (x ∷ xs)
    → Chain (update next t (some p)) o (x ∷ xs ++ p ∷ [])
Chain-snoc next o p t x [] l n a d c = (c.0, (ground arith, ground arith))
Chain-snoc next o p t x (y ∷ xs) l n a d c =
    let ne : t ≢ x = ne_last x t (y ∷ xs) d.0 l in
    let rest = Chain-snoc next (next x) p t y xs l n a d.1 c.1 in
    (c.0, rw (update_ne next t (some p) x ne) rest)

-- On a queue of the PCBs xs, without `p`, `push_back` makes a queue of xs and then `p`.
pub push_back-Holds :
    (q : Links) (xs : List ℕ) (p : ℕ)
    → Holds q xs
    → Absent p xs
    → Holds (push_back q p) (xs ++ p ∷ [])
unfolding push_back
push_back-Holds q [] p h a =
    rw (h.tail_last, push_back)
      (record { chain = (refl, update_self q.next p none); tail_last = refl; distinct = (tt, tt) })
push_back-Holds q (x ∷ xs) p h a =
    let (t, last) = last?-cons x xs in
    rw (h.tail_last ∙ last, push_back)
      (record {
        chain =
            Chain-snoc (update q.next p none) q.head p t x xs last (update_self q.next p none)
              (ne_last p t (x ∷ xs) a last) h.distinct
              (Chain-update q.next q.head none p (x ∷ xs) a h.chain);
        tail_last = sym (last?-snoc (x ∷ xs) p);
        distinct = Distinct-snoc p (x ∷ xs) h.distinct a;
      })

-- On a queue that is not empty, `pop_front` returns the first PCB and leaves a queue of the rest.
pub pop_front-Holds :
    (q : Links) (x : ℕ) (xs : List ℕ)
    → Holds q (x ∷ xs)
    → ((pop_front q).0 ≡ some x) × Holds (pop_front q).1 xs
unfolding pop_front
pop_front-Holds q x [] h =
    rw (h.chain.0, pop_front)
      (refl, record { chain = h.chain.1; tail_last = rw h.chain.1; distinct = tt })
pop_front-Holds q x (y ∷ xs) h =
    rw (h.chain.0, pop_front)
      (
        refl,
        record {
          chain = Chain-update q.next (q.next x) none x (y ∷ xs) h.distinct.0 h.chain.1;
          tail_last = rw h.chain.1.0 h.tail_last;
          distinct = h.distinct.1;
        },
      )

pub pop_front-empty : (q : Links) → Holds q [] → pop_front q ≡ (none, q)
unfolding pop_front
pop_front-empty q h = ground arith
