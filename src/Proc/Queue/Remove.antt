-- ===== src/Proc/Queue/Remove.antt =====
-- Removal from the middle of a linked queue.
use mathlib.Core.List.{append-nil}
use hobby_os.Prelude.{
  ℕ, zero, suc, ◌<◌, ◌≡◌, refl, sym, ap, ◌∙◌, ◌≢◌, Option, none, some, List, [], ◌∷◌, ◌++◌, arith,
  length, update, update_ne, Absent, Distinct,
}
use hobby_os.Proc.Queue.{Links, pop_front, find_before, unlink_after, remove}
use hobby_os.Proc.Queue.Refine.{
  Chain, pop_front-Holds, last?, last?-cons, Holds, Chain-update, ne_last,
}

pub Absent-split :
    (x p : ℕ) (ys zs : List ℕ) → Absent x (ys ++ p ∷ zs) → Absent x ys × (p ≢ x) × Absent x zs
Absent-split x p [] zs a = (tt, a.0, a.1)
Absent-split x p (y ∷ ys) zs a = let (l, m, r) = Absent-split x p ys zs a.1 in ((a.0, l), m, r)

pub Absent-append : (x : ℕ) (ys zs : List ℕ) → Absent x ys → Absent x zs → Absent x (ys ++ zs)
Absent-append x [] zs a b = b
Absent-append x (y ∷ ys) zs a b = (a.0, Absent-append x ys zs a.1 b)

Absent-split_append : (x : ℕ) (ys zs : List ℕ) → Absent x (ys ++ zs) → Absent x ys × Absent x zs
Absent-split_append x [] zs a = (tt, a)
Absent-split_append x (y ∷ ys) zs a = let (l, r) = Absent-split_append x ys zs a.1 in ((a.0, l), r)

pub Distinct-middle :
    (p : ℕ) (ys zs : List ℕ)
    → Distinct (ys ++ p ∷ zs)
    → Absent p ys × Absent p zs × Distinct (ys ++ zs)
Distinct-middle p [] zs d = (tt, d.0, d.1)
Distinct-middle p (y ∷ ys) zs d =
    let (before, behind, rest) = Distinct-middle p ys zs d.1 in
    let (l, m, r) = Absent-split y p ys zs d.0 in
    ((λ e. m (sym e), before), behind, (Absent-append y ys zs l r, rest))

-- The loop stops at the PCB that stands right before `p`.
find_before-Chain :
    (fuel : ℕ) (next : ℕ → Option ℕ) (p w : ℕ) (ws zs : List ℕ)
    → length ws < fuel
    → Chain next (next w) (ws ++ p ∷ zs)
    → Absent p ws
    → find_before fuel next p (some w) ≡ some (last? (w ∷ ws))
unfolding find_before
find_before-Chain zero next p w ws zs f c a = absurd (omega arith)
find_before-Chain (suc fuel) next p w [] zs f c a = ground arith
find_before-Chain (suc fuel) next p w (v ∷ vs) zs f c a =
    let ih = find_before-Chain fuel next p v vs zs (omega arith) c.1 a.1 in
    let ne = a.0 in rw (c.0, find_before) (ground arith)

-- It runs off the end where `p` is not in the queue.
find_before-Absent :
    (fuel : ℕ) (next : ℕ → Option ℕ) (p : ℕ) (o : Option ℕ) (xs : List ℕ)
    → length xs < fuel
    → Chain next o xs
    → Absent p xs
    → find_before fuel next p o ≡ some none
unfolding find_before
find_before-Absent zero next p o xs f c a = absurd (omega arith)
find_before-Absent (suc fuel) next p o [] f c a = rw c
find_before-Absent (suc fuel) next p o (x ∷ []) f c a =
    let ih = find_before-Absent fuel next p (next x) [] (omega arith) c.1 tt in
    rw (c.0, find_before) (ground arith)
find_before-Absent (suc fuel) next p o (x ∷ y ∷ xs) f c a =
    let ih = find_before-Absent fuel next p (next x) (y ∷ xs) (omega arith) c.1 a.1 in
    let ne = a.1.0 in rw (c.0, find_before) (ground arith)

Chain-unlink :
    (next : ℕ → Option ℕ) (o : Option ℕ) (p c w : ℕ) (ws zs : List ℕ)
    → last? (w ∷ ws) ≡ some c
    → Distinct (w ∷ ws ++ zs)
    → Chain next o (w ∷ ws ++ p ∷ zs)
    → Chain (update next c (next p)) o (w ∷ ws ++ zs)
Chain-unlink next o p c w [] zs l d ch =
    let e : w ≡ c = ground arith in
    let a : Absent c zs = rw (← e) d.0 in
    let here : update next c (next p) w ≡ next p = ground arith in
    (ch.0, rw here (Chain-update next (next p) (next p) c zs a ch.1.1))
Chain-unlink next o p c w (v ∷ vs) zs l d ch =
    let (before, r) = Absent-split_append w (v ∷ vs) zs d.0 in
    let ne : c ≢ w = ne_last w c (v ∷ vs) before l in
    let rest = Chain-unlink next (next w) p c v vs zs l d.1 ch.1 in
    (ch.0, rw (update_ne next c (next p) w ne) rest)

last?-append_cons : (xs : List ℕ) (y : ℕ) (ys : List ℕ) → last? (xs ++ y ∷ ys) ≡ last? (y ∷ ys)
last?-append_cons [] y ys = refl
last?-append_cons (x ∷ []) y ys = refl
last?-append_cons (x ∷ w ∷ xs) y ys = last?-append_cons (w ∷ xs) y ys

-- The tail pointer after the removal of `p` behind `c`.
tail-unlink :
    (q : Links) (p c w : ℕ) (ws zs : List ℕ)
    → last? (w ∷ ws) ≡ some c
    → Absent p zs
    → q.tail ≡ last? (w ∷ ws ++ p ∷ zs)
    → (unlink_after q p (some c)).tail ≡ last? (w ∷ ws ++ zs)
unfolding unlink_after
tail-unlink q p c w ws [] l a t =
    let e : q.tail ≡ some p = t ∙ last?-append_cons (w ∷ ws) p [] in rw append-nil (ground arith)
tail-unlink q p c w ws (z ∷ zs) l a t =
    let (u, last) = last?-cons z zs in
    let ne : u ≢ p = ne_last p u (z ∷ zs) a last in
    let e : q.tail ≡ some u = t ∙ last?-append_cons (w ∷ ws) p (z ∷ zs) ∙ last in
    rw (e, last?-append_cons (w ∷ ws) z zs, last) (ground arith)

remove_head :
    (fuel : ℕ) (q : Links) (p : ℕ) → q.head ≡ some p → remove fuel q p ≡ some (pop_front q).1
unfolding remove pop_front
remove_head fuel q p e = ground arith

remove_behind :
    (fuel : ℕ) (q : Links) (p w c : ℕ)
    → q.head ≡ some w
    → w ≢ p
    → find_before fuel q.next p (some w) ≡ some (some c)
    → remove fuel q p ≡ some (unlink_after q p (some c))
unfolding remove
remove_behind fuel q p w c e ne stop = ground arith

-- On a queue that holds `p`, `remove` with fuel for those in front of it returns, takes `p` out and
-- keeps the order of the others.
pub remove-Holds :
    (fuel : ℕ) (q : Links) (p : ℕ) (ys zs : List ℕ)
    → length ys < fuel
    → Holds q (ys ++ p ∷ zs)
    → (q' : Links) × (remove fuel q p ≡ some q') × Holds q' (ys ++ zs)
unfolding unlink_after
remove-Holds fuel q p [] zs f h =
    let (first, rest) = pop_front-Holds q p zs h in
    ((pop_front q).1, remove_head fuel q p h.chain.0, rest)
remove-Holds fuel q p (w ∷ ws) zs f h =
    let (before, behind, rest) = Distinct-middle p (w ∷ ws) zs h.distinct in
    let (c, last) = last?-cons w ws in
    let stop = find_before-Chain fuel q.next p w ws zs (omega arith) h.chain.1 before.1 in
    let unlinked = Chain-unlink q.next q.head p c w ws zs last rest h.chain in
    let gone = Absent-append p (w ∷ ws) zs before behind in
    (
      unlink_after q p (some c),
      remove_behind fuel q p w c h.chain.0 before.0 (stop ∙ ap some last),
      record {
        chain = Chain-update _ q.head none p (w ∷ ws ++ zs) gone unlinked;
        tail_last = tail-unlink q p c w ws zs last behind h.tail_last;
        distinct = rest;
      },
    )

-- A PCB that is not in the queue: nothing changes.
pub remove-Absent :
    (fuel : ℕ) (q : Links) (p : ℕ) (xs : List ℕ)
    → length xs < fuel
    → Holds q xs
    → Absent p xs
    → remove fuel q p ≡ some q
unfolding remove
remove-Absent fuel q p [] f h a =
    let stop = find_before-Absent fuel q.next p q.head [] f h.chain a in ground arith
remove-Absent fuel q p (x ∷ xs) f h a =
    let stop = find_before-Absent fuel q.next p q.head (x ∷ xs) f h.chain a in
    let ne = a.0 in let e = h.chain.0 in ground arith
