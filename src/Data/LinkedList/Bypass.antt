-- ===== src/Data/LinkedList/Bypass.antt =====
-- The links of kernel/lib/list.h around a node that leaves.
use mathlib.Core.Path.{subst}
use hobby_os.Prelude.{
  ℕ, ◌≡◌, ◌≢◌, refl, sym, ap, List, [], ◌∷◌, ◌++◌, arith, update, ne→==, Absent, Distinct,
  if◌then◌else◌,
}
use hobby_os.Data.LinkedList.{bypass}
use hobby_os.Data.LinkedList.Links.{
  first_or, last_or, Chain, Chain-next, Chain-prev, Chain-split, Chain-join, Absent-last,
  Chain-set_after, Chain-set_before,
}

pub Absent-left : (q : ℕ) (xs ys : List ℕ) → Absent q (xs ++ ys) → Absent q xs
Absent-left q [] ys h = tt
Absent-left q (x ∷ xs) ys h = (h.0, Absent-left q xs ys h.1)

pub Absent-right : (q : ℕ) (xs ys : List ℕ) → Absent q (xs ++ ys) → Absent q ys
Absent-right q [] ys h = h
Absent-right q (x ∷ xs) ys h = Absent-right q xs ys h.1

pub Absent-join : (q : ℕ) (xs ys : List ℕ) → Absent q xs → Absent q ys → Absent q (xs ++ ys)
Absent-join q [] ys h g = g
Absent-join q (x ∷ xs) ys h g = (h.0, Absent-join q xs ys h.1 g)

pub Distinct-left : (xs ys : List ℕ) → Distinct (xs ++ ys) → Distinct xs
Distinct-left [] ys h = tt
Distinct-left (x ∷ xs) ys h = (Absent-left x xs ys h.0, Distinct-left xs ys h.1)

pub Distinct-right : (xs ys : List ℕ) → Distinct (xs ++ ys) → Distinct ys
Distinct-right [] ys h = h
Distinct-right (x ∷ xs) ys h = Distinct-right xs ys h.1

-- A node in the middle is none of the others.
pub Distinct-middle : (xs ys : List ℕ) (y : ℕ) → Distinct (xs ++ y ∷ ys) → Absent y xs × Absent y ys
Distinct-middle [] ys y h = (tt, h.0)
Distinct-middle (x ∷ xs) ys y h =
    let (left, right) = Distinct-middle xs ys y h.1 in
    let y_is_not_x = (Absent-right x xs (y ∷ ys) h.0).0 in ((λ e. y_is_not_x (sym e), left), right)

pub Distinct-drop : (xs ys : List ℕ) (y : ℕ) → Distinct (xs ++ y ∷ ys) → Distinct (xs ++ ys)
Distinct-drop [] ys y h = h.1
Distinct-drop (x ∷ xs) ys y h = (
  Absent-join x xs ys (Absent-left x xs (y ∷ ys) h.0) (Absent-right x xs (y ∷ ys) h.0).1,
  Distinct-drop xs ys y h.1,
)

-- The last node of the first part is not in the second.
pub Distinct-last : (x : ℕ) (xs ys : List ℕ) → Distinct ((x ∷ xs) ++ ys) → Absent (last_or x xs) ys
Distinct-last x [] ys h = h.0
Distinct-last x (y ∷ xs) ys h = Distinct-last y xs ys h.1

-- An edit through a pointer that may be null.
pub bypass_null : (link : ℕ → ℕ) (to : ℕ) → bypass link 0 to ≡ link
unfolding bypass
bypass_null link to = refl

pub bypass-update :
    (link : ℕ → ℕ) (node to : ℕ) → node ≢ 0 → bypass link node to ≡ update link node to
unfolding bypass
bypass-update link node to h = ap (λ b. if b then link else update link node to) (ne→== node 0 h)

pub bypass_ne : (link : ℕ → ℕ) (node to q : ℕ) → node ≢ q → bypass link node to q ≡ link q
unfolding bypass
bypass_ne link node to q h = ground arith

pub Chain-same :
    {next next' prev prev' : ℕ → ℕ}
    → next ≡ next'
    → prev ≡ prev'
    → (b : ℕ) (xs : List ℕ) (a : ℕ) → Chain next prev b xs a
    → Chain next' prev' b xs a
Chain-same {next} {next'} {prev} {prev'} e f b xs a c =
    subst (λ n. Chain n prev' b xs a) e (subst (λ q. Chain next q b xs a) f c)

-- The nodes `xs` and `ys` around one node are linked, once the links pass it by.
pub Chain-bypass :
    (next prev : ℕ → ℕ) (node : ℕ) (xs ys : List ℕ)
    → Distinct (xs ++ node ∷ ys)
    → Absent 0 (xs ++ node ∷ ys)
    → Chain next prev 0 (xs ++ node ∷ ys) 0
    → Chain
        (bypass next (last_or 0 xs) (first_or 0 ys))
        (bypass prev (first_or 0 ys) (last_or 0 xs))
        0
        (xs ++ ys)
        0
Chain-bypass next prev node [] [] apart nonnull c = tt
Chain-bypass next prev node [] (y ∷ ys) apart nonnull c =
    Chain-same (sym (bypass_null next y)) (sym (bypass-update prev y 0 nonnull.1.0)) 0 (y ∷ ys) 0
      (Chain-set_before next prev node y 0 0 ys apart.1.0 c.2)
Chain-bypass next prev node (x ∷ xs) [] apart nonnull c =
    let (left, right) = Chain-split next prev 0 0 (x ∷ xs) (node ∷ []) c in
    let live = Absent-last 0 x xs (Absent-left 0 (x ∷ xs) (node ∷ []) nonnull) in
    Chain-same (sym (bypass-update next (last_or x xs) 0 live))
      (sym (bypass_null prev (last_or x xs))) 0 ((x ∷ xs) ++ []) 0
      (Chain-join (update next (last_or x xs) 0) prev 0 0 (x ∷ xs) []
        (Chain-set_after next prev 0 x node 0 xs (Distinct-left (x ∷ xs) (node ∷ []) apart) left)
        tt)
Chain-bypass next prev node (x ∷ xs) (y ∷ ys) apart nonnull c =
    let (left, right) = Chain-split next prev 0 0 (x ∷ xs) (node ∷ y ∷ ys) c in
    let live = Absent-last 0 x xs (Absent-left 0 (x ∷ xs) (node ∷ y ∷ ys) nonnull) in
    let live_y = (Absent-right 0 (x ∷ xs) (node ∷ y ∷ ys) nonnull).1.0 in
    let rest = Distinct-right (x ∷ xs) (node ∷ y ∷ ys) apart in
    let p = last_or x xs in
    let y_not_left =
      (Distinct-middle (x ∷ xs) ys y (Distinct-drop (x ∷ xs) (y ∷ ys) node apart)).0 in
    let p_not_right = (Distinct-last x xs (node ∷ y ∷ ys) apart).1 in
    Chain-same (sym (bypass-update next p y live)) (sym (bypass-update prev y p live_y)) 0
      ((x ∷ xs) ++ y ∷ ys) 0
      (Chain-join (update next p y) (update prev y p) 0 0 (x ∷ xs) (y ∷ ys)
        (Chain-prev (update next p y) prev 0 y p y (x ∷ xs) y_not_left (
          Chain-set_after next prev 0 x node y xs (Distinct-left (x ∷ xs) (node ∷ y ∷ ys) apart)
            left))
        (Chain-set_before (update next p y) prev node y 0 p ys rest.1.0
          (Chain-next next prev node p y 0 (y ∷ ys) p_not_right right.2)))
