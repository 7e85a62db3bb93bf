-- ===== src/Data/LinkedList/Links.antt =====
-- The links of kernel/lib/list.h: which nodes, in which order, a list of the store has.
use hobby_os.Prelude.{
  ℕ, ◌≡◌, ◌≢◌, ◌∙◌, List, [], ◌∷◌, ◌++◌, length, arith, update, update_self, update_ne, Absent,
  Distinct,
}
use hobby_os.Data.LinkedList.{LinkedList}

-- The first and the last address, or the one given.
abbrev pub first_or : ℕ → List ℕ → ℕ
first_or a [] = a
first_or a (x ∷ xs) = x

abbrev pub last_or : ℕ → List ℕ → ℕ
last_or b [] = b
last_or b (x ∷ xs) = last_or x xs

-- The nodes `xs` are linked both ways, between `b` before and `a` behind.
abbrev pub Chain : (ℕ → ℕ) → (ℕ → ℕ) → ℕ → List ℕ → ℕ → Type 0
Chain next prev b [] a = Unit
Chain next prev b (x ∷ xs) a = (prev x ≡ b) × (next x ≡ first_or a xs) × Chain next prev x xs a

-- The list `l` has the nodes `xs`, in this order, none twice and none null.
pub record Links {ℓ} {T : Type ℓ} (l : LinkedList T) (xs : List ℕ) : Type 0 where
  pub head : l.head ≡ first_or 0 xs
  pub tail : l.tail ≡ last_or 0 xs
  pub chain : Chain l.next l.prev 0 xs 0
  pub apart : Distinct xs
  pub nonnull : Absent 0 xs
  pub size : l.size ≡ length xs

pub Chain-next :
    (next prev : ℕ → ℕ) (b q v a : ℕ) (xs : List ℕ)
    → Absent q xs
    → Chain next prev b xs a
    → Chain (update next q v) prev b xs a
Chain-next next prev b q v a [] away c = tt
Chain-next next prev b q v a (x ∷ xs) away c =
    (c.0, ground arith, Chain-next next prev x q v a xs away.1 c.2)

pub Chain-prev :
    (next prev : ℕ → ℕ) (b q v a : ℕ) (xs : List ℕ)
    → Absent q xs
    → Chain next prev b xs a
    → Chain next (update prev q v) b xs a
Chain-prev next prev b q v a [] away c = tt
Chain-prev next prev b q v a (x ∷ xs) away c =
    (ground arith, c.1, Chain-prev next prev x q v a xs away.1 c.2)

-- A chain in two parts.
pub Chain-split :
    (next prev : ℕ → ℕ) (b a : ℕ) (xs ys : List ℕ)
    → Chain next prev b (xs ++ ys) a
    → Chain next prev b xs (first_or a ys) × Chain next prev (last_or b xs) ys a
Chain-split next prev b a [] ys c = (tt, c)
Chain-split next prev b a (x ∷ []) ys c = ((c.0, c.1, tt), c.2)
Chain-split next prev b a (x ∷ y ∷ xs) ys c =
    let (left, right) = Chain-split next prev x a (y ∷ xs) ys c.2 in ((c.0, c.1, left), right)

pub Chain-join :
    (next prev : ℕ → ℕ) (b a : ℕ) (xs ys : List ℕ)
    → Chain next prev b xs (first_or a ys)
    → Chain next prev (last_or b xs) ys a
    → Chain next prev b (xs ++ ys) a
Chain-join next prev b a [] ys left right = right
Chain-join next prev b a (x ∷ []) ys left right = (left.0, left.1, right)
Chain-join next prev b a (x ∷ y ∷ xs) ys left right =
    (left.0, left.1, Chain-join next prev x a (y ∷ xs) ys left.2 right)

-- The last node is one of them.
pub Absent-last : (q b : ℕ) (xs : List ℕ) → Absent q (b ∷ xs) → last_or b xs ≢ q
Absent-last q b [] away = away.0
Absent-last q b (x ∷ xs) away = Absent-last q x xs away.1

-- The link out of the last node is set to `c`.
pub Chain-set_after :
    (next prev : ℕ → ℕ) (b x a c : ℕ) (xs : List ℕ)
    → Distinct (x ∷ xs)
    → Chain next prev b (x ∷ xs) a
    → Chain (update next (last_or x xs) c) prev b (x ∷ xs) c
Chain-set_after next prev b x a c [] apart h = (h.0, update_self next x c, tt)
Chain-set_after next prev b x a c (y ∷ xs) apart h =
    let ne = Absent-last x y xs apart.0 in
    (
      h.0,
      update_ne next (last_or y xs) c x ne ∙ h.1,
      Chain-set_after next prev x y a c xs apart.1 h.2,
    )

-- The link back from the first node is set to `c`.
pub Chain-set_before :
    (next prev : ℕ → ℕ) (b x a c : ℕ) (xs : List ℕ)
    → Absent x xs
    → Chain next prev b (x ∷ xs) a
    → Chain next (update prev x c) c (x ∷ xs) a
Chain-set_before next prev b x a c xs away h =
    (update_self prev x c, h.1, Chain-prev next prev x x c a xs away h.2)
