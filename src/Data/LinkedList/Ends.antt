-- ===== src/Data/LinkedList/Ends.antt =====
-- The ends of a list of kernel/lib/list.h that a node leaves or joins.
use hobby_os.Prelude.{
  ne→==, ℕ, ◌≡◌, ◌≢◌, refl, sym, ◌∙◌, List, [], ◌∷◌, ◌++◌, Absent, Distinct, ◌==◌, if◌then◌else◌,
}
use hobby_os.Data.LinkedList.Links.{first_or, last_or, Absent-last}
use hobby_os.Data.LinkedList.Bypass.{Absent-left, Absent-right, Absent-join, Distinct-middle}

pub last_or-ne :
    (xs ys : List ℕ) (node : ℕ)
    → Distinct (xs ++ node ∷ ys)
    → Absent 0 (xs ++ node ∷ ys)
    → last_or 0 xs ≢ node
last_or-ne xs ys node apart nonnull =
    Absent-last node 0 xs
      (λ e. (Absent-right 0 xs (node ∷ ys) nonnull).0 (sym e), (Distinct-middle xs ys node apart).0)

pub first_or-ne :
    (xs ys : List ℕ) (node : ℕ)
    → Distinct (xs ++ node ∷ ys)
    → Absent 0 (xs ++ node ∷ ys)
    → first_or 0 ys ≢ node
first_or-ne xs [] node apart nonnull = λ e. (Absent-right 0 xs (node ∷ []) nonnull).0 (sym e)
first_or-ne xs (y ∷ ys) node apart nonnull = (Distinct-middle xs (y ∷ ys) node apart).1.0

pub head-without :
    (xs ys : List ℕ) (node : ℕ)
    → Absent 0 (xs ++ node ∷ ys)
    → (if last_or 0 xs == 0 then first_or 0 ys else first_or 0 (xs ++ node ∷ ys))
      ≡ first_or 0 (xs ++ ys)
head-without [] ys node nonnull = refl
head-without (x ∷ xs) ys node nonnull =
    rw (ne→== (last_or x xs) 0 (Absent-last 0 x xs (Absent-left 0 (x ∷ xs) (node ∷ ys) nonnull)))

pub last_or-append : (b : ℕ) (xs ys : List ℕ) → last_or b (xs ++ ys) ≡ last_or (last_or b xs) ys
last_or-append b [] ys = refl
last_or-append b (x ∷ xs) ys = last_or-append x xs ys

pub tail-without :
    (xs ys : List ℕ) (node : ℕ)
    → Absent 0 (xs ++ node ∷ ys)
    → (if first_or 0 ys == 0 then last_or 0 xs else last_or 0 (xs ++ node ∷ ys))
      ≡ last_or 0 (xs ++ ys)
tail-without xs [] node nonnull = sym (last_or-append 0 xs [])
tail-without xs (y ∷ ys) node nonnull =
    rw (ne→== y 0 (Absent-right 0 xs (node ∷ y ∷ ys) nonnull).1.0)
      (last_or-append 0 xs (node ∷ y ∷ ys) ∙ sym (last_or-append 0 xs (y ∷ ys)))

pub Absent-drop :
    (q : ℕ) (xs ys : List ℕ) (node : ℕ) → Absent q (xs ++ node ∷ ys) → Absent q (xs ++ ys)
Absent-drop q xs ys node h =
    Absent-join q xs ys (Absent-left q xs (node ∷ ys) h) (Absent-right q xs (node ∷ ys) h).1

pub Distinct-snoc :
    (xs : List ℕ) (node : ℕ) → Distinct xs → Absent node xs → Distinct (xs ++ node ∷ [])
Distinct-snoc [] node apart fresh = (tt, tt)
Distinct-snoc (x ∷ xs) node apart fresh = (
  Absent-join x xs (node ∷ []) apart.0 (λ e. fresh.0 (sym e), tt),
  Distinct-snoc xs node apart.1 fresh.1,
)
