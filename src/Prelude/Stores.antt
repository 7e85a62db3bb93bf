-- ===== src/Prelude/Stores.antt =====
-- Memory as a function of the address, and one write to it.
use Prim.Native.Nat.{ℕ}
use mathlib.Core.Path.{◌≡◌, fun_ext}
use mathlib.Core.Logic.{◌≢◌}
use mathlib.Core.List.{List, [], ◌∷◌}
use native.Mathlib.Omega.{arith}
use hobby_os.Prelude.Tests.{◌==◌, if◌then◌else◌}

abbrev pub update {ℓ} : {A : Type ℓ} → (ℕ → A) → ℕ → A → ℕ → A
update f p v q = if p == q then v else f q

pub update_self {ℓ} : {A : Type ℓ} (f : ℕ → A) (p : ℕ) (v : A) → update f p v p ≡ v
update_self f p v = ground arith

pub update_ne {ℓ} : {A : Type ℓ} (f : ℕ → A) (p : ℕ) (v : A) (q : ℕ) → p ≢ q → update f p v q ≡ f q
update_ne f p v q h = ground arith

pub update-update {ℓ} :
    {A : Type ℓ} (f : ℕ → A) (p : ℕ) (v w : A) → update (update f p v) p w ≡ update f p w
update-update f p v w = fun_ext λ q. ground arith

-- A predicate on every element, by recursion, so that the tactics read it.
abbrev pub All {ℓ κ} : {A : Type ℓ} → (A → Type κ) → List A → Type κ
All P [] = Unit
All P (x ∷ xs) = P x × All P xs

abbrev pub Absent : ℕ → List ℕ → Type 0
Absent p = All (λ x. x ≢ p)

-- No address twice.
abbrev pub Distinct : List ℕ → Type 0
Distinct [] = Unit
Distinct (x ∷ xs) = Absent x xs × Distinct xs
