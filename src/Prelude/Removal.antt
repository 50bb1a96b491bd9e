-- ===== src/Prelude/Removal.antt =====
-- A list without the element at a position.
use Prim.Native.Nat.{ℕ, zero, suc, ◌+◌}
use mathlib.Core.Path.{◌≡◌}
use mathlib.Core.Option.{some}
use mathlib.Core.List.{List, [], ◌∷◌}
use native.Mathlib.Omega.{arith}
use os_final_project.Prelude.Lists.{length, get_elem?, All}

abbrev pub remove {ℓ} : {A : Type ℓ} → List A → ℕ → List A
remove [] i = []
remove (x ∷ xs) zero = xs
remove (x ∷ xs) (suc i) = x ∷ remove xs i

pub length-remove {ℓ} :
    {A : Type ℓ} (xs : List A) (i : ℕ) (x : A)
    → get_elem? xs i ≡ some x
    → length (remove xs i) + 1 ≡ length xs
length-remove [] i x e = cc
length-remove (y ∷ xs) zero x e = omega arith
length-remove (y ∷ xs) (suc i) x e = omega (arith, length-remove xs i x e)

pub All-remove {ℓ κ} :
    {A : Type ℓ} (P : A → Type κ) (xs : List A) (i : ℕ) → All P xs → All P (remove xs i)
All-remove P [] i a = a
All-remove P (x ∷ xs) zero a = a.1
All-remove P (x ∷ xs) (suc i) a = (a.0, All-remove P xs i a.1)
