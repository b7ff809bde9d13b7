-- ===== src/Base/Sums.antt =====
-- Sums of a weight over lists, options and maps.
use Prim.Native.Nat.{ℕ, ◌+◌}
use mathlib.Core.Path.{◌≡◌}
use mathlib.Core.List.{List, [], ◌∷◌, ◌++◌}
use mathlib.Core.Option.{Option, none, some}
use mathlib.Core.Logic.{inl, inr}
use native.Mathlib.Omega.{arith}
use markdown_linkerator.Base.Tests.{Bool-cases}
use markdown_linkerator.Base.Texts.{Text, text_eq}
use markdown_linkerator.Base.Maps.{Map, lookup, insert}

module _ {ℓ} {A : Type ℓ} where
  abbrev pub sum_of : (A → ℕ) → List A → ℕ
  sum_of f [] = 0
  sum_of f (x ∷ xs) = f x + sum_of f xs

  abbrev pub weight : (A → ℕ) → Option A → ℕ
  weight f none = 0
  weight f (some x) = f x

  pub sum_of-append : (f : A → ℕ) (xs ys : List A) → sum_of f (xs ++ ys) ≡ sum_of f xs + sum_of f ys
  sum_of-append f [] ys = omega arith
  sum_of-append f (x ∷ xs) ys = omega (arith, sum_of-append f xs ys)

  pub sum_of-middle :
      (f : A → ℕ) (xs : List A) (y : A) (ys : List A)
      → sum_of f (xs ++ (y ∷ ys)) ≡ sum_of f xs + f y + sum_of f ys
  sum_of-middle f [] y ys = omega arith
  sum_of-middle f (x ∷ xs) y ys = omega (arith, sum_of-middle f xs y ys)

-- A weight of a map's values.
abbrev pub total {ℓ} : {V : Type ℓ} → (V → ℕ) → Map V → ℕ
total {V} f m = sum_of (λ (b : Text × V). f b.1) m

pub total-insert {ℓ} :
    {V : Type ℓ} (f : V → ℕ) (k : Text) (v : V) (m : Map V)
    → total f (insert k v m) + weight f (lookup k m) ≡ total f m + f v
unfolding insert lookup
total-insert f k v [] = omega arith
total-insert f k v ((j, old) ∷ m) = elim (Bool-cases (text_eq j k)) [
  | inl e ↦ rw e (omega arith)
  | inr e ↦ rw e (omega (arith, total-insert f k v m))
]
