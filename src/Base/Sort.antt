-- ===== src/Base/Sort.antt =====
-- Stable sorting by a Boolean `less`, as sort.SliceStable does it. A stable sort has one result, so
-- insertion from the right, which is stable, stands for the library's algorithm.
use mathlib.Core.Path.{◌≡◌}
use mathlib.Core.Bool.{Bool, true, false}
use mathlib.Core.List.{List, [], ◌∷◌, Perm}
use mathlib.Core.List.Perm
use mathlib.Core.Logic.{inl, inr}
use markdown_linkerator.Base.Lists.{All}
use markdown_linkerator.Base.Tests.{if◌then◌else◌, Bool-cases}

-- A strict order, as the sorting functions want it: its complement is transitive.
pub record IsOrder {ℓ} {A : Type ℓ} (less : A → A → Bool) : Type ℓ where
  pub asymm : (a b : A) → less a b ≡ true → less b a ≡ false
  pub trans_not : (a b c : A) → less b a ≡ false → less c b ≡ false → less c a ≡ false

module _ {ℓ} {A : Type ℓ} (less : A → A → Bool) where
  unfoldable pub sort_insert : A → List A → List A
  sort_insert x [] = x ∷ []
  sort_insert x (y ∷ ys) = if less y x then y ∷ sort_insert x ys else x ∷ y ∷ ys

  unfoldable pub sort_stable : List A → List A
  unfolding sort_insert
  sort_stable [] = []
  sort_stable (x ∷ xs) = sort_insert x (sort_stable xs)

  -- No entry is less than one before it.
  abbrev pub IsSorted : List A → Type ℓ
  IsSorted [] = Unit
  IsSorted (x ∷ xs) = All (λ y. less y x ≡ false) xs × IsSorted xs

  pub sort_insert-perm : (x : A) (xs : List A) → Perm (sort_insert x xs) (x ∷ xs)
  unfolding sort_insert
  sort_insert-perm x [] = Perm.refl (x ∷ [])
  sort_insert-perm x (y ∷ ys) = elim (Bool-cases (less y x)) [
    | inl e ↦ rw e (Perm.trans (Perm.cons y (sort_insert-perm x ys)) (Perm.swap x y ys))
    | inr e ↦ rw e (Perm.refl (x ∷ y ∷ ys))
  ]

  pub sort_stable-perm : (xs : List A) → Perm (sort_stable xs) xs
  unfolding sort_stable
  sort_stable-perm [] = Perm.refl []
  sort_stable-perm (x ∷ xs) =
      Perm.trans (sort_insert-perm x (sort_stable xs)) (Perm.cons x (sort_stable-perm xs))

  sort_insert-All {κ} :
      (P : A → Type κ) (x : A) (xs : List A) → P x → All P xs → All P (sort_insert x xs)
  unfolding sort_insert
  sort_insert-All P x [] h a = (h, tt)
  sort_insert-All P x (y ∷ ys) h a = elim (Bool-cases (less y x)) [
    | inl e ↦ rw e (a.0, sort_insert-All P x ys h a.1)
    | inr e ↦ rw e (h, a)
  ]

  All-less_trans :
      (o : IsOrder less) (x y : A) (xs : List A)
      → less y x ≡ false
      → All (λ z. less z y ≡ false) xs
      → All (λ z. less z x ≡ false) xs
  All-less_trans o x y [] h a = tt
  All-less_trans o x y (z ∷ xs) h a = (o.trans_not x y z h a.0, All-less_trans o x y xs h a.1)

  pub sort_insert-IsSorted :
      (o : IsOrder less) (x : A) (xs : List A) → IsSorted xs → IsSorted (sort_insert x xs)
  unfolding sort_insert
  sort_insert-IsSorted o x [] s = (tt, tt)
  sort_insert-IsSorted o x (y ∷ ys) s = elim (Bool-cases (less y x)) [
    | inl e ↦ rw e (
      sort_insert-All (λ z. less z y ≡ false) x ys (o.asymm y x e) s.0,
      sort_insert-IsSorted o x ys s.1,
    )
    | inr e ↦ rw e ((e, All-less_trans o x y ys e s.0), s)
  ]

  pub sort_stable-IsSorted : (o : IsOrder less) (xs : List A) → IsSorted (sort_stable xs)
  unfolding sort_stable
  sort_stable-IsSorted o [] = tt
  sort_stable-IsSorted o (x ∷ xs) =
      sort_insert-IsSorted o x (sort_stable xs) (sort_stable-IsSorted o xs)
