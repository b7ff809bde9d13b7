-- ===== src/Base/Maps.antt =====
-- Go maps with text keys, as association lists.
use mathlib.Core.Path.{◌≡◌, refl}
use mathlib.Core.List.{List, [], ◌∷◌}
use mathlib.Core.Option.{Option, none, some}
use native.Mathlib.Omega.{arith}
use mathlib.Core.Logic.{inl, inr}
use markdown_linkerator.Base.Lists.{All}
use markdown_linkerator.Base.Tests.{if◌then◌else◌, Bool-cases}
use markdown_linkerator.Base.Texts.{Text, text_eq, text_eq_iff, text_eq_refl}

abbrev pub Map {ℓ} : Type ℓ → Type ℓ
Map V = List (Text × V)

module _ {ℓ} {V : Type ℓ} where
  unfoldable pub lookup : Text → Map V → Option V
  lookup k [] = none
  lookup k ((j, v) ∷ m) = if text_eq j k then some v else lookup k m

  unfoldable pub insert : Text → V → Map V → Map V
  insert k v [] = (k, v) ∷ []
  insert k v ((j, w) ∷ m) = if text_eq j k then (k, v) ∷ m else (j, w) ∷ insert k v m

  pub lookup-insert :
      (k j : Text) (v : V) (m : Map V)
      → lookup j (insert k v m) ≡ (if text_eq k j then some v else lookup j m)
  unfolding lookup insert
  lookup-insert k j v [] = refl
  lookup-insert k j v ((i, w) ∷ m) =
      ground (arith, text_eq_iff k j, text_eq_iff i k, text_eq_iff i j, lookup-insert k j v m)

  pub lookup-insert_self : (k : Text) (v : V) (m : Map V) → lookup k (insert k v m) ≡ some v
  lookup-insert_self k v m = simp (lookup-insert, text_eq_refl)

  -- What holds of every value in a map.
  abbrev pub AllValues {κ} : (V → Type κ) → Map V → Type κ
  AllValues P = All (λ (b : Text × V). P b.1)

  pub insert-AllValues {κ} :
      (P : V → Type κ) (k : Text) (v : V) (m : Map V)
      → P v
      → AllValues P m
      → AllValues P (insert k v m)
  unfolding insert
  insert-AllValues P k v [] h a = (h, tt)
  insert-AllValues P k v ((j, w) ∷ m) h a = elim (Bool-cases (text_eq j k)) [
    | inl e ↦ rw e (h, a.1)
    | inr e ↦ rw e (a.0, insert-AllValues P k v m h a.1)
  ]

  pub lookup-AllValues {κ} :
      (P : V → Type κ) (k : Text) (m : Map V) {v : V} → AllValues P m → lookup k m ≡ some v → P v
  unfolding lookup
  lookup-AllValues P k [] a e = absurd (ground arith)
  lookup-AllValues P k ((j, w) ∷ m) {v} a e = elim (Bool-cases (text_eq j k)) [
    | inl t ↦ let q : w ≡ v = ground arith in rw (← q) a.0
    | inr t ↦ lookup-AllValues P k m a.1 (ground arith)
  ]

  -- Go's `delete`.
  unfoldable pub remove : Text → Map V → Map V
  remove k [] = []
  remove k ((j, v) ∷ m) = if text_eq j k then remove k m else (j, v) ∷ remove k m

  pub lookup-remove :
      (k j : Text) (m : Map V) → lookup j (remove k m) ≡ (if text_eq k j then none else lookup j m)
  unfolding lookup remove
  lookup-remove k j [] = ground arith
  lookup-remove k j ((i, w) ∷ m) =
      ground (arith, text_eq_iff k j, text_eq_iff i k, text_eq_iff i j, lookup-remove k j m)
