-- ===== src/Base/Unique.antt =====
-- Maps whose keys stand once: what holds at every key holds of every value.
use mathlib.Core.Path.{◌≡◌, refl}
use mathlib.Core.List.{[], ◌∷◌}
use mathlib.Core.Option.{none, some}
use mathlib.Core.Logic.{inl, inr}
use native.Mathlib.Omega.{arith}
use markdown_linkerator.Base.Tests.{Bool-cases}
use markdown_linkerator.Base.Texts.{Text, text_eq, text_eq_iff, text_eq_refl}
use markdown_linkerator.Base.Maps.{Map, lookup, insert, lookup-insert, AllValues}

module _ {ℓ} {V : Type ℓ} where
  abbrev pub IsUnique : Map V → Type ℓ
  IsUnique [] = Unit
  IsUnique ((k, v) ∷ m) = (lookup k m ≡ none) × IsUnique m

  pub insert-IsUnique : (k : Text) (v : V) (m : Map V) → IsUnique m → IsUnique (insert k v m)
  unfolding insert lookup
  insert-IsUnique k v [] u = (refl, tt)
  insert-IsUnique k v ((j, w) ∷ m) u = elim (Bool-cases (text_eq j k)) [
    | inl e ↦ let same = (text_eq_iff j k).0 e in rw e (rw (← same) u.0, u.1)
    | inr e ↦ rw e (
      ground (arith, lookup-insert k j v m, text_eq_iff k j, text_eq_iff j k, u.0),
      insert-IsUnique k v m u.1,
    )
  ]

  pub AllValues_of_lookup {κ} :
      (P : V → Type κ) (m : Map V)
      → IsUnique m
      → ((k : Text) (v : V) → lookup k m ≡ some v → P v)
      → AllValues P m
  unfolding lookup
  AllValues_of_lookup P [] u h = tt
  AllValues_of_lookup P ((j, w) ∷ m) u h = (
    h j w (rw (text_eq_refl j)),
    AllValues_of_lookup P m u.1 (λ k v e. elim (Bool-cases (text_eq j k)) [
      | inl s ↦ let same = (text_eq_iff j k).0 s in absurd (ground (arith, u.0))
      | inr s ↦ h k v (rw s e)
    ]),
  )
