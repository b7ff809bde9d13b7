-- ===== src/Base/Split.antt =====
-- Searching, cutting and replacing in texts, as Go's package strings does it.
use Prim.Native.Nat.{ℕ, zero, suc, ◌-◌}
use mathlib.Core.Path.{◌≡◌, refl}
use mathlib.Core.Logic.{inl, inr}
use mathlib.Core.Bool.{Bool, true, false, ◌||◌}
use mathlib.Core.List.{List, [], ◌∷◌, ◌++◌}
use mathlib.Core.Option.{Option, none, some}
use native.Mathlib.Omega.{arith}
use markdown_linkerator.Base.Tests.{◌==◌, if◌then◌else◌, Bool-cases}
use markdown_linkerator.Base.Lists.{length}
use markdown_linkerator.Base.Texts.{Text, text_eq, has_prefix}

unfoldable pub mem_text : Text → List Text → Bool
mem_text a [] = false
mem_text a (b ∷ bs) = text_eq a b || mem_text a bs

-- `strings.Split` by one character: never empty.
unfoldable pub split_rest : ℕ → Text → Text × List Text
split_rest sep [] = ([], [])
split_rest sep (c ∷ s) =
    let rest = split_rest sep s in if c == sep then ([], rest.0 ∷ rest.1) else (c ∷ rest.0, rest.1)

abbrev pub split : ℕ → Text → List Text
split sep s = let r = split_rest sep s in r.0 ∷ r.1

-- What stands before the first `sep`.
unfoldable pub before_char : ℕ → Text → Text
before_char sep [] = []
before_char sep (c ∷ s) = let rest = before_char sep s in if c == sep then [] else c ∷ rest

-- What stands after the last `sep`.
unfoldable pub after_last : ℕ → Text → Option Text
after_last sep [] = none
after_last sep (c ∷ s) = elim (after_last sep s) [
  | some d ↦ some d
  | none ↦ if c == sep then some s else none
]

-- The pieces of a split, put together again with the separator between them.
unfoldable pub join_rest : ℕ → Text → List Text → Text
join_rest sep p [] = p
join_rest sep p (q ∷ qs) = p ++ (sep ∷ join_rest sep q qs)

join_rest_cons :
    (sep c : ℕ) (p : Text) (qs : List Text) → join_rest sep (c ∷ p) qs ≡ c ∷ join_rest sep p qs
unfolding join_rest
join_rest_cons sep c p [] = refl
join_rest_cons sep c p (q ∷ qs) = refl

-- Splitting loses nothing, and no piece holds the separator.
pub split_rest-join :
    (sep : ℕ) (s : Text) → join_rest sep (split_rest sep s).0 (split_rest sep s).1 ≡ s
unfolding split_rest join_rest
split_rest-join sep [] = refl
split_rest-join sep (c ∷ s) = elim (Bool-cases (c == sep)) [
  | inl e ↦ ground (arith, split_rest-join sep s)
  | inr e ↦
      ground (
        arith,
        split_rest-join sep s,
        join_rest_cons sep c (split_rest sep s).0 (split_rest sep s).1,
      )
]

-- `strings.ReplaceAll(s, old, with)` for an `old` that is not empty; `k` characters are left of the
-- occurrence that was just replaced.
unfoldable pub replace_from : Text → Text → ℕ → Text → Text
replace_from old with k [] = []
replace_from old with (suc k) (c ∷ s) = replace_from old with k s
replace_from old with zero (c ∷ s) = elim (has_prefix (c ∷ s) old) [
  | true ↦ with ++ replace_from old with (length old - 1) s
  | false ↦ c ∷ replace_from old with 0 s
]

abbrev pub replace_all : Text → Text → Text → Text
replace_all old with s = replace_from old with 0 s

unfoldable pub has_char : ℕ → Text → Bool
has_char x [] = false
has_char x (c ∷ s) = c == x || has_char x s

-- `strings.IndexByte`, where `none` stands for -1.
unfoldable pub index_char : ℕ → Text → Option ℕ
index_char x [] = none
index_char x (c ∷ s) =
    let rest = index_char x s in
    if c == x then some zero else elim rest [ none ↦ none | some i ↦ some (suc i) ]
