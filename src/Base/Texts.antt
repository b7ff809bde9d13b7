-- ===== src/Base/Texts.antt =====
-- Text as a list of numbers: the bytes of a Go string, or its runes where the code walks runes.
use Prim.Native.Nat.{ℕ, ◌+◌}
use Prim.Native.Char.{code}
use Prim.Native.String.{String}
use mathlib.Core.Path.{◌≡◌, refl}
use mathlib.Core.Logic.{◌↔◌, inl, inr}
use mathlib.Core.Bool.{Bool, true, false, ◌&&◌, ◌||◌}
use mathlib.Core.List.{List, [], ◌∷◌, ◌++◌}
use mathlib.Core.Option.{Option, none, some}
use native.Mathlib.Omega.{arith}
use markdown_linkerator.Base.Tests.{◌==◌, ltb, leb, if◌then◌else◌, Bool-cases, Option-cases}
use markdown_linkerator.Base.Lists.{length}

abbrev pub Text : Type 0
Text = List ℕ

-- The codes of a literal: its bytes, where it is ASCII.
abbrev pub text : String → Text
text String.[] = []
text (String.◌∷◌ c s) = code c ∷ text s

unfoldable pub text_eq : Text → Text → Bool
text_eq [] [] = true
text_eq (x ∷ xs) (y ∷ ys) = x == y && text_eq xs ys
text_eq _ _ = false

pub text_eq_iff : (a b : Text) → (text_eq a b ≡ true) ↔ (a ≡ b)
unfolding text_eq
text_eq_iff (x ∷ a) (y ∷ b) = ground (arith, text_eq_iff a b)
text_eq_iff _ _ = ground arith

pub text_eq_refl : (a : Text) → text_eq a a ≡ true
text_eq_refl a = (text_eq_iff a a).1 refl

-- Go's `<` on strings: the order of bytes, from the left.
unfoldable pub text_lt : Text → Text → Bool
text_lt a [] = false
text_lt [] (y ∷ ys) = true
text_lt (x ∷ xs) (y ∷ ys) = ltb x y || (x == y && text_lt xs ys)

pub text_lt_irrefl : (a : Text) → text_lt a a ≡ false
unfolding text_lt
text_lt_irrefl [] = refl
text_lt_irrefl (x ∷ a) = ground (arith, text_lt_irrefl a)

pub text_lt_trans : (a b c : Text) → text_lt a b ≡ true → text_lt b c ≡ true → text_lt a c ≡ true
unfolding text_lt
text_lt_trans [] (y ∷ b) (z ∷ c) h k = refl
text_lt_trans (x ∷ a) (y ∷ b) (z ∷ c) h k = ground (arith, text_lt_trans a b c)
text_lt_trans a b [] h k = ground arith
text_lt_trans a [] (z ∷ c) h k = ground arith

pub text_lt_total : (a b : Text) → text_lt a b ≡ false → text_lt b a ≡ false → a ≡ b
unfolding text_lt
text_lt_total [] [] h k = refl
text_lt_total [] (y ∷ b) h k = ground arith
text_lt_total (x ∷ a) [] h k = ground arith
text_lt_total (x ∷ a) (y ∷ b) h k = ground (arith, text_lt_total a b)

-- strings.HasPrefix
unfoldable pub has_prefix : Text → Text → Bool
has_prefix s [] = true
has_prefix [] (p ∷ ps) = false
has_prefix (c ∷ s) (p ∷ ps) = c == p && has_prefix s ps

-- strings.HasPrefix is exactly "the text is the prefix and something behind it".
pub has_prefix_split : (s p : Text) → has_prefix s p ≡ true → (r : Text) × (s ≡ p ++ r)
unfolding has_prefix
has_prefix_split s [] h = (s, refl)
has_prefix_split [] (p ∷ ps) h = absurd (ground arith)
has_prefix_split (c ∷ s) (p ∷ ps) h =
    let (r, e) = has_prefix_split s ps (ground arith) in (r, ground arith)

pub has_prefix-append : (p r : Text) → has_prefix (p ++ r) p ≡ true
unfolding has_prefix
has_prefix-append [] r = refl
has_prefix-append (c ∷ p) r = ground (arith, has_prefix-append p r)

-- strings.TrimSuffix: what stands before the suffix, if the text ends with it.
unfoldable pub before_suffix : Text → Text → Option Text
unfolding text_eq
before_suffix [] suffix = if text_eq [] suffix then some [] else none
before_suffix (c ∷ s) suffix =
    if text_eq (c ∷ s) suffix
    then some []
    else elim (before_suffix s suffix) [ none ↦ none | some r ↦ some (c ∷ r) ]

abbrev pub has_suffix : Text → Text → Bool
has_suffix s suffix = elim (before_suffix s suffix) [ none ↦ false | some _ ↦ true ]

abbrev pub trim_suffix : Text → Text → Text
trim_suffix s suffix = elim (before_suffix s suffix) [ none ↦ s | some r ↦ r ]

pub before_suffix-append : (s suffix r : Text) → before_suffix s suffix ≡ some r → s ≡ r ++ suffix
unfolding before_suffix
before_suffix-append [] suffix r h = ground (arith, text_eq_iff [] suffix)
before_suffix-append (c ∷ s) suffix r h =
    let step = λ (q : Text). before_suffix-append s suffix q in
    elim (Bool-cases (text_eq (c ∷ s) suffix)) [
      | inl e ↦ ground (arith, text_eq_iff (c ∷ s) suffix)
      | inr e ↦ elim (Option-cases (before_suffix s suffix)) [
        | inl n ↦ ground arith
        | inr (q, p) ↦ ground (arith, step q p)
      ]
    ]

-- The ASCII part of strings.ToLower.
unfoldable pub lower_code : ℕ → ℕ
lower_code c = if leb b'A' c && leb c b'Z' then c + 32 else c

unfoldable pub to_lower : Text → Text
unfolding lower_code
to_lower [] = []
to_lower (c ∷ s) = lower_code c ∷ to_lower s

pub to_lower_idem : (s : Text) → to_lower (to_lower s) ≡ to_lower s
unfolding to_lower
to_lower_idem [] = refl
to_lower_idem (c ∷ s) = ground (arith, to_lower_idem s)

pub length-to_lower : (s : Text) → length (to_lower s) ≡ length s
unfolding to_lower
length-to_lower [] = refl
length-to_lower (c ∷ s) = omega (arith, length-to_lower s)

-- strings.EqualFold, over ASCII.
unfoldable pub equal_fold : Text → Text → Bool
unfolding to_lower text_eq
equal_fold a b = text_eq (to_lower a) (to_lower b)

pub text_lt_asymm : (a b : Text) → text_lt a b ≡ true → text_lt b a ≡ false
unfolding text_lt
text_lt_asymm [] (y ∷ b) h = refl
text_lt_asymm (x ∷ a) (y ∷ b) h = ground (arith, text_lt_asymm a b)
text_lt_asymm a [] h = ground arith

pub text_lt_not_trans :
    (a b c : Text) → text_lt b a ≡ false → text_lt c b ≡ false → text_lt c a ≡ false
unfolding text_lt
text_lt_not_trans [] b c h k = refl
text_lt_not_trans (x ∷ a) [] c h k = absurd (ground arith)
text_lt_not_trans (x ∷ a) (y ∷ b) [] h k = absurd (ground arith)
text_lt_not_trans (x ∷ a) (y ∷ b) (z ∷ c) h k = ground (arith, text_lt_not_trans a b c)
