-- ===== src/Extract/Targets/Firsts.antt =====
-- internal/extract/extract.go: which destinations of a file become targets.
use markdown_linkerator.Base.{
  ◌≡◌, true, List, [], ◌∷◌, arith, if◌then◌else◌, Text, text_eq, text_eq_refl, mem_text, ℤ,
}
use markdown_linkerator.Model.{Target}
use markdown_linkerator.Model.Key.{is_empty}

abbrev Call : Type 0
Call = Text × ℤ

unfoldable pub others : Text → List Call → List Call
others d [] = []
others d (c ∷ cs) = if text_eq d c.0 then others d cs else c ∷ others d cs

-- Each destination that is not empty, once, at the place where it comes first.
unfoldable pub firsts : List Call → List Call
unfolding others
firsts [] = []
firsts (c ∷ cs) = if is_empty c.0 then firsts cs else c ∷ others c.0 (firsts cs)

unseen : List Text → List Call → List Call
unseen seen [] = []
unseen seen (c ∷ cs) = if mem_text c.0 seen then unseen seen cs else c ∷ unseen seen cs

mem_text_cons : (d : Text) (seen : List Text) → mem_text d (d ∷ seen) ≡ true
unfolding mem_text
mem_text_cons d seen = ground (arith, text_eq_refl d)

module _ (target_of : Text → ℤ → Target) where
  unfoldable pub targets_of : List Call → List Target
  targets_of [] = []
  targets_of (c ∷ cs) = target_of c.0 c.1 ∷ targets_of cs
