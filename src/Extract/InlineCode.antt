-- ===== src/Extract/InlineCode.antt =====
-- internal/extract/anchors.go: `removeInlineCode`. The loop's index is the rest of the text, with the
-- byte before it, which is 0 at the start; 96 is the backtick, 92 the backslash.
pub mod Delimited
pub mod Spans
mod Examples
use markdown_linkerator.Base.{
  ℕ, zero, suc, Bool, true, false, not, ◌&&◌, ◌||◌, Option, none, some, List, [], ◌∷◌, ◌==◌,
  if◌then◌else◌, or_else, length, Text,
}

abbrev pub is_delimiter : ℕ → ℕ → Bool
is_delimiter prev c = c == 96 && not (prev == 92)

-- What stands behind the first delimiter.
unfoldable pub close_span : ℕ → Text → Option Text
close_span prev [] = none
close_span prev (c ∷ s) = let rest = close_span c s in if is_delimiter prev c then some s else rest

-- The same behind an opening delimiter: the span holds one byte at least.
unfoldable pub span_end : Text → Option Text
unfolding close_span
span_end [] = none
span_end (c ∷ s) = close_span c s

-- What stands behind a span that begins with `c`.
unfoldable pub skip_span : ℕ → ℕ → Text → Option Text
unfolding span_end
skip_span prev c s = if is_delimiter prev c then span_end s else none

abbrev pub keep : ℕ → Option Text → Option Text
keep c none = none
keep c (some s) = some (c ∷ s)

-- The loop, on fuel: `none` means that the fuel ran out.
unfoldable pub remove_from : ℕ → ℕ → Text → Option Text
remove_from fuel prev [] = some []
remove_from zero prev (c ∷ s) = none
remove_from (suc fuel) prev (c ∷ s) = elim (skip_span prev c s) [
  | some rest ↦ remove_from fuel 96 rest
  | none ↦ keep c (remove_from fuel c s)
]

unfoldable pub remove_inline_code : Text → Text
unfolding remove_from skip_span
remove_inline_code s = or_else (remove_from (length s) 0 s) []
