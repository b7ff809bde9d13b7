-- ===== src/Extract/InlineCode/Examples.antt =====
-- The theorems on inline code, applied to a text with one code span.
use markdown_linkerator.Base.{◌≡◌, ◌↔◌, false, some, Text, text, arith}
use markdown_linkerator.Extract.InlineCode.{remove_from, remove_inline_code}
use markdown_linkerator.Extract.InlineCode.Spans.{
  has_span, Stripped, remove_from_total, remove_inline_code_complete,
}

abbrev one_span : Text
one_span = text "a `b` c"

remove_from_total_example : (r : Text) × (remove_from 7 0 one_span ≡ some r)
remove_from_total_example = remove_from_total 7 0 one_span (omega arith)

remove_inline_code_complete_example :
    (has_span 0 (remove_inline_code one_span) ≡ false)
    × ((has_span 0 one_span ≡ false) ↔ (remove_inline_code one_span ≡ one_span))
    × Stripped 0 one_span (remove_inline_code one_span)
remove_inline_code_complete_example = remove_inline_code_complete one_span
