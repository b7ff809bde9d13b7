-- ===== src/Extract/Anchors.antt =====
-- internal/extract/anchors.go: `Anchors`, with the regular expressions as parameters.
pub mod Newlines
use markdown_linkerator.Base.{
  ℕ, Bool, Option, List, [], ◌∷◌, ◌++◌, if◌then◌else◌, Text, text, has_char, replace_all,
}
use markdown_linkerator.Extract.Slug.{Runes, LinkSpan, heading_slugs}
use markdown_linkerator.Extract.InlineCode.{remove_inline_code}

-- The compiled patterns, by what the code does with each: `strip` methods replace every match by
-- nothing, `find` methods list the matches or the first groups of the matches.
pub record AnchorPatterns : Type 0 where
  strip_code_blocks : Text → Text
  strip_comments : Text → Text
  find_headings : Text → List Text
  find_all_ids : Text → List Text
  find_names : Text → List Text
  find_link : Text → Option LinkSpan

unfoldable pub normalize_newlines : Text → Text
unfolding has_char
normalize_newlines s =
    if has_char 13 s
    then replace_all (13 ∷ []) (10 ∷ []) (replace_all (13 ∷ 10 ∷ []) (10 ∷ []) s)
    else s

module _ (patterns : AnchorPatterns) where
  unfoldable pub html_ids : Text → List Text
  unfolding remove_inline_code
  html_ids source =
      let md = remove_inline_code (patterns.strip_comments (patterns.strip_code_blocks source)) in
      patterns.find_all_ids md ++ patterns.find_names md

  -- The keys of the set that `Anchors` returns.
  unfoldable pub anchors : Runes → (ℕ → Text) → Text → List Text
  unfolding normalize_newlines heading_slugs html_ids
  anchors runes itoa source =
      let md = normalize_newlines source in
      heading_slugs runes (patterns.find_link) itoa
        (patterns.find_headings (patterns.strip_code_blocks md))
      ++ html_ids md
