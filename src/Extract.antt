-- ===== src/Extract.antt =====
-- internal/extract: from the text of a Markdown file to its links and its anchors. goldmark, the HTML
-- tokenizer and the regular expressions are parameters.
pub mod InlineCode
pub mod Slug
pub mod Anchors
pub mod Targets
