-- ===== src/Extract/Targets/Walk.antt =====
-- internal/extract/extract.go: `ParseFile`, `stripDisableDirectives`, `extractTargets`, `htmlBlockSpan` and
-- `scanHTML`. goldmark gives the nodes in the order of its walk, the HTML tokenizer its tokens.
use markdown_linkerator.Base.{
  ℕ, ◌+◌, ◌-◌, ◌||◌, Bool, true, false, Option, none, some, List, [], ◌∷◌, ◌++◌, if◌then◌else◌,
  take, drop, Text, text, text_eq, mem_text, Map, lookup, ℤ, pos, negsuc, ltb_ℤ, leb_ℤ,
}
use markdown_linkerator.Model.{Target}
use markdown_linkerator.Model.Key.{is_empty}
use markdown_linkerator.Config.Resolve.{Resolved}
use markdown_linkerator.Extract.Targets.{Paths, transform, classify, line_at, project_base_url}

pub record Segment : Type 0 where
  pub start : ℤ
  pub stop : ℤ

-- The nodes that the walk looks at, with the position of each.
pub data Node : Type 0 where
  link image : Text → ℤ → Node
  auto_link : Text → Bool → ℤ → Node
  raw_html : List Segment → Node
  html_block : List Segment → Option Segment → Node
  other_node : Node

pub data TokenKind : Type 0 where
  start_tag self_closing_tag other_token : TokenKind

-- A token with the length of its raw text and the attributes in their order.
pub record Token : Type 0 where
  pub token_kind : TokenKind
  pub raw_length : ℕ
  pub name : Text
  pub attributes : Map Text

-- The last segment's end.
unfoldable pub last_stop : Segment → List Segment → ℤ
last_stop s [] = s.stop
last_stop s (t ∷ ts) = last_stop t ts

-- The span that the lines of a block cover.
abbrev lines_span : List Segment → ℤ × ℤ
lines_span [] = (negsuc 0, negsuc 0)
lines_span (s ∷ ss) = (s.start, last_stop s ss)

abbrev with_closure : ℤ × ℤ → Option Segment → ℤ × ℤ
with_closure span none = span
with_closure span (some cl) = (
  if ltb_ℤ span.0 (pos 0) || ltb_ℤ cl.start span.0 then cl.start else span.0,
  if ltb_ℤ span.1 cl.stop then cl.stop else span.1,
)

unfoldable pub html_block_span : List Segment → Option Segment → ℤ × ℤ
unfolding last_stop
html_block_span lines closure =
    let span = with_closure (lines_span lines) closure in
    if ltb_ℤ span.0 (pos 0) || leb_ℤ span.1 span.0 then (negsuc 0, negsuc 0) else span

abbrev wanted : Text → Option Text
wanted name =
    if text_eq name (text "a")
    then some (text "href")
    else if text_eq name (text "img")
    then some (text "src")
    else none

-- The attribute that a tag is read for.
unfoldable pub tag_dest : Token → Option Text
unfolding text_eq lookup
tag_dest token = elim (wanted token.name) [ none ↦ none | some want ↦ lookup want token.attributes ]

abbrev is_tag : TokenKind → Bool
is_tag start_tag = true
is_tag self_closing_tag = true
is_tag other_token = false

-- The calls of `add`, in their order: the destination and the offset of the tag.
unfoldable pub scan_tokens : ℕ → List Token → List (Text × ℤ)
unfolding tag_dest
scan_tokens token_start [] = []
scan_tokens token_start (token ∷ tokens) =
    let rest = scan_tokens (token_start + token.raw_length) tokens in
    elim (tag_dest token) [
      | none ↦ rest
      | some dest ↦ if is_tag token.token_kind then (dest, pos token_start) ∷ rest else rest
    ]

module _ (tokenize : Text → List Token) where
  unfoldable pub scan_html : Text → ℕ → ℕ → List (Text × ℤ)
  unfolding scan_tokens take drop
  scan_html src start stop = scan_tokens start (tokenize (take (stop - start) (drop start src)))

  unfoldable pub scan_span : Text → ℤ × ℤ → List (Text × ℤ)
  unfolding scan_html
  scan_span src (pos start, pos stop) = scan_html src start stop
  scan_span src _ = []

  -- The calls of `add` at one node.
  unfoldable pub node_calls : Text → Node → List (Text × ℤ)
  unfolding scan_span html_block_span last_stop
  node_calls src (link dest at) = (dest, at) ∷ []
  node_calls src (image dest at) = (dest, at) ∷ []
  node_calls src (auto_link dest email at) =
      (if email then text "mailto:" ++ dest else dest, at) ∷ []
  node_calls src (raw_html []) = []
  node_calls src (raw_html (s ∷ ss)) = scan_span src (s.start, last_stop s ss)
  node_calls src (html_block lines closure) = scan_span src (html_block_span lines closure)
  node_calls src other_node = []

  unfoldable pub walk_calls : Text → List Node → List (Text × ℤ)
  unfolding node_calls
  walk_calls src [] = []
  walk_calls src (n ∷ ns) = node_calls src n ++ walk_calls src ns

-- What the closure `add` keeps.
pub record Found : Type 0 where
  pub seen : List Text
  pub targets : List Target

unfoldable pub add : (Text → ℤ → Target) → Found → Text × ℤ → Found
unfolding mem_text
add target_of st (dest, off) =
    if is_empty dest || mem_text dest st.seen
    then st
    else record { seen = dest ∷ st.seen; targets = st.targets ++ (target_of dest off ∷ []) }

unfoldable pub add_all : (Text → ℤ → Target) → Found → List (Text × ℤ) → Found
unfolding add
add_all target_of st [] = st
add_all target_of st (c ∷ cs) = add_all target_of (add target_of st c) cs

-- goldmark, the tokenizer, and the regular expressions of the disable comments.
pub record Parsers (R : Type 0) : Type 0 where
  pub parse_markdown : Text → List Node
  pub tokenize : Text → List Token
  pub replace : R → Text → Text → Text
  pub dir : Text → Text
  pub cwd : Option Text
  pub strip_disable_block : Text → Text
  pub strip_disable_to_eof : Text → Text
  pub strip_disable_next_line : Text → Text
  pub strip_disable_line : Text → Text

pub record FileLinks : Type 0 where
  pub link_targets : List Target
  pub link_anchors : List Text

unfoldable pub strip_disable_directives : {R : Type 0} → Parsers R → Text → Text
strip_disable_directives ps src =
    ps.strip_disable_line
      (ps.strip_disable_next_line (ps.strip_disable_to_eof (ps.strip_disable_block src)))

module _ {F R : Type 0} (paths : Paths) (ps : Parsers R) where
  -- The target of a destination that is met for the first time.
  unfoldable pub target_at : Text → Text → Resolved F R → Text → ℤ → Target
  unfolding transform classify line_at project_base_url
  target_at path src cfg dest off =
      let base_url = project_base_url cfg.project_base_url ps.cwd in
      classify paths dest (transform ps.replace cfg.replacement_patterns base_url dest) path
        (ps.dir path) (line_at src off)

  unfoldable pub extract_targets : Text → Text → Resolved F R → List Target
  unfolding add_all walk_calls target_at
  extract_targets path src cfg =
      let calls = walk_calls ps.tokenize src (ps.parse_markdown src) in
      (add_all (target_at path src cfg) (record { seen = []; targets = [] }) calls).targets

  -- `anchors_of` is `Anchors`.
  unfoldable pub parse_file : (Text → List Text) → Text → Text → Resolved F R → FileLinks
  unfolding extract_targets strip_disable_directives
  parse_file anchors_of path src cfg =
      let cleaned = if cfg.ignore_disable then src else strip_disable_directives ps src in
      record { link_targets = extract_targets path cleaned cfg; link_anchors = anchors_of cleaned }
