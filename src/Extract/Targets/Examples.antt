-- ===== src/Extract/Targets/Examples.antt =====
-- A document with one link twice and an image, over paths that are joined by a slash.
use markdown_linkerator.Base.{
  ℕ, false, Option, none, some, List, [], ◌∷◌, ◌++◌, if◌then◌else◌, Text, text, has_prefix, pos,
}
use markdown_linkerator.Model.Key.{Url}
use markdown_linkerator.Extract.Targets.{Paths, classify}
use markdown_linkerator.Extract.Targets.Walk.{Node, link, image, Token, Parsers}
use markdown_linkerator.Extract.Targets.Kinds.{HasKind, classify_kind}

abbrev secure_url : Text → Url
secure_url t = record {
  scheme = text "https";
  opaque = [];
  user = [];
  host = [];
  path = t;
  raw_path = [];
  omit_host = false;
  force_query = false;
  raw_query = [];
  fragment = [];
  raw_fragment = [];
}

-- Only https links parse.
unfoldable parse_secure : Text → Option Url
unfolding has_prefix
parse_secure t = if has_prefix t (text "https:") then some (secure_url t) else none

abbrev slashed : Paths
slashed = record {
  parse_url = parse_secure;
  path_unescape = λ t. some t;
  is_abs = λ t. has_prefix t (text "/");
  clean = λ t. t;
  join = λ dir t. dir ++ (b'/' ∷ t);
  abs = λ t. some t;
}

abbrev nodes : List Node
nodes =
    link (text "https://a.org/") (pos 4)
    ∷ image (text "b.png") (pos 9)
    ∷ link (text "https://a.org/") (pos 20)
    ∷ []

abbrev no_tokens : Text → List Token
no_tokens t = []

abbrev parsers : Parsers ℕ
parsers = record {
  parse_markdown = λ src. nodes;
  tokenize = no_tokens;
  replace = λ re src with. src;
  dir = λ path. text "/docs";
  cwd = none;
  strip_disable_block = λ t. t;
  strip_disable_to_eof = λ t. t;
  strip_disable_next_line = λ t. t;
  strip_disable_line = λ t. t;
}

abbrev source : Text
source = text "see\nthis\nand that"

classify_kind_example :
    HasKind slashed (text "https://a.org/") (text "https://a.org/") (text "a.md") 3 (
      classify slashed
        (text "https://a.org/")
        (text "https://a.org/")
        (text "a.md")
        (text "/docs")
        3)
classify_kind_example =
    classify_kind slashed (text "https://a.org/") (text "https://a.org/") (text "a.md")
      (text "/docs") 3

abbrev guide : Text
guide = text "guide.md"
