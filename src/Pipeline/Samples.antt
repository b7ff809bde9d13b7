-- ===== src/Pipeline/Samples.antt =====
-- A parser that finds no links, two files of which one cannot be read, and a page with the job for it.
use markdown_linkerator.Base.{
  ℕ, Bool, true, false, Option, none, List, [], ◌∷◌, if◌then◌else◌, Text, text, text_eq, ℤ, pos,
}
use markdown_linkerator.Model.{Target}
use markdown_linkerator.Model.Key.{Url}
use markdown_linkerator.Extract.Targets.{Paths}
use markdown_linkerator.Extract.Targets.Walk.{Node, Token, Parsers}
use markdown_linkerator.Pipeline.Crawl.{SrcItem, file_item}
use markdown_linkerator.Pipeline.Source.{Read, contents, unread}
use markdown_linkerator.Model.{CheckJob}
use markdown_linkerator.Checker.Http.{Client, responded}
use markdown_linkerator.Samples.{sample_config}
use markdown_linkerator.Pipeline.Source.{url_target}
use markdown_linkerator.Pipeline.Flow.{Work}
use markdown_linkerator.Pipeline.Flow.Program.{pipeline_work}

abbrev pub no_text : Text → Option Text
no_text t = none

abbrev pub no_list : Text → Option (List Text)
no_list t = none

abbrev pub same : Text → Text
same t = t

abbrev pub no_match : ℕ → Text → Bool
no_match re t = false

abbrev pub soon : Target → Bool × ℤ
soon t = (true, pos 1)

abbrev pub no_url : Text → Option Url
no_url t = none

abbrev pub paths : Paths
paths = record {
  parse_url = no_url;
  path_unescape = no_text;
  is_abs = λ t. false;
  clean = same;
  join = λ dir t. t;
  abs = no_text;
}

abbrev pub no_nodes : Text → List Node
no_nodes t = []

abbrev pub no_tokens : Text → List Token
no_tokens t = []

abbrev pub parsers : Parsers ℕ
parsers = record {
  parse_markdown = no_nodes;
  tokenize = no_tokens;
  replace = λ re src with. src;
  dir = same;
  cwd = none;
  strip_disable_block = same;
  strip_disable_to_eof = same;
  strip_disable_next_line = same;
  strip_disable_line = same;
}

abbrev pub no_anchors : Text → List Text
no_anchors t = []

unfoldable pub reads : SrcItem → Read
unfolding text_eq
reads src = if text_eq src.path (text "a.md") then unread (text "denied") else contents []

abbrev pub sources : List SrcItem
sources = file_item (text "a.md") ∷ file_item (text "b.md") ∷ []

abbrev pub host_of : Text → Text
host_of t = text "a.org"

abbrev pub url_host : Text → Text
url_host t = text "a.org:443"

abbrev pub work : Work
work =
    pipeline_work sample_config no_match no_text no_text no_list no_list no_text same host_of
      url_host same false paths parsers no_anchors reads

abbrev pub site : Text
site = text "https://a.org/"

abbrev pub page : SrcItem
page = record { path = site; url = site; stdin = false }

abbrev pub job : CheckJob
job = record { key = site; host = text "a.org"; sample = url_target page }

abbrev pub answers : Client
answers method st = record { outcome = responded 200; ctx_err = none; state = st }
