-- ===== src/Pipeline/Source.antt =====
-- internal/pipeline/pipeline.go: `parseSource` and `fatalResult`. Reading a file or the standard input is a
-- parameter. The parse workers are taken one source after another.
pub mod Errors
mod Examples
use markdown_linkerator.Base.{
  ℕ, ◌+◌, Bool, true, false, Option, none, some, List, [], ◌∷◌, ◌++◌, if◌then◌else◌, Text, text, ℤ,
}
use markdown_linkerator.Model.{Target, Result, State, CheckJob, http, zero_result}
use markdown_linkerator.Model.Key.{is_empty}
use markdown_linkerator.Config.Resolve.{Resolved}
use markdown_linkerator.RateLimit.{Rates, HostState}
use markdown_linkerator.Extract.Targets.{Paths}
use markdown_linkerator.Extract.Targets.Walk.{Parsers, FileLinks, parse_file}
use markdown_linkerator.Pipeline.Crawl.{SrcItem}
use markdown_linkerator.Pipeline.Dedup.{zero_target}
use markdown_linkerator.Pipeline.Handle.{Run, add_results, handle_target}

-- A source's contents, or the message of the error.
pub data Read : Type 0 where
  contents : Text → Read
  unread : Text → Read

unfoldable pub fatal_result : Text → Text → Result
fatal_result path err =
    record (zero_result (record zero_target { url = path; source_file = path })) {
      state = State.error;
      detail = err;
    }

abbrev pub url_target : SrcItem → Target
url_target src = record {
  raw = src.url;
  url = src.url;
  kind = http;
  source_file = src.path;
  line = 1;
  fragment = [];
}

-- The run, and how many sources could not be read.
abbrev pub Parsed : Type 0 → Type 0
Parsed H = Run H × ℕ

-- `moment` says of a target whether the channel takes its job, and when it is handled.
module _ (m : Rates) {R : Type 0} (cfg : Resolved m.F R) (host_of : Text → Text)
    (matches : R → Text → Bool) (stat unescape : Text → Option Text)
    (read_anchors lookup_mx : Text → Option (List Text)) (parse_address : Text → Option Text)
    (quote normalize_key : Text → Text) (moment : Target → Bool × ℤ) where
  open m use {F, Limiter}

  unfoldable pub handle_one :
      List Text → Run (HostState F Limiter) → Target → Option (Run (HostState F Limiter))
  unfolding handle_target
  handle_one anchors run t =
      handle_target m cfg host_of matches stat unescape read_anchors lookup_mx parse_address quote
        normalize_key (moment t).0 anchors (moment t).1 run t

  unfoldable pub handle_all :
      List Text → Run (HostState F Limiter) → List Target → Option (Run (HostState F Limiter))
  unfolding handle_one
  handle_all anchors run [] = some run
  handle_all anchors run (t ∷ ts) = elim (handle_one anchors run t) [
    | none ↦ none
    | some next ↦ handle_all anchors next ts
  ]

  module _ (paths : Paths) (ps : Parsers R) (anchors_of : Text → List Text)
      (read : SrcItem → Read) where
    unfoldable pub parse_source :
        Parsed (HostState F Limiter) → SrcItem → Option (Parsed (HostState F Limiter))
    unfolding handle_all parse_file fatal_result
    parse_source st src =
        if is_empty src.url
        then elim (read src) [
          | unread err ↦ some (add_results st.0 (fatal_result src.path err ∷ []), st.1 + 1)
          | contents data_read ↦
              let fl = parse_file paths ps anchors_of src.path data_read cfg in
              elim (handle_all fl.link_anchors st.0 fl.link_targets) [
                | none ↦ none
                | some run ↦ some (run, st.1)
              ]
        ]
        else elim (handle_one [] st.0 (url_target src)) [
          | none ↦ none
          | some run ↦ some (run, st.1)
        ]

    unfoldable pub parse_sources :
        Parsed (HostState F Limiter) → List SrcItem → Option (Parsed (HostState F Limiter))
    unfolding parse_source
    parse_sources st [] = some st
    parse_sources st (src ∷ srcs) = elim (parse_source st src) [
      | none ↦ none
      | some next ↦ parse_sources next srcs
    ]
