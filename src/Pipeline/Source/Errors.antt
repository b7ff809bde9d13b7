-- ===== src/Pipeline/Source/Errors.antt =====
-- internal/pipeline/pipeline.go: the sources that could not be read.
use markdown_linkerator.Base.{
  ◌+◌, ◌≡◌, refl, none, Bool, true, false, ◌&&◌, Option, some, List, [], ◌∷◌, arith, if◌then◌else◌,
  count, inl, inr, Text, ℤ, Option-cases,
}
use markdown_linkerator.Model.{Target}
use markdown_linkerator.Model.Key.{is_empty}
use markdown_linkerator.Config.Resolve.{Resolved}
use markdown_linkerator.RateLimit.{Rates, HostState}
use markdown_linkerator.Extract.Targets.{Paths}
use markdown_linkerator.Extract.Targets.Walk.{Parsers, parse_file}
use markdown_linkerator.Pipeline.Crawl.{SrcItem}
use markdown_linkerator.Pipeline.Dedup.{Dedup, add_begin, add_finish}
use markdown_linkerator.Pipeline.Handle.{Run, add, handle_http, handle_target}
use markdown_linkerator.Pipeline.Source.{
  Read, contents, unread, Parsed, url_target, handle_one, handle_all, parse_source, parse_sources,
}

abbrev pub is_unread : (SrcItem → Read) → SrcItem → Bool
is_unread read src = is_empty src.url && elim (read src) [ unread _ ↦ true | contents _ ↦ false ]

abbrev text_of : Read → Text
text_of r = elim r [ contents data_read ↦ data_read | unread err ↦ [] ]

module _ (m : Rates) {R : Type 0} (cfg : Resolved m.F R) (host_of : Text → Text)
    (matches : R → Text → Bool) (stat unescape : Text → Option Text)
    (read_anchors lookup_mx : Text → Option (List Text)) (parse_address : Text → Option Text)
    (quote normalize_key : Text → Text) (moment : Target → Bool × ℤ) (paths : Paths)
    (ps : Parsers R) (anchors_of : Text → List Text) (read : SrcItem → Read) where
  open m use {F, Limiter}

  add-Is_some :
      (d : Dedup) (key : Text) (t : Target) (now : ℤ) → ¬ (add m cfg host_of d key t now ≡ none)
  unfolding add add_begin add_finish
  add-Is_some d key t now e = ground arith

  handle_http-Is_some :
      (sends : Bool) (key : Text) (now : ℤ) (run : Run (HostState F Limiter)) (t : Target)
      → ¬ (handle_http m cfg host_of sends key now run t ≡ none)
  unfolding handle_http
  handle_http-Is_some sends key now run t e = ground (arith, add-Is_some run.dedup key t now)

  handle_one-Is_some :
      (anchors : List Text) (run : Run (HostState F Limiter)) (t : Target)
      → ¬ (
          handle_one m cfg host_of matches stat unescape read_anchors lookup_mx parse_address quote
            normalize_key moment anchors run t
          ≡ none)
  unfolding handle_one handle_target
  handle_one-Is_some anchors run t e =
      ground (arith, handle_http-Is_some (moment t).0 (normalize_key t.url) (moment t).1 run t)

  handle_all-Is_some :
      (anchors : List Text) (run : Run (HostState F Limiter)) (ts : List Target)
      → ¬ (
          handle_all m cfg host_of matches stat unescape read_anchors lookup_mx parse_address quote
            normalize_key moment anchors run ts
          ≡ none)
  unfolding handle_all
  handle_all-Is_some anchors run [] e = ground arith
  handle_all-Is_some anchors run (t ∷ ts) e =
      elim (Option-cases (
        handle_one m cfg host_of matches stat unescape read_anchors lookup_mx parse_address quote
          normalize_key moment anchors run t)) [
            | inl n ↦ handle_one-Is_some anchors run t n
            | inr (next, h) ↦ ground (arith, handle_all-Is_some anchors next ts)
          ]

  abbrev step : Parsed (HostState F Limiter) → SrcItem → Option (Parsed (HostState F Limiter))
  step st src =
      parse_source m cfg host_of matches stat unescape read_anchors lookup_mx parse_address quote
        normalize_key moment paths ps anchors_of read st src

  -- One source leaves a run, whatever comes of it, and is an error only when it is no URL and unreadable.
  parse_source-errors :
      (st : Parsed (HostState F Limiter)) (src : SrcItem)
      → (next : Parsed (HostState F Limiter)) × (step st src ≡ some next)
        × (next.1 ≡ st.1 + (if is_unread read src then 1 else 0))
  unfolding parse_source
  parse_source-errors st src = elim (Option-cases (step st src)) [
    | inl n ↦
        let fl = parse_file paths ps anchors_of src.path (text_of (read src)) cfg in
        absurd (
          ground (
            arith,
            handle_one-Is_some [] st.0 (url_target src),
            handle_all-Is_some fl.link_anchors st.0 fl.link_targets,
          ))
    | inr (next, h) ↦ (next, h, ground arith)
  ]

  -- No source stops the run: whatever the sources are, all of them are taken, and the number of source
  -- errors grows by exactly the number of those that are no URL and cannot be read.
  pub parse_sources-errors :
      (st : Parsed (HostState F Limiter)) (srcs : List SrcItem)
      → (last : Parsed (HostState F Limiter)) × (parse_sources m cfg host_of matches stat unescape
            read_anchors lookup_mx parse_address quote normalize_key moment paths ps anchors_of read
            st srcs
          ≡ some last)
        × (last.1 ≡ st.1 + count (is_unread read) srcs)
  unfolding parse_sources
  parse_sources-errors st [] = (st, refl, ground arith)
  parse_sources-errors st (src ∷ srcs) =
      let (next, h, errors) = parse_source-errors st src in
      let (last, rest, more) = parse_sources-errors next srcs in (last, ground arith, ground arith)
