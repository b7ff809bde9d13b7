-- ===== src/Pipeline/Source/Examples.antt =====
-- Two sources, of which one cannot be read and one has no links.
use markdown_linkerator.Base.{ℕ, ◌+◌, ◌≡◌, refl, false, some, [], ◌∷◌, count, text, pos}
use markdown_linkerator.Samples.{sample_config, whole_rates}
use markdown_linkerator.RateLimit.{HostState}
use markdown_linkerator.Report.Gauge.{no_gauges}
use markdown_linkerator.Extract.Targets.Walk.{parse_file, extract_targets, walk_calls, add_all}
use markdown_linkerator.Pipeline.Handle.{Run, add_results}
use markdown_linkerator.Pipeline.Source.{
  Parsed, fatal_result, handle_all, parse_source, parse_sources,
}
use markdown_linkerator.Pipeline.Samples.{
  no_text, no_list, same, no_match, soon, paths, parsers, no_anchors, reads, sources,
}
use markdown_linkerator.Pipeline.Source.Errors.{is_unread, parse_sources-errors}

abbrev before : Run (HostState ℕ ℕ)
before = record {
  dedup = record {
    seen = [];
    cache = record { entries = []; path = []; ttl = pos 9; enabled = false; fingerprint = [] };
  };
  results = [];
  gauges = no_gauges;
  hosts = [];
  anchor_cache = [];
  jobs = [];
}

abbrev after : Parsed (HostState ℕ ℕ)
after = (record before { results = fatal_result (text "a.md") (text "denied") ∷ [] }, 1)

sources_are_parsed :
    parse_sources whole_rates sample_config same no_match no_text no_text no_list no_list no_text
      same same soon paths parsers no_anchors reads
      (before, 0)
      sources
    ≡ some after
unfolding parse_sources parse_source reads handle_all parse_file extract_targets walk_calls add_all
    add_results
sources_are_parsed = refl

parse_sources-errors_example :
    (last : Parsed (HostState ℕ ℕ)) × (parse_sources whole_rates sample_config same no_match no_text
        no_text no_list no_list no_text same same soon paths parsers no_anchors reads
        (before, 0)
        sources
      ≡ some last)
    × (last.1 ≡ 0 + count (is_unread reads) sources)
parse_sources-errors_example =
    parse_sources-errors whole_rates sample_config same no_match no_text no_text no_list no_list
      no_text same same soon paths parsers no_anchors reads (before, 0) sources
