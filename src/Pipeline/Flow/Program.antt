-- ===== src/Pipeline/Flow/Program.antt =====
-- internal/pipeline/pipeline.go: what the stages of `Run` call, from `parseSource`, `handleTarget` and `execute`.
use markdown_linkerator.Base.{
  ℕ, zero, suc, ◌<◌, ◌≡◌, Bool, not, ◌||◌, Option, none, some, List, [], ◌∷◌, arith, if◌then◌else◌,
  Text, text, Map, ℤ, pos, negsuc,
}
use markdown_linkerator.Model.{Target, Result, State, http, file_rel, hash_local, mailto}
use markdown_linkerator.Model.Key.{is_empty}
use markdown_linkerator.Config.Resolve.{Resolved}
use markdown_linkerator.RateLimit.{Rates, HostState}
use markdown_linkerator.Extract.Targets.{Paths}
use markdown_linkerator.Extract.Targets.Walk.{Parsers, parse_file}
use markdown_linkerator.Checker.Local.{is_ignored, check_hash, check_mailto, verdict}
use markdown_linkerator.Checker.Http.{check}
use markdown_linkerator.Pipeline.Crawl.{SrcItem}
use markdown_linkerator.Pipeline.Source.{Read, contents, unread, fatal_result, url_target}
use markdown_linkerator.Pipeline.Handle.{
  Run, add_results, check_file_target, handle_target, handle_http,
}
use markdown_linkerator.Pipeline.Handle.Outcomes.{
  check_hash-target, check_mailto-target, check_file_target-target,
}
use markdown_linkerator.Pipeline.Flow.{Work, Opened, refused, parsed}

-- max(1, n)
unfoldable pub at_least_one : ℤ → ℕ
at_least_one (pos zero) = 1
at_least_one (pos (suc n)) = suc n
at_least_one (negsuc n) = 1

pub at_least_one_pos : (n : ℤ) → 0 < at_least_one n
unfolding at_least_one
at_least_one_pos (pos zero) = omega arith
at_least_one_pos (pos (suc n)) = omega arith
at_least_one_pos (negsuc n) = omega arith

module _ {F R : Type 0} (cfg : Resolved F R) where
  unfoldable pub open_source :
      Paths → Parsers R → (Text → List Text) → (SrcItem → Read) → SrcItem → Opened
  unfolding parse_file fatal_result
  open_source paths ps anchors_of read src =
      if is_empty src.url
      then elim (read src) [
        | unread err ↦ refused (fatal_result src.path err)
        | contents data_read ↦
            let fl = parse_file paths ps anchors_of src.path data_read cfg in
            parsed fl.link_targets fl.link_anchors
      ]
      else parsed (url_target src ∷ []) []

  module _ (matches : R → Text → Bool) (stat unescape : Text → Option Text)
      (read_anchors lookup_mx : Text → Option (List Text)) (parse_address : Text → Option Text)
      (quote : Text → Text) where
    -- The anchors seen and the result of a target that leads to no job; `none` for one that goes to `add`.
    unfoldable pub offline_result :
        List Text → Map (List Text) → Target → Option (Map (List Text) × Result)
    unfolding check_file_target
    offline_result anchors seen t =
        if is_ignored matches t.raw cfg.ignore_patterns
          || is_ignored matches t.url cfg.ignore_patterns
        then some (seen, verdict t State.ignored 0 [])
        else elim t.kind [
          | file_rel ↦ some (check_file_target read_anchors cfg stat unescape seen t)
          | hash_local ↦ some (seen, check_hash unescape t anchors)
          | mailto ↦ some (seen, check_mailto parse_address lookup_mx quote t cfg)
          | http ↦
              if not cfg.check_external
              then some (seen, verdict t State.ignored 0 (text "external checks disabled"))
              else none
        ]

    pub offline_result-target :
        (anchors : List Text) (seen seen' : Map (List Text)) (t : Target) (r : Result)
        → offline_result anchors seen t ≡ some (seen', r)
        → r.target ≡ t
    unfolding offline_result
    offline_result-target anchors seen seen' t r e = ground (
      arith,
      check_hash-target unescape t anchors,
      check_mailto-target parse_address lookup_mx quote t cfg,
      check_file_target-target read_anchors cfg stat unescape seen t,
    )

    -- `host_of` is the package's own `hostOf`, without the port; `url_host` is the one of the checker, with it.
    unfoldable pub pipeline_work :
        (Text → Text)
        → (Text → Text)
        → (Text → Text)
        → Bool
        → Paths
        → Parsers R
        → (Text → List Text)
        → (SrcItem → Read)
        → Work
    unfolding at_least_one open_source offline_result
    pipeline_work host_of url_host normalize_key has_deadline paths ps anchors_of read = record {
      parse_limit = at_least_one cfg.parse_workers;
      url_limit = at_least_one cfg.url_workers;
      parse_limit_pos = at_least_one_pos cfg.parse_workers;
      url_limit_pos = at_least_one_pos cfg.url_workers;
      deadline = has_deadline;
      open_source = open_source paths ps anchors_of read;
      offline = offline_result;
      offline_target = offline_result-target;
      key_of = λ t. normalize_key t.url;
      host_of = host_of;
      answer = λ client j. check cfg client j.sample (url_host j.sample.url);
    }

-- `handleTarget` is `offline_result`, or `add` with what follows it.
module _ (m : Rates) {R : Type 0} (cfg : Resolved m.F R) (host_of : Text → Text)
    (matches : R → Text → Bool) (stat unescape : Text → Option Text)
    (read_anchors lookup_mx : Text → Option (List Text)) (parse_address : Text → Option Text)
    (quote normalize_key : Text → Text) where
  open m use {F, Limiter}

  pub handle_target-offline_result :
      (sends : Bool) (anchors : List Text) (now : ℤ) (run : Run (HostState F Limiter)) (t : Target)
      → handle_target m cfg host_of matches stat unescape read_anchors lookup_mx parse_address quote
          normalize_key sends anchors now run t
        ≡ elim (offline_result cfg matches stat unescape read_anchors lookup_mx parse_address quote
            anchors run.anchor_cache t) [
              | some (seen, r) ↦ some (record (add_results run (r ∷ [])) { anchor_cache = seen })
              | none ↦ handle_http m cfg host_of sends (normalize_key t.url) now run t
            ]
  unfolding handle_target offline_result handle_http add_results
  handle_target-offline_result sends anchors now run t = ground arith
