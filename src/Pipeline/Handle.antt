-- ===== src/Pipeline/Handle.antt =====
-- internal/pipeline/pipeline.go: what one target and one job do to the run. The run's collaborators
-- are one record; `p.cache` and the cache of the dedup table are one cache. os.Stat, the patterns,
-- net/mail, the resolver and the client of the checker are parameters, and so is `read_anchors`,
-- os.ReadFile followed by extract.Anchors.
pub mod Outcomes
pub mod Freshness
mod Examples
use markdown_linkerator.Base.{
  after_last, ℕ, zero, suc, Bool, true, false, not, ◌&&◌, ◌||◌, Option, none, some, List, [], ◌∷◌,
  ◌++◌, ◌==◌, if◌then◌else◌, or_else, Text, text, text_eq, to_lower, Map, lookup, insert, ℤ,
}
use markdown_linkerator.Model.{
  Target, Result, State, CheckJob, http, file_rel, hash_local, mailto, is_alive, zero_result,
}
use markdown_linkerator.Model.Key.{is_empty}
use markdown_linkerator.Config.Resolve.{Resolved}
use markdown_linkerator.Cache
use markdown_linkerator.RateLimit.{
  Rates, HostState, arm_cooldown, penalize_429, on_success, record_request,
}
use markdown_linkerator.RateLimit.Registry.{update_host}
use markdown_linkerator.Report.Gauge.{Gauges, net_enqueue, net_start, net_status, net_complete}
use markdown_linkerator.Checker.Local.{is_ignored, check_file, check_hash, check_mailto, verdict}
use markdown_linkerator.Checker.Http.{Client, check}
use markdown_linkerator.Pipeline.Dedup.{
  Dedup, Begun, hit, queued, found, add_begin, add_finish, complete, fan_out,
}

-- `results` are the collector's, in the order of `Add`; `jobs` are those sent to the dispatcher.
pub record Run (H : Type 0) : Type 0 where
  pub dedup : Dedup
  pub results : List Result
  pub gauges : Gauges
  pub hosts : Map H
  pub anchor_cache : Map (List Text)
  pub jobs : List CheckJob

-- One call of the retry callback, which follows a response: the URL, the note made of the status,
-- the wait and the attempt, the status, the wait, and the time.
pub record Notice : Type 0 where
  pub url : Text
  pub note : Text
  pub code : ℕ
  pub wait : ℤ
  pub now : ℤ

unfoldable pub add_results : {H : Type 0} → Run H → List Result → Run H
add_results run rs = record run { results = run.results ++ rs }

-- filepath.Ext: 47 is the slash, 46 the dot.
unfoldable pub extension : Text → Text
extension path = elim (after_last 46 (or_else (after_last 47 path) path)) [
  | none ↦ []
  | some e ↦ 46 ∷ e
]

-- crawl.go
unfoldable pub is_markdown : Text → Bool
unfolding extension
is_markdown name =
    let ext = to_lower (extension name) in
    text_eq ext (text ".md") || text_eq ext (text ".markdown")

module _ (read_anchors : Text → Option (List Text)) where
  unfoldable pub file_anchors : Map (List Text) → Text → Map (List Text) × Option (List Text)
  file_anchors seen path = elim (lookup path seen) [
    | some a ↦ (seen, some a)
    | none ↦ elim (read_anchors path) [
      | none ↦ (seen, none)
      | some a ↦ (insert path a seen, some a)
    ]
  ]

  module _ {F R : Type 0} (cfg : Resolved F R) (stat unescape : Text → Option Text) where
    -- The anchors of a file link's target decide only when they can be read.
    unfoldable pub judge_anchors : Target → Option (List Text) → Result
    judge_anchors t read = elim read [
      | none ↦ check_file stat t
      | some anchors ↦
          if not (is_alive (check_hash unescape t anchors).state)
          then verdict t State.dead 404
              (text "file exists but anchor #" ++ t.fragment ++ text " not found")
          else check_file stat t
    ]

    unfoldable pub needs_anchors : Target → Bool
    needs_anchors t =
        cfg.check_fragments
        && (is_alive (check_file stat t).state && (not (is_empty t.fragment) && is_markdown t.url))

    unfoldable pub check_file_target : Map (List Text) → Target → Map (List Text) × Result
    unfolding file_anchors judge_anchors needs_anchors
    check_file_target seen t =
        if needs_anchors t
        then ((file_anchors seen t.url).0, judge_anchors t (file_anchors seen t.url).1)
        else (seen, check_file stat t)

module _ (m : Rates) {R : Type 0} (cfg : Resolved m.F R) (host_of : Text → Text) where
  open m use {F, Limiter}

  -- `dedup.add` as one call: the job to send and the results to emit.
  unfoldable pub add : Dedup → Text → Target → ℤ → Option (Dedup × Option CheckJob × List Result)
  add d key t now =
      let b = add_begin host_of d key t now in
      elim b.1 [
        | hit r ↦ some (b.0, none, r ∷ [])
        | queued job ↦ some (b.0, some job, [])
        | found ↦ elim (add_finish b.0 key t) [ none ↦ none | some (d', rs) ↦ some (d', none, rs) ]
      ]

  -- An http target. `sends` says that the channel took the job before the context was cancelled.
  unfoldable pub handle_http :
      Bool → Text → ℤ → Run (HostState F Limiter) → Target → Option (Run (HostState F Limiter))
  handle_http sends key now run t =
      if not cfg.check_external
      then some (add_results run (verdict t State.ignored 0 (text "external checks disabled") ∷ []))
      else elim (add run.dedup key t now) [
        | none ↦ none
        | some (d, none, rs) ↦ some (record (add_results run rs) { dedup = d })
        | some (d, some job, rs) ↦ some (record (add_results run rs) {
          dedup = d;
          gauges = net_enqueue run.gauges job.host;
          jobs = if sends then run.jobs ++ (job ∷ []) else run.jobs;
        })
      ]

  module _ (matches : R → Text → Bool) (stat unescape : Text → Option Text)
      (read_anchors lookup_mx : Text → Option (List Text)) (parse_address : Text → Option Text)
      (quote normalize_key : Text → Text) where
    unfoldable pub handle_target :
        Bool
        → List Text
        → ℤ
        → Run (HostState F Limiter)
        → Target
        → Option (Run (HostState F Limiter))
    handle_target sends anchors now run t =
        if is_ignored matches t.raw cfg.ignore_patterns
          || is_ignored matches t.url cfg.ignore_patterns
        then some (add_results run (verdict t State.ignored 0 [] ∷ []))
        else elim t.kind [
          | file_rel ↦
              let c = check_file_target read_anchors cfg stat unescape run.anchor_cache t in
              some (record (add_results run (c.1 ∷ [])) { anchor_cache = c.0 })
          | hash_local ↦ some (add_results run (check_hash unescape t anchors ∷ []))
          | mailto ↦ some (add_results run (check_mailto parse_address lookup_mx quote t cfg ∷ []))
          | http ↦ handle_http sends (normalize_key t.url) now run t
        ]

  -- The callback of a retry: the note of the progress line, and the host's cooldown.
  unfoldable pub on_retry : Run (HostState F Limiter) → Notice → Run (HostState F Limiter)
  on_retry run n = record run {
    gauges = net_status run.gauges n.url n.note;
    hosts =
        if n.code == 429 || n.code == 503
        then update_host m cfg run.hosts (host_of n.url) (λ h. arm_cooldown m h n.wait n.now)
        else run.hosts;
  }

  unfoldable pub on_retries : Run (HostState F Limiter) → List Notice → Run (HostState F Limiter)
  on_retries run [] = run
  on_retries run (n ∷ ns) = on_retries (on_retry run n) ns

  -- What a result does to its host.
  unfoldable pub feed_back : Result → ℤ → HostState F Limiter → HostState F Limiter
  feed_back res now h =
      let counted = record_request m h res.retries now in
      if res.saw_429
      then penalize_429 m counted res.retry_after now
      else if is_alive res.state
      then on_success m counted
      else counted

  -- One job, checked with the run's client. `url_host` is the `hostOf` of the checker, with the port, and
  -- `host_of` the one of the pipeline, without; `notices` are the calls of the callback meanwhile, and
  -- `now` is the time at the end.
  unfoldable pub execute :
      (Text → Text)
      → Client
      → List Notice
      → Run (HostState F Limiter)
      → CheckJob
      → ℤ
      → ℤ
      → Option (Run (HostState F Limiter))
  unfolding feed_back on_retries
  execute url_host client notices run job began now =
      let started = record run { gauges = net_start run.gauges job.sample.url began } in
      let res = check cfg client job.sample (url_host job.sample.url) in
      let noticed = on_retries started notices in
      let d = record noticed.dedup { cache = Cache.put noticed.dedup.cache job.key res now } in
      elim (complete d job.key res) [
        | none ↦ none
        | some (d', occs) ↦ some (record (add_results noticed (fan_out res false occs)) {
          dedup = d';
          gauges = net_complete noticed.gauges job.sample.url job.host;
          hosts = update_host m cfg noticed.hosts job.host (feed_back res now);
        })
      ]
