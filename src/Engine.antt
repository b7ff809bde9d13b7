-- ===== src/Engine.antt =====
-- internal/engine/engine.go: `Run`, which opens the cache, runs the pipeline, saves the cache and sums up.
-- The pipeline is concurrent: what one run of it leaves behind is a parameter, as are the state of the
-- context when it is over, encoding/json, strconv.Itoa and SHA-256.
pub mod Outcome
pub mod Whole
use markdown_linkerator.Base.{
  ℕ, ℤ, Bool, true, false, ◌&&◌, Option, none, some, List, [], ltb, if◌then◌else◌, Text,
}
use markdown_linkerator.Model.{Result}
use markdown_linkerator.RateLimit.{HostStat}
use markdown_linkerator.Cache.{Cache}
use markdown_linkerator.Cache.Disk.{Envelope, Files, Disk, SaveError, save, new}
use markdown_linkerator.Config.Resolve.{Resolved}
use markdown_linkerator.Config.Fingerprint.{cache_fingerprint}
use markdown_linkerator.Report.{Summary, finish}

-- `ctx.Err()`: nil, or one of its two errors.
pub data Context : Type 0 where
  live deadline_exceeded canceled : Context

-- What a run of the pipeline leaves: its fatal error, the files that could not be read, the results that
-- the collector took, the cache, and the statistics of the hosts.
pub record PipelineRun : Type 0 where
  pub fatal : Option Text
  pub source_errors : ℕ
  pub collected : List Result
  pub cache : Cache
  pub hosts : List HostStat

pub data RunError : Type 0 where
  pipeline_error : Text → RunError
  context_error : Context → RunError
  unread_sources : ℕ → RunError
  save_error : SaveError → RunError

pub record RunOutcome : Type 0 where
  pub summary : Summary
  pub run_error : Option RunError
  pub files : Files

-- The error of the run, before the one of saving the cache counts.
unfoldable pub run_error_of : PipelineRun → Context → Option RunError
run_error_of p ctx = elim p.fatal [
  | some e ↦ some (pipeline_error e)
  | none ↦ elim ctx [
    | live ↦ if ltb 0 p.source_errors then some (unread_sources p.source_errors) else none
    | c ↦ some (context_error c)
  ]
]

module _ {F R : Type 0} (marshal : Envelope → Option Text) (unmarshal : Text → Option Envelope)
    (itoa : ℤ → Text) (digest : Text → Text) (run_pipeline : Resolved F R → Cache → PipelineRun)
    (disk : Disk) where
  unfoldable pub engine_run : Resolved F R → Context → Files → RunOutcome
  unfolding run_error_of save new finish cache_fingerprint
  engine_run cfg ctx files =
      let c =
        new unmarshal (cfg.cache.path) (cfg.cache.ttl) (cfg.cache.enabled)
          (cache_fingerprint itoa digest cfg) files in
      let p = run_pipeline cfg c in
      let saved = save marshal p.cache disk files in
      let error : Option RunError = elim (run_error_of p ctx) [
        | some e ↦ some e
        | none ↦ elim saved.0 [ some e ↦ some (save_error e) | none ↦ none ]
      ] in
      record {
        summary = finish p.collected p.hosts cfg.error_fails_run;
        run_error = error;
        files = saved.1;
      }
