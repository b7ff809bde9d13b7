-- ===== src/Engine/Outcome.antt =====
-- internal/engine/engine.go: when `Run` succeeds, and what it does to the files.
use markdown_linkerator.Base.{◌≡◌, ◌↔◌, Option, none, arith, Text, ℤ}
use markdown_linkerator.Cache.{Cache}
use markdown_linkerator.Cache.Disk.{Envelope, Files, Disk, save, new}
use markdown_linkerator.Config.Resolve.{Resolved}
use markdown_linkerator.Config.Fingerprint.{cache_fingerprint}
use markdown_linkerator.Engine.{
  Context, live, deadline_exceeded, canceled, PipelineRun, engine_run, run_error_of,
}

run_error_of-none :
    (p : PipelineRun) (ctx : Context)
    → (run_error_of p ctx ≡ none) ↔ ((p.fatal ≡ none) × (ctx ≡ live) × (p.source_errors ≡ 0))
unfolding run_error_of
run_error_of-none p live = ground arith
run_error_of-none p deadline_exceeded = ground arith
run_error_of-none p canceled = ground arith

module _ {F R : Type 0} (marshal : Envelope → Option Text) (unmarshal : Text → Option Envelope)
    (itoa : ℤ → Text) (digest : Text → Text) (run_pipeline : Resolved F R → Cache → PipelineRun)
    (disk : Disk) where
  -- What the pipeline leaves in a run over these files.
  abbrev pub pipeline_of : Resolved F R → Files → PipelineRun
  pipeline_of cfg files = run_pipeline cfg (
      new unmarshal (cfg.cache.path) (cfg.cache.ttl) (cfg.cache.enabled)
        (cache_fingerprint itoa digest cfg) files)

  -- A run has no error exactly when the pipeline ended without a fatal one, the context was neither
  -- cancelled nor past its deadline, every source was read, and the cache was saved. Whatever the error,
  -- the files are those that saving the pipeline's cache leaves.
  pub engine_run_iff :
      (cfg : Resolved F R) (ctx : Context) (files : Files)
      → let out = engine_run marshal unmarshal itoa digest run_pipeline disk cfg ctx files in
        let p = pipeline_of cfg files in
        ((out.run_error ≡ none) ↔ (
          (p.fatal ≡ none)
          × (ctx ≡ live)
          × (p.source_errors ≡ 0)
          × ((save marshal p.cache disk files).0 ≡ none)))
        × (out.files ≡ (save marshal p.cache disk files).1)
  unfolding engine_run
  engine_run_iff cfg ctx files =
      let p = pipeline_of cfg files in ground (arith, run_error_of-none p ctx)
