-- ===== src/Cli/Main/Status.antt =====
-- cmd/markdown-linkerator/main.go: what the exit status of the program says about the run.
use markdown_linkerator.Base.{
  [], ℕ, ◌≡◌, refl, ◌↔◌, ◌<◌, ◌⊎◌, inl, inr, Bool, true, Option, none, some, arith, if◌then◌else◌,
  ltb_ℤ, Text, text, ℤ, pos, Option-cases,
}
use markdown_linkerator.Model.{is_dead, is_error}
use markdown_linkerator.Cache.{Cache}
use markdown_linkerator.Cache.Disk.{Envelope, Files, Disk, save}
use markdown_linkerator.Config.{Floats, Config}
use markdown_linkerator.Config.Resolve.{Resolved}
use markdown_linkerator.Report.{finish}
use markdown_linkerator.Report.Counts.{tally, finish-exit_code}
use markdown_linkerator.Engine.{
  Context, live, deadline_exceeded, canceled, PipelineRun, RunError, RunOutcome, engine_run,
}
use markdown_linkerator.Engine.Outcome.{pipeline_of, engine_run_iff}
use markdown_linkerator.Cli.{string_value, Conversions, Flags, build_resolved, duration_value}
use markdown_linkerator.Cli.Main.{ReportCounts, report_file, run, cli_result, exit_status}

-- The time limit that a run gets.
abbrev pub time_limit : {F : Type 0} → Conversions F → (Text → Option Text) → Flags F → Option ℤ
time_limit conv lookup_env flags =
    let d = duration_value conv lookup_env flags (text "max-time") (text "LINKERATOR_MAX_TIME") in
    if ltb_ℤ (pos 0) d then some d else none

-- A run in which nothing failed but links.
abbrev pub Completed : (Envelope → Option Text) → Disk → Files → PipelineRun → Context → Type 0
Completed marshal disk files p ctx =
    (p.fatal ≡ none)
    × (ctx ≡ live)
    × (p.source_errors ≡ 0)
    × ((save marshal p.cache disk files).0 ≡ none)

status_of_error :
    (written : Option (Text × Text)) (out : RunOutcome) (ctx : Context) (err : RunError)
    → out.run_error ≡ some err
    → exit_status (cli_result written out ctx)
      ≡ elim out.run_error [ none ↦ out.summary.exit_code | some _ ↦ 2 ]
unfolding cli_result exit_status
status_of_error written out live err e = rw e refl
status_of_error written out deadline_exceeded err e = rw e refl
status_of_error written out canceled err e = rw e refl

status_of :
    (written : Option (Text × Text)) (out : RunOutcome) (ctx : Context)
    → exit_status (cli_result written out ctx)
      ≡ elim out.run_error [ none ↦ out.summary.exit_code | some _ ↦ 2 ]
unfolding cli_result exit_status
status_of written out ctx = elim (Option-cases out.run_error) [
  | inl e ↦ rw e refl
  | inr (err, e) ↦ status_of_error written out ctx err e
]

-- Some link fails the run.
abbrev pub SomeFailed : Bool → PipelineRun → Type 0
SomeFailed error_fails p =
    (0 < tally is_dead p.collected) ⊎ ((error_fails ≡ true) × (0 < tally is_error p.collected))

-- The exit status says whether the run was completed, and whether a link failed it.
abbrev pub StatusSays : ℕ → Type 0 → Type 0 → Type 0
StatusSays status Done Failed =
    ((status ≡ 0) ↔ (Done × ¬ Failed)) × ((status ≡ 1) ↔ (Done × Failed)) × ((status ≡ 2) ↔ ¬ Done)

-- From the error of a run and the exit code of its summary to the exit status.
status_cases :
    {Done Failed : Type 0} (err : Option RunError) (code status : ℕ)
    → status ≡ elim err [ none ↦ code | some _ ↦ 2 ]
    → (err ≡ none) ↔ Done
    → (code ≡ 1) ↔ Failed
    → (code ≡ 0) ⊎ (code ≡ 1)
    → StatusSays status Done Failed
status_cases none code status e done failed codes = ground (arith, done, failed, codes)
status_cases (some err) code status e done failed codes = ground (arith, done, failed, codes)

module _ (fl : Floats) (conv : Conversions (fl.F)) (lookup_env : Text → Option Text)
    (flags : Flags (fl.F)) (exists : Text → Bool) (load_file : Text → Option (Config (fl.F)))
    {R : Type 0} (compile : Text → Option R) (getenv : Text → Text)
    (marshal : Envelope → Option Text) (unmarshal : Text → Option Envelope) (itoa : ℤ → Text)
    (digest : Text → Text) (run_pipeline : Resolved (fl.F) R → Cache → PipelineRun) (disk : Disk)
    (files : Files) (marshal_counts : ReportCounts → Option Text) where
  -- The whole program, from its configuration to its exit status, over these files.
  abbrev pub program_status : (Option ℤ → Context) → ℕ
  program_status context_after = exit_status (
      run fl conv lookup_env flags exists load_file compile getenv marshal_counts
        (λ cfg rep ctx. engine_run marshal unmarshal itoa digest run_pipeline disk cfg ctx files)
        context_after)

  -- A program whose configuration is good exits with 0 exactly when the run was completed (no fatal error,
  -- no cancellation or time-out, every source read, the cache saved) and no link is dead, nor errored
  -- where that is to fail the run; with 1 exactly when it was completed and some link is; and else with 2.
  pub program_status_iff :
      (cfg : Resolved (fl.F) R) (context_after : Option ℤ → Context)
      → build_resolved fl conv lookup_env flags exists load_file compile getenv ≡ some cfg
      → let p = pipeline_of marshal unmarshal itoa digest run_pipeline disk cfg files in
        StatusSays
          (program_status context_after)
          (Completed marshal disk files p (context_after (time_limit conv lookup_env flags)))
          (SomeFailed cfg.error_fails_run p)
  unfolding run engine_run
  program_status_iff cfg context_after built =
      let ctx = context_after (time_limit conv lookup_env flags) in
      let out = engine_run marshal unmarshal itoa digest run_pipeline disk cfg ctx files in
      let p = pipeline_of marshal unmarshal itoa digest run_pipeline disk cfg files in
      let path = string_value lookup_env flags (text "report-json") [] [] in
      let status = status_of (report_file marshal_counts path out.summary) out ctx in
      let engine = engine_run_iff marshal unmarshal itoa digest run_pipeline disk cfg ctx files in
      let code = finish-exit_code p.collected p.hosts cfg.error_fails_run in
      status_cases out.run_error (finish p.collected p.hosts cfg.error_fails_run).exit_code
        (program_status context_after) (rw (run, built) status) engine.0 code.0 code.1
