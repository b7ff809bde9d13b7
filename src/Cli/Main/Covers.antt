-- ===== src/Cli/Main/Covers.antt =====
-- cmd/markdown-linkerator/main.go: what it means that the program exits with 0.
use markdown_linkerator.Base.{
  ◌≡◌, ◌<◌, ◌⊎◌, inl, inr, ap, Bool, true, false, Option, none, some, List, arith, count, sum_of,
  Text, ℤ,
}
use markdown_linkerator.Model.{Target, is_dead, is_error}
use markdown_linkerator.Model.{Result}
use markdown_linkerator.RateLimit.{HostStat}
use markdown_linkerator.Cache.Disk.{Envelope, Files, Disk}
use markdown_linkerator.Config.{Floats, Config}
use markdown_linkerator.Config.Resolve.{Resolved}
use markdown_linkerator.Report.Counts.{tally}
use markdown_linkerator.Extract.Targets.{Paths}
use markdown_linkerator.Extract.Targets.Walk.{Parsers}
use markdown_linkerator.Pipeline.Crawl.{SrcItem, FilePaths, crawl}
use markdown_linkerator.Pipeline.Source.{Read}
use markdown_linkerator.Pipeline.Flow.Program.{pipeline_work}
use markdown_linkerator.Pipeline.Dedup.Once.{for_target}
use markdown_linkerator.Pipeline.Flow.{Work, Flow, Finished}
use markdown_linkerator.Pipeline.Flow.Steps.{Reach}
use markdown_linkerator.Pipeline.Flow.Errors.{source_refusals}
use markdown_linkerator.Pipeline.Flow.Reported.{all_links}
use markdown_linkerator.Engine.{Context, live}
use markdown_linkerator.Engine.Whole.{start_over, left_by, opened_cache, run_complete}
use markdown_linkerator.Cli.{Conversions, Flags, build_resolved, duration_value}
use markdown_linkerator.Cli.Main.{ReportCounts}
use markdown_linkerator.Cli.Main.Status.{program_status, program_status_iff, time_limit}

abbrev pub is_limited : Option ℤ → Bool
is_limited none = false
is_limited (some limit) = true

none_dead :
    (fails : Bool) (rs : List Result)
    → ((0 < tally is_dead rs) ⊎ ((fails ≡ true) × (0 < tally is_error rs)) → ⊥)
    → (tally is_dead rs ≡ 0) × (fails ≡ true → tally is_error rs ≡ 0)
none_dead fails rs h = (ground arith, λ e. ground arith)

module _ (fl : Floats) (conv : Conversions (fl.F)) (lookup_env : Text → Option Text)
    (flags : Flags (fl.F)) (exists : Text → Bool) (load_file : Text → Option (Config (fl.F)))
    {R : Type 0} (compile : Text → Option R) (getenv : Text → Text)
    (marshal : Envelope → Option Text) (unmarshal : Text → Option Envelope) (itoa : ℤ → Text)
    (digest : Text → Text) (disk : Disk) (files : Files)
    (marshal_counts : ReportCounts → Option Text) (fp : FilePaths) (matches : R → Text → Bool)
    (stat unescape : Text → Option Text) (read_anchors lookup_mx : Text → Option (List Text))
    (parse_address : Text → Option Text) (quote host_of url_host normalize_key : Text → Text)
    (paths : Paths) (ps : Parsers R) (anchors_of : Text → List Text) (read : SrcItem → Read) where
  -- What the stages of the pipeline call under a configuration.
  abbrev pub work_of : Resolved (fl.F) R → Work
  work_of cfg =
      pipeline_work cfg matches stat unescape read_anchors lookup_mx parse_address quote host_of
        url_host normalize_key (is_limited (time_limit conv lookup_env flags)) paths ps anchors_of
        read

  -- When the program exits with 0, in whatever order the steps of its pipeline were taken: the crawl found
  -- every input and every source was read, the results are exactly one for each link of the sources, as
  -- often as the link stands there, no link is dead, and none an error where errors are to fail the run.
  -- (The configuration is good, a context that is live at the end was not cancelled before, and the run has
  -- no time limit, or no pacer left because the wait for its host would have passed the deadline.)
  pub exit_zero_covers :
      (cfg : Resolved (fl.F) R) (context_after : Option ℤ → Context) (inputs : List Text)
      (message : Text) (hosts : List HostStat) {f : Flow}
      → build_resolved fl conv lookup_env flags exists load_file compile getenv ≡ some cfg
      → Reach
          (work_of cfg)
          (start_over fp inputs
            (opened_cache (work_of cfg) marshal unmarshal itoa digest disk fp cfg files))
          f
      → Finished f
      → (context_after (time_limit conv lookup_env flags) ≡ live → f.interrupted ≡ false)
      → (time_limit conv lookup_env flags ≡ none) ⊎ (f.starved ≡ false)
      → program_status fl conv lookup_env flags exists load_file compile getenv marshal unmarshal
          itoa digest
          (λ _ _. left_by message hosts f)
          disk
          files
          marshal_counts
          context_after
        ≡ 0
      → ((crawl fp none inputs).stop ≡ none)
        × (sum_of (source_refusals (work_of cfg)) (crawl fp none inputs).sent ≡ 0)
        × ((p : Target → Bool)
            → count (for_target p) f.results
              ≡ count p (all_links (work_of cfg) (crawl fp none inputs).sent))
        × (tally is_dead f.results ≡ 0)
        × (cfg.error_fails_run ≡ true → tally is_error f.results ≡ 0)
  unfolding pipeline_work duration_value
  exit_zero_covers cfg context_after inputs message hosts {f} built r e parent paced zero =
      let ctx = context_after (time_limit conv lookup_env flags) in
      let (done, none_failed) =
        (program_status_iff fl conv lookup_env flags exists load_file compile getenv marshal
            unmarshal itoa digest (λ _ _. left_by message hosts f) disk files marshal_counts cfg
            context_after built).0.0
          zero in
      let whole =
        run_complete (work_of cfg) marshal unmarshal itoa digest disk fp cfg ctx files inputs
          message hosts r e parent done.0
          (elim paced [ inl y ↦ inl (ap is_limited y) | inr y ↦ inr y ]) done.1 done.2 in
      let links = none_dead cfg.error_fails_run f.results none_failed in
      (whole.0, whole.1, whole.2, links.0, links.1)
