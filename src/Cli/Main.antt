-- ===== src/Cli/Main.antt =====
-- internal/cli/cli.go: `run`, `writeReportJSON`, `versionString` and `shortCommit`;
-- cmd/markdown-linkerator/main.go: the exit status; internal/version/version.go: `Info`.
pub mod Status
pub mod Covers
use markdown_linkerator.Base.{
  ℕ, Bool, true, false, ◌||◌, Option, none, some, List, [], ◌∷◌, ◌++◌, ltb, ltb_ℤ, if◌then◌else◌,
  length, take, Text, text, text_eq, ℤ, pos,
}
use markdown_linkerator.Model.Key.{is_empty}
use markdown_linkerator.Cache.{Cache}
use markdown_linkerator.Cache.Disk.{Envelope, Files, Disk}
use markdown_linkerator.Config.{Floats, Config}
use markdown_linkerator.Config.Resolve.{Resolved}
use markdown_linkerator.Report.{Summary}
use markdown_linkerator.Engine.{
  Context, live, deadline_exceeded, canceled, PipelineRun, RunError, RunOutcome, engine_run,
}
use markdown_linkerator.Cli.{
  Conversions, Flags, build_resolved, bool_value, string_value, duration_value,
}

-- The values of report.Options; the two writers are left out.
pub record ReportOptions : Type 0 where
  pub quiet : Bool
  pub verbose : Bool
  pub progress : Bool
  pub format : Text
  pub no_color : Bool

unfoldable pub report_options :
    {F : Type 0} → Conversions F → (Text → Option Text) → Flags F → ReportOptions
unfolding bool_value string_value
report_options conv lookup_env flags = record {
  quiet = bool_value conv lookup_env flags (text "quiet") (text "LINKERATOR_QUIET");
  verbose = bool_value conv lookup_env flags (text "verbose") (text "LINKERATOR_VERBOSE");
  progress = bool_value conv lookup_env flags (text "progress") (text "LINKERATOR_PROGRESS");
  format = string_value lookup_env flags (text "format") (text "LINKERATOR_FORMAT") (text "text");
  no_color = bool_value conv lookup_env flags (text "no-color") (text "LINKERATOR_NO_COLOR");
}

-- The fields that `writeReportJSON` encodes.
pub record ReportCounts : Type 0 where
  pub total : ℕ
  pub alive : ℕ
  pub dead : ℕ
  pub ignored : ℕ
  pub errored : ℕ
  pub cached : ℕ
  pub reused : ℕ
  pub exit_code : ℕ

abbrev pub report_counts : Summary → ReportCounts
report_counts s = record {
  total = s.total;
  alive = s.alive;
  dead = s.dead;
  ignored = s.ignored;
  errored = s.errored;
  cached = s.cached;
  reused = s.reused;
  exit_code = s.exit_code;
}

-- What is written, where the counts encode.
unfoldable pub write_report_json : (ReportCounts → Option Text) → Summary → Option Text
write_report_json marshal_counts s = elim (marshal_counts (report_counts s)) [
  | none ↦ none
  | some b ↦ some (b ++ (10 ∷ []))
]

pub data CliError : Type 0 where
  bad_config : CliError
  max_time_exceeded interrupted run_failed : RunError → CliError

-- The error that `run` returns, the exit code that it sets, and the file that it writes, by its path and
-- contents. The code is left alone, at 0, at an error of the configuration or of the run itself.
abbrev pub CliResult : Type 0
CliResult = Option CliError × ℕ × Option (Text × Text)

unfoldable pub cli_result : Option (Text × Text) → RunOutcome → Context → CliResult
cli_result written out ctx = elim out.run_error [
  | none ↦ (none, out.summary.exit_code, written)
  | some e ↦ elim ctx [
    | deadline_exceeded ↦ (some (max_time_exceeded e), 2, written)
    | canceled ↦ (some (interrupted e), 2, written)
    | live ↦ (some (run_failed e), 0, written)
  ]
]

-- The file of `--report-json`; a failure of its writing is only a warning.
unfoldable pub report_file : (ReportCounts → Option Text) → Text → Summary → Option (Text × Text)
unfolding write_report_json
report_file marshal_counts path s =
    if is_empty path
    then none
    else elim (write_report_json marshal_counts s) [ none ↦ none | some b ↦ some (path, b) ]

-- `main`: any error gives 2.
unfoldable pub exit_status : CliResult → ℕ
exit_status (none, code, written) = code
exit_status (some e, code, written) = 2

module _ (fl : Floats) (conv : Conversions (fl.F)) (lookup_env : Text → Option Text)
    (flags : Flags (fl.F)) (exists : Text → Bool) (load_file : Text → Option (Config (fl.F)))
    {R : Type 0} (compile : Text → Option R) (getenv : Text → Text)
    (marshal_counts : ReportCounts → Option Text)
    (run_engine : Resolved (fl.F) R → ReportOptions → Context → RunOutcome) where
  -- `run`. `context_after` is the context when the run is over, from the time limit that is set, if any.
  unfoldable pub run : (Option ℤ → Context) → CliResult
  unfolding build_resolved duration_value string_value report_options report_file cli_result
  run context_after =
      elim (build_resolved fl conv lookup_env flags exists load_file compile getenv) [
        | none ↦ (some bad_config, 0, none)
        | some resolved ↦
            let d =
              duration_value conv lookup_env flags (text "max-time") (text "LINKERATOR_MAX_TIME") in
            let ctx = context_after (if ltb_ℤ (pos 0) d then some d else none) in
            let out = run_engine resolved (report_options conv lookup_env flags) ctx in
            let path = string_value lookup_env flags (text "report-json") [] [] in
            cli_result (report_file marshal_counts path out.summary) out ctx
      ]

unfoldable pub short_commit : Text → Text
unfolding take
short_commit c = if ltb 12 (length c) then take 12 c else c

unfoldable pub or_dev : Text → Text
unfolding text_eq
or_dev s = if is_empty s || text_eq s (text "(devel)") then text "dev" else s

unfoldable pub or_unknown : Text → Text
or_unknown s = if is_empty s then text "unknown" else s

-- What `debug.ReadBuildInfo` gives.
pub record BuildInfo : Type 0 where
  pub main_version : Text
  pub build_settings : List (Text × Text)

-- The version, the commit and the date.
pub record Info : Type 0 where
  pub version : Text
  pub commit : Text
  pub date : Text

unfoldable pub apply_settings : List (Text × Text) → Info → Info
unfolding text_eq
apply_settings [] i = i
apply_settings ((key, value) ∷ settings) i =
    let next : Info =
      if text_eq key (text "vcs.revision")
      then record i { commit = if is_empty i.commit then value else i.commit }
      else if text_eq key (text "vcs.time")
      then record i { date = if is_empty i.date then value else i.date }
      else i in
    apply_settings settings next

unfoldable pub info : Info → Option BuildInfo → Info
unfolding apply_settings or_dev or_unknown
info set build_info =
    let known : Info = elim build_info [
      | none ↦ set
      | some bi ↦
          apply_settings bi.build_settings
            (record set { version = if is_empty set.version then bi.main_version else set.version })
    ] in
    record {
      version = or_dev known.version;
      commit = or_unknown known.commit;
      date = or_unknown known.date;
    }

unfoldable pub version_string : Info → Text
unfolding short_commit
version_string i =
    text "markdown-linkerator "
    ++ (i.version ++ (text " (" ++ (short_commit i.commit ++ (text ", " ++ (i.date ++ text ")")))))
