-- ===== src/Cli/Examples.antt =====
-- A command line that gives one flag, an environment with one variable, and no configuration file.
use markdown_linkerator.Base.{
  count, sum_of, has_prefix, arith, ℕ, ◌≡◌, refl, inr, Bool, true, false, ◌||◌, Option, none, some,
  [], ◌∷◌, if◌then◌else◌, or_else, Text, text, text_eq, ℤ, pos,
}
use markdown_linkerator.Samples.{whole, dead_a, alive_a}
use markdown_linkerator.Cache.{Cache}
use markdown_linkerator.Cache.Disk.{Envelope, Files, Disk}
use markdown_linkerator.Config.{Config, empty_config, defaults, merge}
use markdown_linkerator.Config.Resolve.{
  Resolved, resolve, settings, has_code, code_set, compile_all, compile_replacements,
}
use markdown_linkerator.Engine.{Context, live, PipelineRun}
use markdown_linkerator.Engine.Outcome.{pipeline_of}
use markdown_linkerator.Cli.{
  Conversions, Flags, look_string, config_from_env, config_from_flags, string_value,
  auto_detect_config, first_existing, config_path, file_config, resolve_config, build_resolved,
  alive_extra,
}
use markdown_linkerator.Cli.Precedence.{
  layered, with_extra_codes, EffectiveSettings, build_resolved-effective,
}
use markdown_linkerator.Cli.AliveCodes.{build_resolved-has_code}
use markdown_linkerator.Cli.Main.{ReportCounts}
use markdown_linkerator.Model.{Target, is_dead, is_error}
use markdown_linkerator.Cache.Disk.{save}
use markdown_linkerator.Checker.Local.{is_ignored}
use markdown_linkerator.Report.Counts.{tally}
use markdown_linkerator.Pipeline.Samples.{
  no_text, no_list, same, no_match, paths, parsers, no_anchors, reads, host_of, url_host, site,
  page,
}
use markdown_linkerator.Pipeline.Crawl.{
  FilePaths, missing, crawl, crawl_inputs, crawl_input, is_url, send_item,
}
use markdown_linkerator.Pipeline.Source.{url_target}
use markdown_linkerator.Pipeline.Dedup.{new_dedup}
use markdown_linkerator.Pipeline.Dedup.Once.{for_target}
use markdown_linkerator.Pipeline.Pacer.Hosts.{close_all}
use markdown_linkerator.Pipeline.Flow.{Work, Flow, Finished, open_worker}
use markdown_linkerator.Pipeline.Flow.Steps.{
  sends_file, ends_crawl, receives_source, opens, reports, leaves, closes_jobs, closes_pacers,
  closes_ready, crawls, parses, paces, Reach, here, next,
}
use markdown_linkerator.Pipeline.Flow.Program.{pipeline_work, offline_result, open_source}
use markdown_linkerator.Pipeline.Flow.Errors.{source_refusals}
use markdown_linkerator.Pipeline.Flow.Reported.{all_links}
use markdown_linkerator.Engine.Whole.{start_over, left_by, opened_cache}
use markdown_linkerator.Cli.Main.Covers.{work_of, exit_zero_covers}
use markdown_linkerator.Cli.Main.Status.{
  time_limit, Completed, SomeFailed, StatusSays, program_status, program_status_iff,
}

abbrev readings : Conversions ℕ
readings = record {
  atoi = λ s. some (pos 206);
  parse_float = λ s. none;
  parse_bool = λ s. some false;
  parse_duration = λ s. none;
}

abbrev environment : Text → Option Text
environment k = if text_eq k (text "LINKERATOR_CHECK_EXTERNAL") then some (text "false") else none

abbrev command_line : Flags ℕ
command_line = record {
  changed = λ k. text_eq k (text "fail-on-error");
  get_int = λ k. pos 0;
  get_float = λ k. 0;
  get_bool = λ k. true;
  get_string = λ k. [];
  get_duration = λ k. pos 0;
}

abbrev nowhere : Text → Bool
nowhere name = false

abbrev no_file : Text → Option (Config ℕ)
no_file path = none

abbrev any_pattern : Text → Option ℕ
any_pattern p = some 0

abbrev no_value : Text → Text
no_value name = []

abbrev bottom : Config ℕ
bottom = empty_config whole

abbrev settled : Resolved ℕ ℕ
settled =
    with_extra_codes whole readings environment command_line nowhere no_file any_pattern no_value (
      settings whole any_pattern no_value
        (merge whole (defaults whole) (
          layered whole readings environment command_line nowhere no_file any_pattern no_value
            bottom))
        [] [])

reads_nothing : file_config whole readings environment command_line nowhere no_file ≡ some bottom
unfolding file_config config_path string_value look_string auto_detect_config first_existing text_eq
reads_nothing = refl

is_built :
    build_resolved whole readings environment command_line nowhere no_file any_pattern no_value
    ≡ some settled
unfolding build_resolved resolve_config file_config config_path string_value look_string
    auto_detect_config first_existing text_eq resolve compile_all compile_replacements merge
    defaults config_from_env config_from_flags
is_built = refl

build_resolved-effective_example :
    EffectiveSettings readings environment command_line bottom settled
build_resolved-effective_example =
    build_resolved-effective whole readings environment command_line nowhere no_file any_pattern
      no_value bottom settled reads_nothing is_built

build_resolved-has_code_example : has_code (pos 200) settled.alive_status_codes ≡ (
    has_code (pos 200) (code_set (or_else bottom.alive_status_codes []))
    || has_code (pos 200) (alive_extra readings environment command_line))
build_resolved-has_code_example =
    build_resolved-has_code whole readings environment command_line nowhere no_file any_pattern
      no_value bottom settled (pos 200) reads_nothing is_built

abbrev encode : Envelope → Option Text
encode e = some (text "{}")

abbrev decode : Text → Option Envelope
decode t = none

abbrev digits : ℤ → Text
digits n = text "0"

abbrev digest : Text → Text
digest t = t

-- One link is alive, one dead.
abbrev checked : Resolved ℕ ℕ → Cache → PipelineRun
checked cfg c = record {
  fatal = none;
  source_errors = 0;
  collected = alive_a ∷ dead_a ∷ [];
  cache = c;
  hosts = [];
}

abbrev working_disk : Disk
working_disk = record {
  temp_name = text "tmp";
  create_fails = false;
  chmod_fails = false;
  write_fails = none;
  close_fails = false;
  rename_fails = false;
  remove_fails = false;
}

abbrev no_files : Files
no_files path = none

abbrev still_live : Option ℤ → Context
still_live limit = live

abbrev counts_text : ReportCounts → Option Text
counts_text c = some (text "{}")

program_status_iff_example :
    StatusSays
      (program_status whole readings environment command_line nowhere no_file any_pattern no_value
        encode decode digits digest checked working_disk no_files counts_text still_live)
      (Completed encode working_disk no_files
        (pipeline_of encode decode digits digest checked working_disk settled no_files)
        (still_live (time_limit readings environment command_line)))
      (SomeFailed settled.error_fails_run
        (pipeline_of encode decode digits digest checked working_disk settled no_files))
program_status_iff_example =
    program_status_iff whole readings environment command_line nowhere no_file any_pattern no_value
      encode decode digits digest checked working_disk no_files counts_text settled still_live
      is_built

-- The paths of a system on which nothing is found.
abbrev no_paths : FilePaths
no_paths = record {
  stat = λ p. missing;
  join = λ a b. b;
  base = same;
  rel = λ a b. none;
  match = λ a b. none;
  glob = λ p. none;
}

abbrev settled_work : Work
settled_work =
    work_of whole readings environment command_line nowhere no_file any_pattern no_value encode
      decode digits digest working_disk no_files counts_text no_paths no_match no_text no_text
      no_list no_list no_text same host_of url_host same paths parsers no_anchors reads settled

-- External links are not checked, so the only input, a URL, is ignored.
ignoring_run :
    (f : Flow) × Reach settled_work
      (start_over no_paths (site ∷ []) (
        opened_cache settled_work encode decode digits digest working_disk no_paths settled
          no_files))
      f
    × Finished f
    × (f.interrupted ≡ false)
    × (f.crawl_failed ≡ false)
    × (f.source_errors ≡ 0)
    × (tally is_dead f.results ≡ 0)
    × (tally is_error f.results ≡ 0)
    × (f.starved ≡ false)
unfolding open_worker pipeline_work offline_result open_source new_dedup close_all is_ignored crawl
    crawl_input crawl_inputs is_url send_item has_prefix merge defaults config_from_env
    config_from_flags look_string text_eq settings
ignoring_run = (
  _,
  next
      (next
        (next
          (next
            (next
              (next
                (next
                  (next (next (here) (crawls (sends_file page [] refl refl (omega arith))))
                    (crawls (ends_crawl refl refl)))
                  (parses (receives_source page [] refl refl)))
                (parses (opens page refl (omega arith))))
              (parses (reports [] [] _ (url_target page) [] _ _ refl refl refl refl)))
            (parses (leaves [] [] _ refl refl refl)))
          (parses (closes_jobs refl refl refl refl refl)))
        (paces (closes_pacers refl refl refl)))
      (paces (closes_ready refl refl tt)),
  (refl, refl, refl, refl, refl, refl),
  refl,
  refl,
  refl,
  refl,
  refl,
  refl,
)

is_saved : (c : Cache) → (save encode c working_disk no_files).0 ≡ none
unfolding save
is_saved c = ground arith

exits_with_zero :
    program_status whole readings environment command_line nowhere no_file any_pattern no_value
      encode decode digits digest
      (λ _ _. left_by [] [] ignoring_run.0)
      working_disk
      no_files
      counts_text
      still_live
    ≡ 0
exits_with_zero =
    (program_status_iff whole readings environment command_line nowhere no_file any_pattern no_value
        encode decode digits digest (λ _ _. left_by [] [] ignoring_run.0) working_disk no_files
        counts_text settled still_live is_built).0.1
      (
        (rw ignoring_run.4 refl, refl, ignoring_run.5, is_saved ignoring_run.0.dedup.cache),
        λ failed. ground (arith, ignoring_run.6, ignoring_run.7),
      )

exit_zero_covers_example :
    ((crawl no_paths none (site ∷ [])).stop ≡ none)
    × (sum_of (source_refusals settled_work) (crawl no_paths none (site ∷ [])).sent ≡ 0)
    × ((p : Target → Bool)
        → count (for_target p) ignoring_run.0.results
          ≡ count p (all_links settled_work (crawl no_paths none (site ∷ [])).sent))
    × (tally is_dead ignoring_run.0.results ≡ 0)
    × (settled.error_fails_run ≡ true → tally is_error ignoring_run.0.results ≡ 0)
exit_zero_covers_example =
    exit_zero_covers whole readings environment command_line nowhere no_file any_pattern no_value
      encode decode digits digest working_disk no_files counts_text no_paths no_match no_text
      no_text no_list no_list no_text same host_of url_host same paths parsers no_anchors reads
      settled still_live (site ∷ []) [] [] is_built ignoring_run.1 ignoring_run.2
      (λ _. ignoring_run.3) (inr ignoring_run.8) exits_with_zero
