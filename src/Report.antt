-- ===== src/Report.antt =====
-- internal/report/report.go: the results of a run, their order and their summary. The collector's
-- mutex makes each method one step. Writing to the terminal is left out.
pub mod Ticker
pub mod Group
pub mod Wire
pub mod Gauge
pub mod Counts
pub mod Render
pub mod Heartbeat
mod Examples
use markdown_linkerator.Base.{
  ℕ, suc, ◌+◌, Bool, true, false, not, ◌&&◌, ◌||◌, Option, none, some, List, [], ◌∷◌, ◌++◌, length,
  ltb, ◌==◌, if◌then◌else◌, Text, text, text_eq, text_lt, sort_stable,
}
use markdown_linkerator.Model.{
  Target, Result, State, alive, dead, ignored, error, other, is_dead, is_error,
}
use markdown_linkerator.RateLimit.{HostStat}

pub record Summary : Type 0 where
  pub total : ℕ
  pub alive : ℕ
  pub dead : ℕ
  pub ignored : ℕ
  pub errored : ℕ
  pub cached : ℕ
  pub reused : ℕ
  pub exit_code : ℕ
  pub results : List Result
  pub hosts : List HostStat

-- `s.Alive++` and so on, by the state of a result.
tally_state : State → Summary → Summary
tally_state State.alive s = record s { alive = s.alive + 1 }
tally_state State.dead s = record s { dead = s.dead + 1 }
tally_state State.ignored s = record s { ignored = s.ignored + 1 }
tally_state State.error s = record s { errored = s.errored + 1 }
tally_state (State.other n) s = s

tally_origin : Result → Summary → Summary
tally_origin r s =
    if r.from_cache
    then record s { cached = s.cached + 1 }
    else if r.reused
    then record s { reused = s.reused + 1 }
    else s

-- The loop of `summarize`.
unfoldable pub tally_all : List Result → Summary → Summary
unfolding tally_state tally_origin
tally_all [] s = s
tally_all (r ∷ rs) s = tally_all rs (tally_origin r (tally_state r.state s))

unfoldable pub summarize : List Result → List HostStat → Bool → Summary
unfolding tally_all
summarize results hosts error_fails =
    let s = tally_all results (record {
      total = length results;
      alive = 0;
      dead = 0;
      ignored = 0;
      errored = 0;
      cached = 0;
      reused = 0;
      exit_code = 0;
      results = results;
      hosts = hosts;
    }) in
    if ltb 0 s.dead || (error_fails && ltb 0 s.errored) then record s { exit_code = 1 } else s

-- The order of the report: by file, then line, then URL.
unfoldable pub target_less : Target → Target → Bool
target_less a b =
    if not (text_eq a.source_file b.source_file)
    then text_lt a.source_file b.source_file
    else if not (a.line == b.line)
    then ltb a.line b.line
    else text_lt a.url b.url

abbrev pub result_less : Result → Result → Bool
result_less a b = target_less a.target b.target

unfoldable pub sort_results : List Result → List Result
unfolding target_less sort_stable
sort_results rs = sort_stable result_less rs

-- Busiest hosts first, then by name.
unfoldable pub host_less : HostStat → HostStat → Bool
host_less a b =
    if not (a.requests == b.requests) then ltb b.requests a.requests else text_lt a.host b.host

-- What `Finish` returns for the buffered results, in the order in which `Add` took them.
unfoldable pub finish : List Result → List HostStat → Bool → Summary
unfolding sort_results summarize host_less
finish results host_stats error_fails =
    summarize (sort_results results) (sort_stable host_less host_stats) error_fails

unfoldable pub machine_format : Text → Bool
machine_format f = text_eq f (text "json") || (text_eq f (text "yaml") || text_eq f (text "yml"))

-- 35 is the number sign.
abbrev pub contains_code : ℕ → Text → Bool
contains_code c [] = false
contains_code c (x ∷ s) = x == c || contains_code c s

abbrev pub is_nil : Text → Bool
is_nil [] = true
is_nil (_ ∷ _) = false

unfoldable pub link_display : Target → Text
link_display t =
    if not (is_nil t.fragment) && not (contains_code 35 t.url)
    then t.url ++ (35 ∷ t.fragment)
    else t.url

unfoldable pub detail_text : Result → Text
detail_text r = elim r.err [
  | none ↦ r.detail
  | some e ↦ if is_nil r.detail then e else r.detail ++ (text ": " ++ e)
]

unfoldable pub reuse_tag : Result → Text
reuse_tag r = if r.from_cache then text " (cached)" else if r.reused then text " (reused)" else []

abbrev pub is_failure : Result → Bool
is_failure r = is_dead r.state || is_error r.state

unfoldable pub failures_only : List Result → List Result
failures_only [] = []
failures_only (r ∷ rs) = if is_failure r then r ∷ failures_only rs else failures_only rs
