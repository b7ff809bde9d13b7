-- ===== src/Report/Counts.antt =====
-- internal/report/report.go: the figures of the summary.
use mathlib.Core.List.{Perm}
use markdown_linkerator.Base.{
  ℕ, ◌+◌, ◌<◌, ◌≡◌, ◌↔◌, ◌⊎◌, Bool, true, false, ◌&&◌, ◌||◌, not, List, [], ◌∷◌, arith, length,
  count, count-perm, length-perm, ltb, if◌then◌else◌, text_eq_iff, text_lt_asymm, text_lt_total,
  text_lt_not_trans, IsOrder, IsSorted, sort_stable, sort_stable-perm, sort_stable-IsSorted,
}
use markdown_linkerator.Model.{Result, State, is_alive, is_dead, is_error}
use markdown_linkerator.RateLimit.{HostStat}
use markdown_linkerator.Report.{
  Summary, tally_all, tally_state, tally_origin, summarize, target_less, result_less, sort_results,
  host_less, finish,
}

abbrev pub is_ignored : State → Bool
is_ignored State.ignored = true
is_ignored _ = false

-- A state that the code does not list.
abbrev pub is_other : State → Bool
is_other (State.other n) = true
is_other _ = false

abbrev pub tally : (State → Bool) → List Result → ℕ
tally p = count (λ (r : Result). p r.state)

-- Reused in this run, and not from the cache on disk.
abbrev pub is_reused : Result → Bool
is_reused r = not r.from_cache && r.reused

abbrev zero_summary : List Result → List HostStat → Summary
zero_summary rs hosts = record {
  total = length rs;
  alive = 0;
  dead = 0;
  ignored = 0;
  errored = 0;
  cached = 0;
  reused = 0;
  exit_code = 0;
  results = rs;
  hosts = hosts;
}

-- The figures of `s` are those of `base` and of the results.
record Adds (rs : List Result) (base s : Summary) : Type 0 where
  alive : s.alive ≡ base.alive + tally is_alive rs
  dead : s.dead ≡ base.dead + tally is_dead rs
  ignored : s.ignored ≡ base.ignored + tally is_ignored rs
  errored : s.errored ≡ base.errored + tally is_error rs
  cached : s.cached ≡ base.cached + count (λ (r : Result). r.from_cache) rs
  reused : s.reused ≡ base.reused + count is_reused rs
  total : s.total ≡ base.total
  code : s.exit_code ≡ base.exit_code
  results : s.results ≡ base.results
  hosts : s.hosts ≡ base.hosts

tally_all-Adds : (rs : List Result) (base : Summary) → Adds rs base (tally_all rs base)
unfolding tally_all
tally_all-Adds [] base = ground arith
tally_all-Adds (r ∷ rs) base =
    ground (arith, tally_all-Adds rs (tally_origin r (tally_state r.state base)))

-- Each result falls under one figure.
tally_split :
    (rs : List Result)
    → tally is_alive rs
        + tally is_dead rs
        + tally is_ignored rs
        + tally is_error rs
        + tally is_other rs
      ≡ length rs
tally_split [] = omega arith
tally_split (r ∷ rs) = ground (arith, tally_split rs)

target_less-IsOrder : IsOrder target_less
unfolding target_less
target_less-IsOrder = record {
  asymm = λ a b h. ground (
    arith,
    text_eq_iff a.source_file b.source_file,
    text_eq_iff b.source_file a.source_file,
    text_lt_asymm a.source_file b.source_file,
    text_lt_asymm a.url b.url,
  );
  trans_not = λ a b c h k. ground (
    arith,
    text_eq_iff b.source_file a.source_file,
    text_eq_iff c.source_file b.source_file,
    text_eq_iff c.source_file a.source_file,
    text_lt_not_trans a.source_file b.source_file c.source_file,
    text_lt_total a.source_file b.source_file,
    text_lt_total b.source_file c.source_file,
    text_lt_total a.source_file c.source_file,
    text_lt_asymm a.source_file b.source_file,
    text_lt_not_trans a.url b.url c.url,
  );
}

result_less-IsOrder : IsOrder result_less
result_less-IsOrder = record {
  asymm = λ a b. target_less-IsOrder.asymm a.target b.target;
  trans_not = λ a b c. target_less-IsOrder.trans_not a.target b.target c.target;
}

summarize-Adds :
    (rs : List Result) (hosts : List HostStat) (f : Bool)
    → let s = summarize rs hosts f in
      (s.total ≡ length rs)
      × (s.alive ≡ tally is_alive rs)
      × (s.dead ≡ tally is_dead rs)
      × (s.ignored ≡ tally is_ignored rs)
      × (s.errored ≡ tally is_error rs)
      × (s.cached ≡ count (λ (r : Result). r.from_cache) rs)
      × (s.reused ≡ count is_reused rs)
      × (s.results ≡ rs)
      × (s.hosts ≡ hosts)
unfolding summarize
summarize-Adds rs hosts f = ground (arith, tally_all-Adds rs (zero_summary rs hosts))

summarize-exit_code :
    (rs : List Result) (hosts : List HostStat) (f : Bool)
    → (summarize rs hosts f).exit_code
      ≡ (if ltb 0 (tally is_dead rs) || (f && ltb 0 (tally is_error rs)) then 1 else 0)
unfolding summarize
summarize-exit_code rs hosts f = ground (arith, tally_all-Adds rs (zero_summary rs hosts))

sort_results-perm : (rs : List Result) → Perm (sort_results rs) rs
unfolding sort_results
sort_results-perm rs = sort_stable-perm result_less rs

-- The report holds every result exactly once, in order of file, line and URL, whatever order the
-- workers delivered them in.
pub finish-IsSorted :
    (rs : List Result) (hosts : List HostStat) (f : Bool)
    → Perm (finish rs hosts f).results rs × IsSorted result_less (finish rs hosts f).results
unfolding finish sort_results
finish-IsSorted rs hosts f =
    let e = (summarize-Adds (sort_results rs) (sort_stable host_less hosts) f).7 in
    rw e (sort_results-perm rs, sort_stable-IsSorted result_less result_less-IsOrder rs)

-- The figures of the report are those of the results as they were delivered, in whatever order:
-- how many there are, how many of each state, how many from the cache and how many reused.
pub finish_counts :
    (rs : List Result) (hosts : List HostStat) (f : Bool)
    → let s = finish rs hosts f in
      (s.total ≡ length rs)
      × (s.alive ≡ tally is_alive rs)
      × (s.dead ≡ tally is_dead rs)
      × (s.ignored ≡ tally is_ignored rs)
      × (s.errored ≡ tally is_error rs)
      × (s.cached ≡ count (λ (r : Result). r.from_cache) rs)
      × (s.reused ≡ count is_reused rs)
unfolding finish
finish_counts rs hosts f =
    let p = sort_results-perm rs in
    omega (
      arith,
      summarize-Adds (sort_results rs) (sort_stable host_less hosts) f,
      length-perm p,
      count-perm (λ (r : Result). is_alive r.state) p,
      count-perm (λ (r : Result). is_dead r.state) p,
      count-perm (λ (r : Result). is_ignored r.state) p,
      count-perm (λ (r : Result). is_error r.state) p,
      count-perm (λ (r : Result). r.from_cache) p,
      count-perm is_reused p,
    )

-- A run fails, with exit code 1, exactly when some link is dead, or when errored links are to fail
-- the run and some link is errored. Otherwise the exit code is 0.
pub finish-exit_code :
    (rs : List Result) (hosts : List HostStat) (f : Bool)
    → let s = finish rs hosts f in
      ((s.exit_code ≡ 1) ↔ ((0 < tally is_dead rs) ⊎ ((f ≡ true) × (0 < tally is_error rs))))
      × ((s.exit_code ≡ 0) ⊎ (s.exit_code ≡ 1))
unfolding finish
finish-exit_code rs hosts f =
    let p = sort_results-perm rs in
    ground (
      arith,
      summarize-exit_code (sort_results rs) (sort_stable host_less hosts) f,
      count-perm (λ (r : Result). is_dead r.state) p,
      count-perm (λ (r : Result). is_error r.state) p,
    )

-- The four figures by state add up to the total exactly when every result has one of the four
-- states that the code names; a cache file can bring in a fifth.
pub finish_total :
    (rs : List Result) (hosts : List HostStat) (f : Bool)
    → let s = finish rs hosts f in
      (s.total ≡ s.alive + s.dead + s.ignored + s.errored) ↔ (tally is_other rs ≡ 0)
finish_total rs hosts f = (
  λ h. omega (arith, finish_counts rs hosts f, tally_split rs),
  λ h. omega (arith, finish_counts rs hosts f, tally_split rs),
)
