-- ===== src/Pipeline/Flow/Once.antt =====
-- internal/pipeline/pipeline.go: how often a run asks the network for one URL.
use markdown_linkerator.Base.{
  ℕ, ◌+◌, ◌≡◌, ◌≤◌, refl, ap, inl, inr, Bool, true, false, List, [], ◌∷◌, arith, Text, text_eq_iff,
  lookup, lookup-insert, sum_of, ℤ, Option-cases,
}
use markdown_linkerator.Model.{Target, zero_result}
use markdown_linkerator.Cache
use markdown_linkerator.Cache.{Cache}
use markdown_linkerator.Pipeline.Crawl.{SrcItem}
use markdown_linkerator.Pipeline.Dedup.{
  Dedup, UrlState, add_begin, new_dedup, result_from_cache, zero_target,
}
use markdown_linkerator.Pipeline.Dedup.Settled.{add_finish_seen, complete_seen}
use markdown_linkerator.Pipeline.Dedup.Jobs.{present, present-le, present-insert}
use markdown_linkerator.Pipeline.Pacer.{leave, release}
use markdown_linkerator.Pipeline.Pacer.Drain.{in_hand}
use markdown_linkerator.Pipeline.Flow.{
  Work, Flow, Executor, checking, stored, start, open_worker, begun_stage, begin_target,
}
use markdown_linkerator.Pipeline.Flow.Steps.{
  CrawlStep, sends_file, ends_crawl, stops_crawl, ParseStep, receives_source, opens, reports,
  begins, finishes, sends_job, drops_job, leaves, closes_jobs, PaceStep, dispatches, closes_pacers,
  takes, exits, gives_up, starves, releases, closes_ready, ExecStep, receives_job, executes, stores,
  completes, Step, crawls, parses, paces, works, cancels, Reach, here, next,
}
use markdown_linkerator.Pipeline.Flow.InFlight.{
  is_for, carried, job_weights, weight-enqueue, takes_jobs, exits_jobs, opened_jobs,
}
use markdown_linkerator.Pipeline.Flow.Tally.{
  Weights, tally, crawl_made, crawl_spent, parse_made, parse_spent, pace_made, pace_spent,
  exec_made, exec_spent, CrawlStep-tally, ParseStep-tally, PaceStep-tally, ExecStep-tally,
}

abbrev pub still_to_ask : Text → Executor → ℕ
still_to_ask k (checking j) = is_for k j
still_to_ask k (stored j res) = 0

-- The jobs for one URL that have not been checked yet.
abbrev pub ask_weights : Text → Weights
ask_weights k = record (job_weights k) { executor = still_to_ask k }

begun_asks :
    (host_of : Text → Text) (k : Text) (d : Dedup) (key : Text) (t : Target) (now : ℤ)
    → carried k (begun_stage key t (add_begin host_of d key t now).1) + present k d
      ≤ present k (add_begin host_of d key t now).0
unfolding add_begin
begun_asks host_of k d key t now = elim (Option-cases (lookup key d.seen)) [
  | inr (st, e) ↦ ground arith
  | inl e ↦ elim (Option-cases (Cache.get d.cache key now)) [
    | inr (ent, g) ↦
        let old : UrlState = record {
          done = true;
          result = result_from_cache host_of t ent;
          occs = [];
        } in
        ground (arith, lookup-insert key k old d.seen)
    | inl g ↦
        let fresh : UrlState = record {
          done = false;
          result = zero_result zero_target;
          occs = t ∷ [];
        } in
        ground (arith, lookup-insert key k fresh d.seen, text_eq_iff key k)
  ]
]

module _ (w : Work) (k : Text) where
  -- Whether a step is the check of a job for the URL.
  abbrev pub exec_asks : {f f' : Flow} → ExecStep w f f' → ℕ
  exec_asks (receives_job j rest e n) = 0
  exec_asks (executes j e r) = 0
  exec_asks (stores before behind j client now e) = is_for k j
  exec_asks (completes before behind j res d occs e g) = 0

  abbrev pub asks : {f f' : Flow} → Step w f f' → ℕ
  asks (crawls s) = 0
  asks (parses s) = 0
  asks (paces s) = 0
  asks (works s) = exec_asks s
  asks (cancels u e) = 0

  -- How often a run checked the URL.
  abbrev pub checks : {f f' : Flow} → Reach w f f' → ℕ
  checks here = 0
  checks (next r s) = checks r + asks s

  crawl_balance :
      {f f' : Flow} (s : CrawlStep w f f')
      → crawl_made (ask_weights k) w s + present k f.dedup
        ≤ crawl_spent (ask_weights k) w s + present k f'.dedup
  crawl_balance (sends_file src rest o e r) = omega arith
  crawl_balance (ends_crawl o e) = omega arith
  crawl_balance (stops_crawl o d) = omega arith

  parse_balance :
      {f f' : Flow} (s : ParseStep w f f')
      → parse_made (ask_weights k) w s + present k f.dedup
        ≤ parse_spent (ask_weights k) w s + present k f'.dedup
  unfolding open_worker begin_target
  parse_balance (receives_source src rest e n) = omega arith
  parse_balance (opens src e r) = omega (arith, opened_jobs k (w.open_source src))
  parse_balance (reports before behind wk t ts seen r e i l o) = omega arith
  parse_balance {f} (begins before behind wk t ts now e i l o) =
      omega (arith, begun_asks w.host_of k f.dedup (w.key_of t) t now)
  parse_balance {f} (finishes before behind wk key t d emit e i o) =
      let (st, n, s) = add_finish_seen f.dedup d key t emit o in
      omega (arith, present-insert k key f.dedup d _ s)
  parse_balance (sends_job before behind wk j e i r) = omega (arith, ap (carried k) i)
  parse_balance (drops_job before behind wk j e i d) = omega arith
  parse_balance (leaves before behind wk e i l) = omega arith
  parse_balance (closes_jobs o d e s n) = omega arith

  pace_balance :
      {f f' : Flow} (s : PaceStep w f f')
      → pace_made (ask_weights k) w s + present k f.dedup
        ≤ pace_spent (ask_weights k) w s + present k f'.dedup
  unfolding leave release
  pace_balance {f} (dispatches j rest c e) =
      omega (arith, weight-enqueue k (lookup j.host f.pacing.pacers) j)
  pace_balance (closes_pacers c d e) = omega arith
  pace_balance {f} (takes before behind host p j q e x h c l) =
      omega (arith, takes_jobs k f p j q h l c)
  pace_balance {f} (exits before behind host p e x h c l d) = omega (arith, exits_jobs k f p l d c)
  pace_balance (gives_up before behind host p e x c) = omega arith
  pace_balance (starves before behind host p j e x i c) = omega arith
  pace_balance (releases before behind host p j e x h r) =
      omega (arith, ap (λ o. sum_of (is_for k) (in_hand o)) h)
  pace_balance (closes_ready r c a) = omega arith

  exec_balance :
      {f f' : Flow} (s : ExecStep w f f')
      → exec_asks s + exec_made (ask_weights k) w s + present k f.dedup
        ≤ exec_spent (ask_weights k) w s + present k f'.dedup
  exec_balance (receives_job j rest e n) = omega arith
  exec_balance (executes j e r) = omega arith
  exec_balance (stores before behind j client now e) = omega arith
  exec_balance {f} (completes before behind j res d occs e g) =
      omega (arith, present-insert k j.key f.dedup d _ (complete_seen f.dedup d j.key res occs g))

  Step-asks :
      {f f' : Flow} (s : Step w f f')
      → asks s + tally (ask_weights k) f' + present k f.dedup
        ≤ tally (ask_weights k) f + present k f'.dedup
  Step-asks (crawls s) = omega (arith, CrawlStep-tally (ask_weights k) w s, crawl_balance s)
  Step-asks (parses s) = omega (arith, ParseStep-tally (ask_weights k) w s, parse_balance s)
  Step-asks (paces s) = omega (arith, PaceStep-tally (ask_weights k) w s, pace_balance s)
  Step-asks (works s) = omega (arith, ExecStep-tally (ask_weights k) w s, exec_balance s)
  Step-asks {f} (cancels u e) = rw e (omega arith)

  Reach-asks :
      {f f' : Flow} (r : Reach w f f')
      → checks r + tally (ask_weights k) f' + present k f.dedup
        ≤ tally (ask_weights k) f + present k f'.dedup
  Reach-asks here = omega arith
  Reach-asks (next r s) = omega (arith, Reach-asks r, Step-asks s)

  no_asks_yet : (srcs : List SrcItem) → sum_of (ask_weights k).crawl srcs ≡ 0
  no_asks_yet [] = refl
  no_asks_yet (src ∷ srcs) = omega (arith, no_asks_yet srcs)

  -- However the goroutines of `Run` interleave, cancelled or not, and however often links with one
  -- normalized URL stand in the sources: at most one check of it (HEAD and GET with their retries) is made in a run.
  pub checked_at_most_once :
      (srcs : List SrcItem) (fatal : Bool) (c : Cache) {f : Flow}
      (r : Reach w (start srcs fatal (new_dedup c)) f)
      → checks r ≤ 1
  unfolding new_dedup
  checked_at_most_once srcs fatal c {f} r =
      omega (arith, Reach-asks r, no_asks_yet srcs, present-le k f.dedup)
