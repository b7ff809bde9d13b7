-- ===== src/Pipeline/Flow/Tally.antt =====
-- internal/pipeline/pipeline.go: sums over all that a run has in flight, and what each step takes from such a
-- sum and adds to it.
use markdown_linkerator.Base.{
  ℕ, ◌+◌, ◌≡◌, ap, List, [], ◌∷◌, ◌++◌, arith, Text, or_else, lookup, sum_of, weight, sum_of-append,
  sum_of-middle, total, total-insert,
}
use markdown_linkerator.Model.{CheckJob}
use markdown_linkerator.Pipeline.Crawl.{SrcItem}
use markdown_linkerator.Pipeline.Dedup.{add_begin}
use markdown_linkerator.Pipeline.Pacer.{Pacer, new_pacer, enqueue, close, turn, release, leave}
use markdown_linkerator.Pipeline.Pacer.Hosts.{PacerSet, dispatch, close_each, close_all}
use markdown_linkerator.Pipeline.Flow.{
  Work, Flow, Worker, idle, Executor, checking, stored, opened_worker, open_worker, begun_stage,
  begin_target, in_context,
}
use markdown_linkerator.Pipeline.Flow.Steps.{
  CrawlStep, sends_file, ends_crawl, stops_crawl, ParseStep, receives_source, opens, reports,
  begins, finishes, sends_job, drops_job, leaves, closes_jobs, PaceStep, dispatches, closes_pacers,
  takes, exits, gives_up, starves, releases, closes_ready, ExecStep, receives_job, executes, stores,
  completes,
}

-- A weight for each place of a run. Closing a pacer leaves its weight as it is.
pub record Weights : Type 0 where
  pub crawl : SrcItem → ℕ
  pub file : SrcItem → ℕ
  pub held_source : SrcItem → ℕ
  pub worker : Worker → ℕ
  pub queued : CheckJob → ℕ
  pub pacer : Pacer → ℕ
  pub ready : CheckJob → ℕ
  pub held_job : CheckJob → ℕ
  pub executor : Executor → ℕ
  pub pacer_close : (p : Pacer) → pacer (close p) ≡ pacer p

abbrev pub tally : Weights → Flow → ℕ
tally κ f =
    sum_of κ.crawl f.to_crawl
    + sum_of κ.file f.files
    + weight κ.held_source f.source
    + sum_of κ.worker f.workers
    + sum_of κ.queued f.jobs
    + total κ.pacer f.pacing.pacers
    + sum_of κ.ready f.ready
    + weight κ.held_job f.job
    + sum_of κ.executor f.executors

total-close_each :
    (κ : Weights) (ps : List (Text × Pacer)) → total κ.pacer (close_each ps) ≡ total κ.pacer ps
unfolding close_each
total-close_each κ [] = omega arith
total-close_each κ ((host, p) ∷ ps) = omega (arith, κ.pacer_close p, total-close_each κ ps)

-- The host's pacer once it has the job.
abbrev pub enqueued : PacerSet → CheckJob → Pacer
enqueued s j = enqueue (or_else (lookup j.host s.pacers) new_pacer) j

moved :
    (κ : Weights) (f : Flow) (before behind : List (Text × Pacer)) (host : Text) (p q : Pacer)
    → f.pacing.pacers ≡ before ++ ((host, p) ∷ behind)
    → total κ.pacer (before ++ ((host, q) ∷ behind)) + κ.pacer p
      ≡ total κ.pacer f.pacing.pacers + κ.pacer q
moved κ f before behind host p q e = omega (
  arith,
  ap (total κ.pacer) e,
  sum_of-middle (λ (b : Text × Pacer). κ.pacer b.1) before (host, p) behind,
  sum_of-middle (λ (b : Text × Pacer). κ.pacer b.1) before (host, q) behind,
)

module _ (κ : Weights) (w : Work) {f : Flow} where
  abbrev pub crawl_spent : {f' : Flow} → CrawlStep w f f' → ℕ
  crawl_spent (sends_file src rest o e r) = κ.crawl src
  crawl_spent (ends_crawl o e) = 0
  crawl_spent (stops_crawl o c) = sum_of κ.crawl f.to_crawl

  abbrev pub crawl_made : {f' : Flow} → CrawlStep w f f' → ℕ
  crawl_made (sends_file src rest o e r) = κ.file src
  crawl_made (ends_crawl o e) = 0
  crawl_made (stops_crawl o c) = 0

  pub CrawlStep-tally :
      {f' : Flow} (s : CrawlStep w f f') → tally κ f' + crawl_spent s ≡ tally κ f + crawl_made s
  CrawlStep-tally (sends_file src rest o e r) =
      omega (arith, ap (sum_of κ.crawl) e, sum_of-append κ.file f.files (src ∷ []))
  CrawlStep-tally (ends_crawl o e) = omega arith
  CrawlStep-tally (stops_crawl o c) = omega arith

  abbrev pub parse_spent : {f' : Flow} → ParseStep w f f' → ℕ
  parse_spent (receives_source src rest e n) = κ.file src
  parse_spent (opens src e r) = κ.held_source src
  parse_spent (reports before behind wk t ts seen r e i l o) = κ.worker wk
  parse_spent (begins before behind wk t ts now e i l o) = κ.worker wk
  parse_spent (finishes before behind wk key t d emit e i o) = κ.worker wk
  parse_spent (sends_job before behind wk j e i r) = κ.worker wk
  parse_spent (drops_job before behind wk j e i c) = κ.worker wk
  parse_spent (leaves before behind wk e i l) = κ.worker wk
  parse_spent (closes_jobs o c e s n) = 0

  abbrev pub parse_made : {f' : Flow} → ParseStep w f f' → ℕ
  parse_made (receives_source src rest e n) = κ.held_source src
  parse_made (opens src e r) = κ.worker (opened_worker (w.open_source src))
  parse_made (reports before behind wk t ts seen r e i l o) = κ.worker (record wk { left = ts })
  parse_made (begins before behind wk t ts now e i l o) = κ.worker (record wk {
    left = ts;
    stage = begun_stage (w.key_of t) t (add_begin w.host_of f.dedup (w.key_of t) t now).1;
  })
  parse_made (finishes before behind wk key t d emit e i o) = κ.worker (record wk { stage = idle })
  parse_made (sends_job before behind wk j e i r) =
      κ.worker (record wk { stage = idle }) + κ.queued j
  parse_made (drops_job before behind wk j e i c) = κ.worker (record wk { stage = idle })
  parse_made (leaves before behind wk e i l) = 0
  parse_made (closes_jobs o c e s n) = 0

  pub ParseStep-tally :
      {f' : Flow} (s : ParseStep w f f') → tally κ f' + parse_spent s ≡ tally κ f + parse_made s
  unfolding open_worker begin_target
  ParseStep-tally (receives_source src rest e n) =
      omega (arith, ap (sum_of κ.file) e, ap (weight κ.held_source) n)
  ParseStep-tally (opens src e r) = omega (
    arith,
    ap (weight κ.held_source) e,
    sum_of-append κ.worker f.workers (opened_worker (w.open_source src) ∷ []),
  )
  ParseStep-tally (reports before behind wk t ts seen r e i l o) = omega (
    arith,
    ap (sum_of κ.worker) e,
    sum_of-middle κ.worker before wk behind,
    sum_of-middle κ.worker before (record wk { left = ts }) behind,
  )
  ParseStep-tally (begins before behind wk t ts now e i l o) = omega (
    arith,
    ap (sum_of κ.worker) e,
    sum_of-middle κ.worker before wk behind,
    sum_of-middle κ.worker before
        (record wk {
          left = ts;
          stage = begun_stage (w.key_of t) t (add_begin w.host_of f.dedup (w.key_of t) t now).1;
        })
        behind,
  )
  ParseStep-tally (finishes before behind wk key t d emit e i o) = omega (
    arith,
    ap (sum_of κ.worker) e,
    sum_of-middle κ.worker before wk behind,
    sum_of-middle κ.worker before (record wk { stage = idle }) behind,
  )
  ParseStep-tally (sends_job before behind wk j e i r) = omega (
    arith,
    ap (sum_of κ.worker) e,
    sum_of-middle κ.worker before wk behind,
    sum_of-middle κ.worker before (record wk { stage = idle }) behind,
    sum_of-append κ.queued f.jobs (j ∷ []),
  )
  ParseStep-tally (drops_job before behind wk j e i c) = omega (
    arith,
    ap (sum_of κ.worker) e,
    sum_of-middle κ.worker before wk behind,
    sum_of-middle κ.worker before (record wk { stage = idle }) behind,
  )
  ParseStep-tally (leaves before behind wk e i l) = omega (
    arith,
    ap (sum_of κ.worker) e,
    sum_of-middle κ.worker before wk behind,
    sum_of-append κ.worker before behind,
  )
  ParseStep-tally (closes_jobs o c e s n) = omega arith

  abbrev pub pace_spent : {f' : Flow} → PaceStep w f f' → ℕ
  pace_spent (dispatches j rest c e) = κ.queued j + weight κ.pacer (lookup j.host f.pacing.pacers)
  pace_spent (closes_pacers c d e) = 0
  pace_spent (takes before behind host p j q e x h c l) = κ.pacer p
  pace_spent (exits before behind host p e x h c l d) = κ.pacer p
  pace_spent (gives_up before behind host p e x c) = κ.pacer p
  pace_spent (starves before behind host p j e x i c) = κ.pacer p
  pace_spent (releases before behind host p j e x h r) = κ.pacer p
  pace_spent (closes_ready r c a) = 0

  abbrev pub pace_made : {f' : Flow} → PaceStep w f f' → ℕ
  pace_made (dispatches j rest c e) = κ.pacer (enqueued f.pacing j)
  pace_made (closes_pacers c d e) = 0
  pace_made (takes before behind host p j q e x h c l) = κ.pacer (turn (in_context f p))
  pace_made (exits before behind host p e x h c l d) = κ.pacer (turn (in_context f p))
  pace_made (gives_up before behind host p e x c) = κ.pacer (leave (in_context f p))
  pace_made (starves before behind host p j e x i c) = κ.pacer (leave (in_context f p))
  pace_made (releases before behind host p j e x h r) = κ.pacer (release p j) + κ.ready j
  pace_made (closes_ready r c a) = 0

  pub PaceStep-tally :
      {f' : Flow} (s : PaceStep w f f') → tally κ f' + pace_spent s ≡ tally κ f + pace_made s
  unfolding dispatch close_all
  PaceStep-tally (dispatches j rest c e) = omega (
    arith,
    ap (sum_of κ.queued) e,
    total-insert κ.pacer j.host (enqueued f.pacing j) f.pacing.pacers,
  )
  PaceStep-tally (closes_pacers c d e) = omega (arith, total-close_each κ f.pacing.pacers)
  PaceStep-tally (takes before behind host p j q e x h c l) =
      omega (arith, moved κ f before behind host p (turn (in_context f p)) e)
  PaceStep-tally (exits before behind host p e x h c l d) =
      omega (arith, moved κ f before behind host p (turn (in_context f p)) e)
  PaceStep-tally (gives_up before behind host p e x c) =
      omega (arith, moved κ f before behind host p (leave (in_context f p)) e)
  PaceStep-tally (starves before behind host p j e x i c) =
      omega (arith, moved κ f before behind host p (leave (in_context f p)) e)
  PaceStep-tally (releases before behind host p j e x h r) = omega (
    arith,
    moved κ f before behind host p (release p j) e,
    sum_of-append κ.ready f.ready (j ∷ []),
  )
  PaceStep-tally (closes_ready r c a) = omega arith

  abbrev pub exec_spent : {f' : Flow} → ExecStep w f f' → ℕ
  exec_spent (receives_job j rest e n) = κ.ready j
  exec_spent (executes j e r) = κ.held_job j
  exec_spent (stores before behind j client now e) = κ.executor (checking j)
  exec_spent (completes before behind j res d occs e c) = κ.executor (stored j res)

  abbrev pub exec_made : {f' : Flow} → ExecStep w f f' → ℕ
  exec_made (receives_job j rest e n) = κ.held_job j
  exec_made (executes j e r) = κ.executor (checking j)
  exec_made (stores before behind j client now e) = κ.executor (stored j (w.answer client j))
  exec_made (completes before behind j res d occs e c) = 0

  pub ExecStep-tally :
      {f' : Flow} (s : ExecStep w f f') → tally κ f' + exec_spent s ≡ tally κ f + exec_made s
  ExecStep-tally (receives_job j rest e n) =
      omega (arith, ap (sum_of κ.ready) e, ap (weight κ.held_job) n)
  ExecStep-tally (executes j e r) =
      omega
        (arith, ap (weight κ.held_job) e, sum_of-append κ.executor f.executors (checking j ∷ []))
  ExecStep-tally (stores before behind j client now e) = omega (
    arith,
    ap (sum_of κ.executor) e,
    sum_of-middle κ.executor before (checking j) behind,
    sum_of-middle κ.executor before (stored j (w.answer client j)) behind,
  )
  ExecStep-tally (completes before behind j res d occs e c) = omega (
    arith,
    ap (sum_of κ.executor) e,
    sum_of-middle κ.executor before (stored j res) behind,
    sum_of-append κ.executor before behind,
  )
