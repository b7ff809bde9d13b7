-- ===== src/Pipeline/Flow/Errors.antt =====
-- internal/pipeline/pipeline.go: the source errors of a run, and why its context is cancelled.
use markdown_linkerator.Base.{
  ℕ, ◌+◌, ◌≡◌, refl, Bool, true, false, Option, none, some, arith, weight, lookup,
}
use markdown_linkerator.Pipeline.Crawl.{SrcItem}
use markdown_linkerator.Pipeline.Pacer.{Pacer}
use markdown_linkerator.Pipeline.Flow.{
  Work, Flow, Opened, refused, parsed, opened_errors, open_worker, begin_target,
}
use markdown_linkerator.Pipeline.Flow.Steps.{
  CrawlStep, sends_file, ends_crawl, stops_crawl, ParseStep, receives_source, opens, reports,
  begins, finishes, sends_job, drops_job, leaves, closes_jobs, PaceStep, dispatches, closes_pacers,
  takes, exits, gives_up, starves, releases, closes_ready, ExecStep, receives_job, executes, stores,
  completes, Step, crawls, parses, paces, works, cancels, Reach, here, next,
}
use markdown_linkerator.Pipeline.Flow.Tally.{
  Weights, tally, crawl_made, crawl_spent, parse_made, parse_spent, pace_made, pace_spent,
  exec_made, exec_spent, CrawlStep-tally, ParseStep-tally, PaceStep-tally, ExecStep-tally,
}

-- Whether a source cannot be read.
abbrev pub refused_count : Opened → ℕ
refused_count (refused r) = 1
refused_count (parsed ts anchors) = 0

opened_errors-refused_count : (o : Opened) → opened_errors o ≡ refused_count o
opened_errors-refused_count (refused r) = refl
opened_errors-refused_count (parsed ts anchors) = refl

module _ (w : Work) where
  abbrev pub source_refusals : SrcItem → ℕ
  source_refusals src = refused_count (w.open_source src)

  -- The sources that cannot be read and are not counted yet.
  abbrev pub refusal_weights : Weights
  refusal_weights = record {
    crawl = source_refusals;
    file = source_refusals;
    held_source = source_refusals;
    worker = λ wk. 0;
    queued = λ j. 0;
    pacer = λ x. 0;
    ready = λ j. 0;
    held_job = λ j. 0;
    executor = λ x. 0;
    pacer_close = λ x. refl;
  }

  abbrev pub refusals : Flow → ℕ
  refusals f = tally refusal_weights f + f.source_errors

  crawl_balance :
      {f f' : Flow} (s : CrawlStep w f f')
      → f'.cancelled ≡ false
      → crawl_made refusal_weights w s + f'.source_errors
        ≡ crawl_spent refusal_weights w s + f.source_errors
  crawl_balance (sends_file src rest o e r) c = omega arith
  crawl_balance (ends_crawl o e) c = omega arith
  crawl_balance (stops_crawl o d) c = absurd (ground arith)

  parse_balance :
      {f f' : Flow} (s : ParseStep w f f')
      → parse_made refusal_weights w s + f'.source_errors
        ≡ parse_spent refusal_weights w s + f.source_errors
  unfolding open_worker begin_target
  parse_balance (receives_source src rest e n) = omega arith
  parse_balance (opens src e r) = omega (arith, opened_errors-refused_count (w.open_source src))
  parse_balance (reports before behind wk t ts seen r e i l o) = omega arith
  parse_balance (begins before behind wk t ts now e i l o) = omega arith
  parse_balance (finishes before behind wk key t d emit e i o) = omega arith
  parse_balance (sends_job before behind wk j e i r) = omega arith
  parse_balance (drops_job before behind wk j e i d) = omega arith
  parse_balance (leaves before behind wk e i l) = omega arith
  parse_balance (closes_jobs o d e s n) = omega arith

  weightless : (o : Option Pacer) → weight (λ (x : Pacer). 0) o ≡ 0
  weightless none = omega arith
  weightless (some x) = omega arith

  pace_balance :
      {f f' : Flow} (s : PaceStep w f f')
      → pace_made refusal_weights w s + f'.source_errors
        ≡ pace_spent refusal_weights w s + f.source_errors
  pace_balance {f} (dispatches j rest c e) =
      omega (arith, weightless (lookup j.host f.pacing.pacers))
  pace_balance (closes_pacers c d e) = omega arith
  pace_balance (takes before behind host x j q e y h c l) = omega arith
  pace_balance (exits before behind host x e y h c l d) = omega arith
  pace_balance (gives_up before behind host x e y c) = omega arith
  pace_balance (starves before behind host x j e y i c) = omega arith
  pace_balance (releases before behind host x j e y h r) = omega arith
  pace_balance (closes_ready r c a) = omega arith

  exec_balance :
      {f f' : Flow} (s : ExecStep w f f')
      → exec_made refusal_weights w s + f'.source_errors
        ≡ exec_spent refusal_weights w s + f.source_errors
  exec_balance (receives_job j rest e n) = omega arith
  exec_balance (executes j e r) = omega arith
  exec_balance (stores before behind j client now e) = omega arith
  exec_balance (completes before behind j res d occs e g) = omega arith

  pub Step-refusals : {f f' : Flow} → Step w f f' → f'.cancelled ≡ false → refusals f' ≡ refusals f
  Step-refusals (crawls s) c = omega (arith, CrawlStep-tally refusal_weights w s, crawl_balance s c)
  Step-refusals (parses s) c = omega (arith, ParseStep-tally refusal_weights w s, parse_balance s)
  Step-refusals (paces s) c = omega (arith, PaceStep-tally refusal_weights w s, pace_balance s)
  Step-refusals (works s) c = omega (arith, ExecStep-tally refusal_weights w s, exec_balance s)
  Step-refusals (cancels o e) c = absurd (ground arith)

  -- The stages' context is cancelled by the caller or by the crawl, and a crawl that has ended with no error
  -- had none to end with; no pacer runs into a deadline where there is none.
  abbrev pub HasCause : Bool → Flow → Type 0
  HasCause fatal f =
      (f.interrupted ≡ false → f.crawl_failed ≡ false → f.cancelled ≡ false)
      × (f.files_closed ≡ true → f.crawl_failed ≡ false → fatal ≡ false)
      × (f.fatal ≡ fatal)
      × (w.deadline ≡ false → f.starved ≡ false)

  crawl_cause :
      (fatal : Bool) {f f' : Flow} → CrawlStep w f f' → HasCause fatal f → HasCause fatal f'
  crawl_cause fatal (sends_file src rest o e r) h = h
  crawl_cause fatal (ends_crawl o e) h =
      (λ i c. ground (arith, h.0 i), λ x c. ground (arith, h.2), h.2, h.3)
  crawl_cause fatal (stops_crawl o d) h =
      (λ i c. absurd (ground arith), λ x c. absurd (ground arith), h.2, h.3)

  parse_cause :
      (fatal : Bool) {f f' : Flow} → ParseStep w f f' → HasCause fatal f → HasCause fatal f'
  unfolding open_worker begin_target
  parse_cause fatal (receives_source src rest e n) h = h
  parse_cause fatal (opens src e r) h = h
  parse_cause fatal (reports before behind wk t ts seen r e i l o) h = h
  parse_cause fatal (begins before behind wk t ts now e i l o) h = h
  parse_cause fatal (finishes before behind wk key t d emit e i o) h = h
  parse_cause fatal (sends_job before behind wk j e i r) h = h
  parse_cause fatal (drops_job before behind wk j e i d) h = h
  parse_cause fatal (leaves before behind wk e i l) h = h
  parse_cause fatal (closes_jobs o d e s n) h = h

  pace_cause : (fatal : Bool) {f f' : Flow} → PaceStep w f f' → HasCause fatal f → HasCause fatal f'
  pace_cause fatal (dispatches j rest c e) h = h
  pace_cause fatal (closes_pacers c d e) h = h
  pace_cause fatal (takes before behind host x j q e y i c l) h = h
  pace_cause fatal (exits before behind host x e y i c l d) h = h
  pace_cause fatal (gives_up before behind host x e y c) h = h
  pace_cause fatal (starves before behind host x j e y i c) h =
      (h.0, h.1, h.2, λ n. absurd (ground arith))
  pace_cause fatal (releases before behind host x j e y i r) h = h
  pace_cause fatal (closes_ready r c a) h = h

  exec_cause : (fatal : Bool) {f f' : Flow} → ExecStep w f f' → HasCause fatal f → HasCause fatal f'
  exec_cause fatal (receives_job j rest e n) h = h
  exec_cause fatal (executes j e r) h = h
  exec_cause fatal (stores before behind j client now e) h = h
  exec_cause fatal (completes before behind j res d occs e g) h = h

  Step-HasCause : (fatal : Bool) {f f' : Flow} → Step w f f' → HasCause fatal f → HasCause fatal f'
  Step-HasCause fatal (crawls s) h = crawl_cause fatal s h
  Step-HasCause fatal (parses s) h = parse_cause fatal s h
  Step-HasCause fatal (paces s) h = pace_cause fatal s h
  Step-HasCause fatal (works s) h = exec_cause fatal s h
  Step-HasCause fatal {f} (cancels u e) h = rw e (λ i c. absurd (ground arith), h.1, h.2, h.3)

  pub Reach-HasCause :
      (fatal : Bool) {f f' : Flow} → HasCause fatal f → Reach w f f' → HasCause fatal f'
  Reach-HasCause fatal h here = h
  Reach-HasCause fatal h (next r s) = Step-HasCause fatal s (Reach-HasCause fatal h r)
