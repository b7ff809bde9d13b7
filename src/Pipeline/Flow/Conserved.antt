-- ===== src/Pipeline/Flow/Conserved.antt =====
-- internal/pipeline/pipeline.go: where the links of a run are, at any moment.
use markdown_linkerator.Base.{
  ℕ, ◌+◌, ◌≡◌, refl, ap, inl, inr, Bool, true, false, none, some, List, [], ◌∷◌, arith, count,
  count-append, Option, weight, Text, lookup, ℤ, Option-cases,
}
use markdown_linkerator.Model.{Target, Result, zero_result}
use markdown_linkerator.Cache
use markdown_linkerator.Cache.{Entry}
use markdown_linkerator.Pipeline.Crawl.{SrcItem}
use markdown_linkerator.Pipeline.Dedup.{
  UrlState, Dedup, add_begin, fan_out, result_for, result_from_cache, zero_target,
}
use markdown_linkerator.Pipeline.Dedup.Once.{
  for_target, stored, stored-insert, stored-finish, stored-complete, count-fan_out,
}
use markdown_linkerator.Pipeline.Pacer.{Pacer}
use markdown_linkerator.Pipeline.Flow.{
  Work, Flow, Stage, idle, between, sending, Opened, refused, parsed, opened_worker, opened_results,
  open_worker, begun_stage, begun_results, begin_target,
}
use markdown_linkerator.Pipeline.Flow.Steps.{
  CrawlStep, sends_file, ends_crawl, stops_crawl, ParseStep, receives_source, opens, reports,
  begins, finishes, sends_job, drops_job, leaves, closes_jobs, PaceStep, dispatches, closes_pacers,
  takes, exits, gives_up, starves, releases, closes_ready, ExecStep, receives_job, executes, stores,
  completes, Step, crawls, parses, paces, works, cancels,
}
use markdown_linkerator.Pipeline.Flow.Tally.{
  Weights, tally, crawl_made, crawl_spent, parse_made, parse_spent, pace_made, pace_spent,
  exec_made, exec_spent, CrawlStep-tally, ParseStep-tally, PaceStep-tally, ExecStep-tally,
}

-- The links that a source brings: its targets, or itself when it cannot be read.
abbrev pub links_of : Opened → List Target
links_of (refused r) = r.target ∷ []
links_of (parsed ts anchors) = ts

abbrev waits : (Target → Bool) → Stage → ℕ
waits p idle = 0
waits p (between key t) = count p (t ∷ [])
waits p (sending j) = 0

module _ (w : Work) (p : Target → Bool) where
  abbrev source_links : SrcItem → ℕ
  source_links src = count p (links_of (w.open_source src))

  abbrev pub link_weights : Weights
  link_weights = record {
    crawl = source_links;
    file = source_links;
    held_source = source_links;
    worker = λ wk. count p wk.left + waits p wk.stage;
    queued = λ j. 0;
    pacer = λ x. 0;
    ready = λ j. 0;
    held_job = λ j. 0;
    executor = λ x. 0;
    pacer_close = λ x. refl;
  }

  -- The links still to be handled, those that wait in the table, and those reported.
  abbrev pub links : Flow → ℕ
  links f = tally link_weights f + count (for_target p) f.results + stored p f.dedup.seen

  opened_links :
      (o : Opened)
      → count p (opened_worker o).left
          + waits p (opened_worker o).stage
          + count (for_target p) (opened_results o)
        ≡ count p (links_of o)
  opened_links (refused r) = ground arith
  opened_links (parsed ts anchors) = ground arith

  begun_links :
      (d : Dedup) (key : Text) (t : Target) (now : ℤ)
      → stored p (add_begin w.host_of d key t now).0.seen
          + count (for_target p) (begun_results (add_begin w.host_of d key t now).1)
          + waits p (begun_stage key t (add_begin w.host_of d key t now).1)
        ≡ stored p d.seen + count p (t ∷ [])
  unfolding add_begin result_for
  begun_links d key t now = elim (Option-cases (lookup key d.seen)) [
    | inr (st, e) ↦ ground arith
    | inl e ↦ elim (Option-cases (Cache.get d.cache key now)) [
      | inr (ent, g) ↦ ground (arith, stored-insert p key (cached ent) d.seen)
      | inl g ↦ ground (arith, stored-insert p key fresh d.seen)
    ]
  ]
    where
      cached : Entry → UrlState
      cached ent = record { done = true; result = result_from_cache w.host_of t ent; occs = [] }

      fresh : UrlState
      fresh = record { done = false; result = zero_result zero_target; occs = t ∷ [] }

  one_result : (r : Result) → count (for_target p) (r ∷ []) ≡ count p (r.target ∷ [])
  one_result r = ground arith

  count_cons : (t : Target) (ts : List Target) → count p (t ∷ ts) ≡ count p (t ∷ []) + count p ts
  count_cons t ts = ground arith

  -- Those reported and those that wait in the table.
  abbrev settled : Flow → ℕ
  settled f = count (for_target p) f.results + stored p f.dedup.seen

  crawl_balance :
      {f f' : Flow} (s : CrawlStep w f f')
      → f'.cancelled ≡ false
      → crawl_made link_weights w s + settled f' ≡ crawl_spent link_weights w s + settled f
  crawl_balance (sends_file src rest o e r) c = omega arith
  crawl_balance (ends_crawl o e) c = omega arith
  crawl_balance (stops_crawl o d) c = absurd (ground arith)

  parse_balance :
      {f f' : Flow} (s : ParseStep w f f')
      → f'.cancelled ≡ false
      → parse_made link_weights w s + settled f' ≡ parse_spent link_weights w s + settled f
  unfolding open_worker begin_target
  parse_balance (receives_source src rest e n) c = omega arith
  parse_balance {f} (opens src e r) c = omega (
    arith,
    opened_links (w.open_source src),
    count-append (for_target p) f.results (opened_results (w.open_source src)),
  )
  parse_balance {f} (reports before behind wk t ts seen r e i l o) c = omega (
    arith,
    ap (count p) l,
    count_cons t ts,
    ap (λ x. count p (x ∷ [])) (w.offline_target wk.anchors f.anchor_cache seen t r o),
    one_result r,
    count-append (for_target p) f.results (r ∷ []),
  )
  parse_balance {f} (begins before behind wk t ts now e i l o) c = omega (
    arith,
    ap (count p) l,
    ap (waits p) i,
    count_cons t ts,
    begun_links f.dedup (w.key_of t) t now,
    count-append (for_target p) f.results
        (begun_results (add_begin w.host_of f.dedup (w.key_of t) t now).1),
  )
  parse_balance {f} (finishes before behind wk key t d emit e i o) c = omega (
    arith,
    ap (waits p) i,
    stored-finish w.host_of p f.dedup d key t emit o,
    count-append (for_target p) f.results emit,
  )
  parse_balance (sends_job before behind wk j e i r) c = omega (arith, ap (waits p) i)
  parse_balance (drops_job before behind wk j e i d) c = absurd (ground arith)
  parse_balance (leaves before behind wk e i l) c = omega (arith, ap (waits p) i, ap (count p) l)
  parse_balance (closes_jobs o d e s n) c = omega arith

  weightless : (o : Option Pacer) → weight (λ (x : Pacer). 0) o ≡ 0
  weightless none = omega arith
  weightless (some x) = omega arith

  -- Jobs carry no links: their occurrences wait in the table.
  pace_balance :
      {f f' : Flow} (s : PaceStep w f f')
      → pace_made link_weights w s + settled f' ≡ pace_spent link_weights w s + settled f
  pace_balance {f} (dispatches j rest c e) =
      omega (arith, weightless (lookup j.host f.pacing.pacers))
  pace_balance (closes_pacers c d e) = omega arith
  pace_balance (takes before behind host x j q e y h c l) = omega arith
  pace_balance (exits before behind host x e y h c l d) = omega arith
  pace_balance (gives_up before behind host x e y c) = omega arith
  pace_balance (starves before behind host x j e y i c) = omega arith
  pace_balance (releases before behind host x j e y h r) = omega arith
  pace_balance (closes_ready r c a) = omega arith

  exec_balance :
      {f f' : Flow} (s : ExecStep w f f')
      → exec_made link_weights w s + settled f' ≡ exec_spent link_weights w s + settled f
  exec_balance (receives_job j rest e n) = omega arith
  exec_balance (executes j e r) = omega arith
  exec_balance (stores before behind j client now e) = omega arith
  exec_balance {f} (completes before behind j res d occs e g) = omega (
    arith,
    stored-complete w.host_of p f.dedup d j.key res occs g,
    count-fan_out p res false occs,
    count-append (for_target p) f.results (fan_out res false occs),
  )

  -- No step of a run that is not cancelled loses a link or makes one.
  pub Step-links : {f f' : Flow} → Step w f f' → f'.cancelled ≡ false → links f' ≡ links f
  Step-links (crawls s) c = omega (arith, CrawlStep-tally link_weights w s, crawl_balance s c)
  Step-links (parses s) c = omega (arith, ParseStep-tally link_weights w s, parse_balance s c)
  Step-links (paces s) c = omega (arith, PaceStep-tally link_weights w s, pace_balance s)
  Step-links (works s) c = omega (arith, ExecStep-tally link_weights w s, exec_balance s)
  Step-links (cancels o e) c = absurd (ground arith)
