-- ===== src/Pipeline/Flow/Known.antt =====
-- internal/pipeline/pipeline.go: every job, and every worker between the two locks, has its URL in the table.
use markdown_linkerator.Base.{
  ℕ, ◌≡◌, ◌≤◌, refl, ap, inl, inr, true, false, none, some, List, [], ◌∷◌, arith, if◌then◌else◌,
  Text, text_eq, text_eq_iff, lookup, lookup-insert, sum_of, ℤ, Option-cases,
}
use markdown_linkerator.Model.{Target, Result, zero_result}
use markdown_linkerator.Cache
use markdown_linkerator.Pipeline.Dedup.{
  Dedup, UrlState, add_begin, add_finish, complete, finish_on, result_from_cache, zero_target,
}
use markdown_linkerator.Pipeline.Dedup.Settled.{add_finish_seen, complete_seen}
use markdown_linkerator.Pipeline.Pacer.{leave, release}
use markdown_linkerator.Pipeline.Pacer.Drain.{in_hand}
use markdown_linkerator.Pipeline.Flow.{
  Work, Flow, Stage, idle, between, sending, Opened, refused, parsed, opened_worker, open_worker,
  begun_stage, begin_target,
}
use markdown_linkerator.Pipeline.Flow.Steps.{
  CrawlStep, sends_file, ends_crawl, stops_crawl, ParseStep, receives_source, opens, reports,
  begins, finishes, sends_job, drops_job, leaves, closes_jobs, PaceStep, dispatches, closes_pacers,
  takes, exits, gives_up, starves, releases, closes_ready, ExecStep, receives_job, executes, stores,
  completes, Step, crawls, parses, paces, works, cancels, Reach, here, next,
}
use markdown_linkerator.Pipeline.Flow.InFlight.{
  is_for, job_weights, weight-enqueue, takes_jobs, exits_jobs,
}
use markdown_linkerator.Pipeline.Flow.Tally.{
  Weights, tally, crawl_made, crawl_spent, parse_made, parse_spent, pace_made, pace_spent,
  exec_made, exec_spent, CrawlStep-tally, ParseStep-tally, PaceStep-tally, ExecStep-tally,
}

abbrev pub relies : Text → Stage → ℕ
relies k idle = 0
relies k (between key t) = if text_eq key k then 1 else 0
relies k (sending j) = is_for k j

-- What relies on one URL's entry.
abbrev pub use_weights : Text → Weights
use_weights k = record (job_weights k) { worker = λ wk. relies k wk.stage }

-- A URL that is not in the table is not in use.
abbrev pub IsKnown : Text → Flow → Type 0
IsKnown k f = lookup k f.dedup.seen ≡ none → tally (use_weights k) f ≡ 0

module _ (k : Text) where
  begun_known :
      (host_of : Text → Text) (d : Dedup) (key : Text) (t : Target) (now : ℤ)
      → lookup k (add_begin host_of d key t now).0.seen ≡ none
      → (lookup k d.seen ≡ none)
        × (relies k (begun_stage key t (add_begin host_of d key t now).1) ≡ 0)
  unfolding add_begin
  begun_known host_of d key t now = elim (Option-cases (lookup key d.seen)) [
    | inr (st, e) ↦ λ n. (ground arith, ground (arith, text_eq_iff key k))
    | inl e ↦ elim (Option-cases (Cache.get d.cache key now)) [
      | inr (ent, g) ↦ λ n. (
        ground (
          arith,
          lookup-insert key k
              (record { done = true; result = result_from_cache host_of t ent; occs = [] }) d.seen,
        ),
        ground arith,
      )
      | inl g ↦
          let fresh : UrlState = record {
            done = false;
            result = zero_result zero_target;
            occs = t ∷ [];
          } in
          λ n. (
            ground (arith, lookup-insert key k fresh d.seen),
            ground (arith, lookup-insert key k fresh d.seen),
          )
    ]
  ]

  finish_known :
      (d d' : Dedup) (key : Text) (t : Target) (emit : List Result)
      → add_finish d key t ≡ some (d', emit)
      → lookup k d'.seen ≡ none
      → lookup k d.seen ≡ none
  finish_known d d' key t emit e n =
      let (st, m, s) = add_finish_seen d d' key t emit e in
      ground (arith, lookup-insert key k (finish_on st t).0 d.seen)

  complete_known :
      (d d' : Dedup) (key : Text) (res : Result) (occs : List Target)
      → complete d key res ≡ some (d', occs)
      → lookup k d'.seen ≡ none
      → lookup k d.seen ≡ none
  complete_known d d' key res occs e n = ground (
    arith,
    complete_seen d d' key res occs e,
    lookup-insert key k (record { done = true; result = res; occs = [] }) d.seen,
  )

  opened_relies : (o : Opened) → relies k (opened_worker o).stage ≡ 0
  opened_relies (refused r) = refl
  opened_relies (parsed ts anchors) = refl

module _ (w : Work) (k : Text) where
  crawl_uses :
      {f f' : Flow} (s : CrawlStep w f f')
      → lookup k f'.dedup.seen ≡ none
      → (lookup k f.dedup.seen ≡ none)
        × (crawl_made (use_weights k) w s ≤ crawl_spent (use_weights k) w s)
  crawl_uses (sends_file src rest o e r) n = (n, omega arith)
  crawl_uses (ends_crawl o e) n = (n, omega arith)
  crawl_uses (stops_crawl o d) n = (n, omega arith)

  parse_uses :
      {f f' : Flow} (s : ParseStep w f f')
      → lookup k f'.dedup.seen ≡ none
      → (lookup k f.dedup.seen ≡ none)
        × (parse_made (use_weights k) w s ≤ parse_spent (use_weights k) w s)
  unfolding open_worker begin_target
  parse_uses (receives_source src rest e n) x = (x, omega arith)
  parse_uses (opens src e r) x = (x, omega (arith, opened_relies k (w.open_source src)))
  parse_uses (reports before behind wk t ts seen r e i l o) x = (x, omega arith)
  parse_uses {f} (begins before behind wk t ts now e i l o) x =
      let y = begun_known k w.host_of f.dedup (w.key_of t) t now x in (y.0, omega (arith, y.1))
  parse_uses {f} (finishes before behind wk key t d emit e i o) x =
      (finish_known k f.dedup d key t emit o x, omega arith)
  parse_uses (sends_job before behind wk j e i r) x = (x, omega (arith, ap (relies k) i))
  parse_uses (drops_job before behind wk j e i d) x = (x, omega arith)
  parse_uses (leaves before behind wk e i l) x = (x, omega arith)
  parse_uses (closes_jobs o d e s n) x = (x, omega arith)

  pace_uses :
      {f f' : Flow} (s : PaceStep w f f')
      → lookup k f'.dedup.seen ≡ none
      → (lookup k f.dedup.seen ≡ none)
        × (pace_made (use_weights k) w s ≤ pace_spent (use_weights k) w s)
  unfolding leave release
  pace_uses {f} (dispatches j rest c e) x =
      (x, omega (arith, weight-enqueue k (lookup j.host f.pacing.pacers) j))
  pace_uses (closes_pacers c d e) x = (x, omega arith)
  pace_uses {f} (takes before behind host p j q e y h c l) x =
      (x, omega (arith, takes_jobs k f p j q h l c))
  pace_uses {f} (exits before behind host p e y h c l d) x =
      (x, omega (arith, exits_jobs k f p l d c))
  pace_uses (gives_up before behind host p e y c) x = (x, omega arith)
  pace_uses (starves before behind host p j e y i c) x = (x, omega arith)
  pace_uses (releases before behind host p j e y h r) x =
      (x, omega (arith, ap (λ o. sum_of (is_for k) (in_hand o)) h))
  pace_uses (closes_ready r c a) x = (x, omega arith)

  exec_uses :
      {f f' : Flow} (s : ExecStep w f f')
      → lookup k f'.dedup.seen ≡ none
      → (lookup k f.dedup.seen ≡ none)
        × (exec_made (use_weights k) w s ≤ exec_spent (use_weights k) w s)
  exec_uses (receives_job j rest e n) x = (x, omega arith)
  exec_uses (executes j e r) x = (x, omega arith)
  exec_uses (stores before behind j client now e) x = (x, omega arith)
  exec_uses {f} (completes before behind j res d occs e g) x =
      (complete_known k f.dedup d j.key res occs g x, omega arith)

  Step-IsKnown : {f f' : Flow} → Step w f f' → IsKnown k f → IsKnown k f'
  Step-IsKnown (crawls s) h x =
      let (n, le) = crawl_uses s x in omega (arith, h n, CrawlStep-tally (use_weights k) w s)
  Step-IsKnown (parses s) h x =
      let (n, le) = parse_uses s x in omega (arith, h n, ParseStep-tally (use_weights k) w s)
  Step-IsKnown (paces s) h x =
      let (n, le) = pace_uses s x in omega (arith, h n, PaceStep-tally (use_weights k) w s)
  Step-IsKnown (works s) h x =
      let (n, le) = exec_uses s x in omega (arith, h n, ExecStep-tally (use_weights k) w s)
  Step-IsKnown {f} (cancels o e) h x = rw e (h (rw e at x))

  pub Reach-IsKnown : {f f' : Flow} → IsKnown k f → Reach w f f' → IsKnown k f'
  Reach-IsKnown h here = h
  Reach-IsKnown h (next r s) = Step-IsKnown s (Reach-IsKnown h r)
