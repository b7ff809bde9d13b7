-- ===== src/Pipeline/Flow/Reported.antt =====
-- internal/pipeline/pipeline.go: what the collector has when `Run` returns.
use markdown_linkerator.Base.{
  ◌≡◌, refl, ap, Bool, true, false, List, [], ◌∷◌, ◌++◌, arith, count, count-append, Text, lookup,
  AllValues, AllValues_of_lookup, sum_of, total, weight,
}
use markdown_linkerator.Model.{Target}
use markdown_linkerator.Cache.{Cache}
use markdown_linkerator.Pipeline.Crawl.{SrcItem}
use markdown_linkerator.Pipeline.Dedup.{UrlState, Dedup, new_dedup}
use markdown_linkerator.Pipeline.Dedup.Once.{for_target}
use markdown_linkerator.Pipeline.Dedup.Settled.{stored_of_drained}
use markdown_linkerator.Pipeline.Pacer.{Pacer}
use markdown_linkerator.Pipeline.Pacer.Drain.{in_hand}
use markdown_linkerator.Pipeline.Flow.{Work, Flow, start, Finished, open_worker, begin_target}
use markdown_linkerator.Pipeline.Flow.Steps.{
  CrawlStep, sends_file, ends_crawl, stops_crawl, ParseStep, receives_source, opens, reports,
  begins, finishes, sends_job, drops_job, leaves, closes_jobs, PaceStep, dispatches, closes_pacers,
  takes, exits, gives_up, starves, releases, closes_ready, ExecStep, receives_job, executes, stores,
  completes, Step, crawls, parses, paces, works, cancels, Reach, here, next,
}
use markdown_linkerator.Pipeline.Flow.Tally.{Weights, tally}
use markdown_linkerator.Pipeline.Flow.Conserved.{links_of, link_weights, links, Step-links}
use markdown_linkerator.Pipeline.Flow.Table.{IsTidy, Step-IsTidy}
use markdown_linkerator.Pipeline.Flow.InFlight.{
  is_for, pacer_jobs, job_weights, HasJob, Step-HasJob,
}
use markdown_linkerator.Pipeline.Flow.Closing.{IsCalm, IsOrderly}
use markdown_linkerator.Pipeline.Flow.Closing.Pacers.{Step-IsOrderly}

-- The links of all sources, in the order of the crawl.
abbrev pub all_links : Work → List SrcItem → List Target
all_links w [] = []
all_links w (src ∷ srcs) = links_of (w.open_source src) ++ all_links w srcs

module _ (w : Work) where
  CrawlStep-cancelled :
      {f f' : Flow} → CrawlStep w f f' → f'.cancelled ≡ false → f.cancelled ≡ false
  CrawlStep-cancelled (sends_file src rest o e r) c = c
  CrawlStep-cancelled (ends_crawl o e) c = ground arith
  CrawlStep-cancelled (stops_crawl o d) c = c

  ParseStep-cancelled : {f f' : Flow} → ParseStep w f f' → f'.cancelled ≡ f.cancelled
  unfolding open_worker begin_target
  ParseStep-cancelled (receives_source src rest e n) = refl
  ParseStep-cancelled (opens src e r) = refl
  ParseStep-cancelled (reports before behind wk t ts seen r e i l o) = refl
  ParseStep-cancelled (begins before behind wk t ts now e i l o) = refl
  ParseStep-cancelled (finishes before behind wk key t d emit e i o) = refl
  ParseStep-cancelled (sends_job before behind wk j e i r) = refl
  ParseStep-cancelled (drops_job before behind wk j e i d) = refl
  ParseStep-cancelled (leaves before behind wk e i l) = refl
  ParseStep-cancelled (closes_jobs o d e s n) = refl

  PaceStep-cancelled : {f f' : Flow} → PaceStep w f f' → f'.cancelled ≡ f.cancelled
  PaceStep-cancelled (dispatches j rest c e) = refl
  PaceStep-cancelled (closes_pacers c d e) = refl
  PaceStep-cancelled (takes before behind host p j q e x h c l) = refl
  PaceStep-cancelled (exits before behind host p e x h c l d) = refl
  PaceStep-cancelled (gives_up before behind host p e x c) = refl
  PaceStep-cancelled (starves before behind host p j e x i c) = refl
  PaceStep-cancelled (releases before behind host p j e x h r) = refl
  PaceStep-cancelled (closes_ready r c a) = refl

  ExecStep-cancelled : {f f' : Flow} → ExecStep w f f' → f'.cancelled ≡ f.cancelled
  ExecStep-cancelled (receives_job j rest e n) = refl
  ExecStep-cancelled (executes j e r) = refl
  ExecStep-cancelled (stores before behind j client now e) = refl
  ExecStep-cancelled (completes before behind j res d occs e g) = refl

  -- A context that is live now was so before.
  pub Step-cancelled : {f f' : Flow} → Step w f f' → f'.cancelled ≡ false → f.cancelled ≡ false
  Step-cancelled (crawls s) c = CrawlStep-cancelled s c
  Step-cancelled (parses s) c = ground (arith, ParseStep-cancelled s)
  Step-cancelled (paces s) c = ground (arith, PaceStep-cancelled s)
  Step-cancelled (works s) c = ground (arith, ExecStep-cancelled s)
  Step-cancelled (cancels u e) c = u

  pub Reach-IsTidy : {f f' : Flow} → IsTidy f.dedup → Reach w f f' → IsTidy f'.dedup
  Reach-IsTidy t here = t
  Reach-IsTidy t (next r s) = Step-IsTidy w s (Reach-IsTidy t r)

  pub Reach-IsOrderly : {f f' : Flow} → IsOrderly f → Reach w f f' → IsOrderly f'
  Reach-IsOrderly o here = o
  Reach-IsOrderly o (next r s) = Step-IsOrderly w s (Reach-IsOrderly o r)

  Reach-HasJob :
      (k : Text) {f f' : Flow} → HasJob k f → Reach w f f' → f'.cancelled ≡ false → HasJob k f'
  Reach-HasJob k h here c = h
  Reach-HasJob k h (next r s) c = Step-HasJob w k s c (Reach-HasJob k h r (Step-cancelled s c))

  Reach-links :
      (p : Target → Bool) {f f' : Flow}
      → Reach w f f'
      → f'.cancelled ≡ false
      → links w p f' ≡ links w p f
  Reach-links p here c = refl
  Reach-links p (next r s) c =
      omega (arith, Step-links w p s c, Reach-links p r (Step-cancelled s c))

  pub start-IsOrderly :
      (srcs : List SrcItem) (fatal : Bool) (d : Dedup) → IsOrderly (start srcs fatal d)
  start-IsOrderly srcs fatal d = record {
    crawl_end = λ x. absurd (ground arith);
    parse_end = λ x. absurd (ground arith);
    pace_end = λ x. absurd (ground arith);
    ready_end = λ x. absurd (ground arith);
    closing_all = tt;
    calm = λ x y. tt;
  }

  pub start-IsTidy : (c : Cache) → IsTidy (new_dedup c)
  unfolding new_dedup
  start-IsTidy c = record { drained = tt; unique = tt }

  -- All pacers have returned, and none has a job.
  no_jobs_left :
      (k : Text) (ps : List (Text × Pacer))
      → AllValues IsCalm ps
      → AllValues (λ (p : Pacer). p.exited ≡ true) ps
      → total (pacer_jobs k) ps ≡ 0
  no_jobs_left k [] a x = refl
  no_jobs_left k ((host, p) ∷ ps) a x =
      let (d, q, h) = a.0 x.0 in
      omega (
        arith,
        ap (sum_of (is_for k)) q,
        ap (λ o. sum_of (is_for k) (in_hand o)) h,
        no_jobs_left k ps a.1 x.1,
      )

  pub pacers_weigh_nothing : (ps : List (Text × Pacer)) → total (λ (p : Pacer). 0) ps ≡ 0
  pacers_weigh_nothing [] = refl
  pacers_weigh_nothing ((host, p) ∷ ps) = omega (arith, pacers_weigh_nothing ps)

  pub nothing_left :
      (κ : Weights) {f : Flow}
      → IsOrderly f
      → Finished f
      → total κ.pacer f.pacing.pacers ≡ 0
      → tally κ f ≡ 0
  nothing_left κ o (fc, jc, rc, r, j, x) z =
      let (fc', fs, src, ws) = o.parse_end jc in
      omega (
        arith,
        ap (sum_of κ.crawl) (o.crawl_end fc),
        ap (sum_of κ.file) fs,
        ap (weight κ.held_source) src,
        ap (sum_of κ.worker) ws,
        ap (sum_of κ.queued) (o.pace_end (o.ready_end rc).0).1,
        ap (sum_of κ.ready) r,
        ap (weight κ.held_job) j,
        ap (sum_of κ.executor) x,
        z,
      )

  start_links :
      (p : Target → Bool) (srcs : List SrcItem)
      → sum_of (link_weights w p).crawl srcs ≡ count p (all_links w srcs)
  start_links p [] = refl
  start_links p (src ∷ srcs) =
      omega (
        arith,
        start_links p srcs,
        count-append p (links_of (w.open_source src)) (all_links w srcs),
      )

  all_done :
      {f : Flow}
      → IsOrderly f
      → IsTidy f.dedup
      → Finished f
      → f.cancelled ≡ false
      → f.starved ≡ false
      → ((k : Text) → HasJob k f)
      → AllValues (λ (st : UrlState). st.done ≡ true) f.dedup.seen
  all_done {f} o t e c m has = AllValues_of_lookup _ f.dedup.seen t.unique (λ k st found.
      let gone =
        nothing_left (job_weights k) o e
          (no_jobs_left k f.pacing.pacers (o.calm c m) (o.ready_end e.2).1) in
      ground (arith, has k, gone))

  -- However the goroutines of `Run` interleave, whatever the network answers, and whatever the limits of its
  -- pools: once all four stages have ended, the context was not cancelled, and no pacer left because the wait for its
  -- host would have passed the deadline, the collector holds exactly one result for each link of the sources, as
  -- often as the link stands there, and one for each source that could not be read.
  pub every_link_reported :
      (srcs : List SrcItem) (fatal : Bool) (c : Cache) {f : Flow}
      → Reach w (start srcs fatal (new_dedup c)) f
      → Finished f
      → f.cancelled ≡ false
      → f.starved ≡ false
      → (p : Target → Bool) → count (for_target p) f.results ≡ count p (all_links w srcs)
  unfolding new_dedup lookup
  every_link_reported srcs fatal c {f} r e n m p =
      let o = Reach-IsOrderly (start-IsOrderly srcs fatal (new_dedup c)) r in
      let t = Reach-IsTidy (start-IsTidy c) r in
      let done = all_done o t e n m (λ k. Reach-HasJob k (omega arith) r n) in
      omega (
        arith,
        Reach-links p r n,
        nothing_left (link_weights w p) o e (pacers_weigh_nothing f.pacing.pacers),
        stored_of_drained w.host_of p f.dedup.seen t.drained done,
        start_links p srcs,
      )
