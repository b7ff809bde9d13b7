-- ===== src/Engine/Whole.antt =====
-- internal/engine/engine.go and internal/pipeline/pipeline.go: `engine.Run` around a run of the pipeline.
use markdown_linkerator.Base.{
  ◌≡◌, ◌∙◌, ◌⊎◌, inl, inr, refl, Bool, true, false, Option, none, some, List, arith, count,
  if◌then◌else◌, sum_of, Text, ℤ,
}
use markdown_linkerator.Model.{Target}
use markdown_linkerator.RateLimit.{HostStat}
use markdown_linkerator.Cache.{Cache}
use markdown_linkerator.Cache.Disk.{Envelope, Files, Disk, new}
use markdown_linkerator.Config.Resolve.{Resolved}
use markdown_linkerator.Config.Fingerprint.{cache_fingerprint}
use markdown_linkerator.Pipeline.Crawl.{CrawlError, FilePaths, crawl}
use markdown_linkerator.Pipeline.Dedup.{new_dedup}
use markdown_linkerator.Pipeline.Dedup.Once.{for_target}
use markdown_linkerator.Pipeline.Flow.{Work, Flow, start, Finished}
use markdown_linkerator.Pipeline.Flow.Steps.{Reach, here, next}
use markdown_linkerator.Pipeline.Flow.Errors.{
  source_refusals, refusal_weights, refusals, Step-refusals, Reach-HasCause,
}
use markdown_linkerator.Pipeline.Flow.Reported.{
  all_links, every_link_reported, Step-cancelled, Reach-IsOrderly, start-IsOrderly, nothing_left,
  pacers_weigh_nothing,
}
use markdown_linkerator.Engine.{Context, live, PipelineRun}

abbrev pub has_error : Option CrawlError → Bool
has_error none = false
has_error (some e) = true

-- A run of the pipeline over what the crawl of the inputs sends.
abbrev pub start_over : FilePaths → List Text → Cache → Flow
start_over fp inputs c =
    let crawled = crawl fp none inputs in start crawled.sent (has_error crawled.stop) (new_dedup c)

-- What a run of the pipeline leaves: `g.Wait()` gives the error of the crawl.
abbrev pub left_by : Text → List HostStat → Flow → PipelineRun
left_by message hosts f = record {
  fatal = if f.crawl_failed then some message else none;
  source_errors = f.source_errors;
  collected = f.results;
  cache = f.dedup.cache;
  hosts = hosts;
}

no_crawl_error : (o : Option CrawlError) → has_error o ≡ false → o ≡ none
no_crawl_error none e = refl
no_crawl_error (some x) e = absurd (ground arith)

no_fatal :
    (f : Flow) (message : Text)
    → (if f.crawl_failed then some message else none) ≡ none
    → f.crawl_failed ≡ false
no_fatal f message e = ground arith

module _ (w : Work) where
  Reach-refusals :
      {f f' : Flow} → Reach w f f' → f'.cancelled ≡ false → refusals w f' ≡ refusals w f
  Reach-refusals here c = refl
  Reach-refusals (next r s) c = Step-refusals w s c ∙ Reach-refusals r (Step-cancelled w s c)

  module _ {F R : Type 0} (marshal : Envelope → Option Text) (unmarshal : Text → Option Envelope)
      (itoa : ℤ → Text) (digest : Text → Text) (disk : Disk) (fp : FilePaths) where
    -- The cache that `engine.Run` opens.
    abbrev pub opened_cache : Resolved F R → Files → Cache
    opened_cache cfg files =
        new unmarshal (cfg.cache.path) (cfg.cache.ttl) (cfg.cache.enabled)
          (cache_fingerprint itoa digest cfg) files

    -- A run of the pipeline after which `engine.Run` sees no error but, it may be, one of saving the cache, and
    -- in which no pacer left for a deadline.
    pub run_complete :
        (cfg : Resolved F R) (ctx : Context) (files : Files) (inputs : List Text) (message : Text)
        (hosts : List HostStat) {f : Flow}
        → Reach w (start_over fp inputs (opened_cache cfg files)) f
        → Finished f
        → (ctx ≡ live → f.interrupted ≡ false)
        → (left_by message hosts f).fatal ≡ none
        → (w.deadline ≡ false) ⊎ (f.starved ≡ false)
        → ctx ≡ live
        → f.source_errors ≡ 0
        → ((crawl fp none inputs).stop ≡ none)
          × (sum_of (source_refusals w) (crawl fp none inputs).sent ≡ 0)
          × ((p : Target → Bool)
              → count (for_target p) f.results ≡ count p (all_links w (crawl fp none inputs).sent))
    run_complete cfg ctx files inputs message hosts {f} r e parent no_error paced still no_unread =
        let c = opened_cache cfg files in
        let crawled = crawl fp none inputs in
        let fatal = has_error crawled.stop in
        let crawl_ok = no_fatal f message no_error in
        let cause =
          Reach-HasCause w fatal ((λ _ _. refl), (λ x _. absurd (ground arith)), refl, (λ _. refl))
            r in
        let alive = cause.0 (parent still) crawl_ok in
        let o = Reach-IsOrderly w (start-IsOrderly w crawled.sent fatal (new_dedup c)) r in
        (
          no_crawl_error crawled.stop (cause.1 e.0 crawl_ok),
          omega (
            arith,
            Reach-refusals r alive,
            no_unread,
            nothing_left w (refusal_weights w) o e (pacers_weigh_nothing w f.pacing.pacers),
          ),
          every_link_reported w crawled.sent fatal c r e alive
              (elim paced [ inl y ↦ cause.3 y | inr y ↦ y ]),
        )
