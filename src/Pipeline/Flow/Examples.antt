-- ===== src/Pipeline/Flow/Examples.antt =====
-- Two sources: a file that cannot be read, and a URL. One schedule of the goroutines, to the end of the run.
use markdown_linkerator.Base.{
  ◌+◌, ◌≡◌, ◌≤◌, refl, true, false, [], ◌∷◌, count, text, text_eq, lookup, insert, pos, arith,
}
use markdown_linkerator.Cache
use markdown_linkerator.Cache.{Cache}
use markdown_linkerator.Checker.Local.{is_ignored}
use markdown_linkerator.Pipeline.Samples.{work, page, site, job, answers, reads}
use markdown_linkerator.Pipeline.Crawl.{SrcItem, file_item}
use markdown_linkerator.Pipeline.Source.{url_target}
use markdown_linkerator.Pipeline.Dedup.{new_dedup, add_begin, complete}
use markdown_linkerator.Pipeline.Dedup.Once.{for_target}
use markdown_linkerator.Pipeline.Pacer.{turn, release, leave}
use markdown_linkerator.Pipeline.Pacer.Hosts.{dispatch, close_all}
use markdown_linkerator.Pipeline.Flow.{Work, Flow, start, Finished, open_worker, begin_target}
use markdown_linkerator.Pipeline.Flow.Steps.{
  sends_file, ends_crawl, receives_source, opens, begins, sends_job, leaves, closes_jobs,
  dispatches, closes_pacers, takes, exits, starves, releases, closes_ready, receives_job, executes,
  stores, completes, crawls, parses, paces, works, Reach, here, next,
}
use markdown_linkerator.Pipeline.Flow.Program.{pipeline_work, offline_result, open_source}
use markdown_linkerator.Pipeline.Flow.Reported.{all_links, every_link_reported}
use markdown_linkerator.Pipeline.Flow.Ends.{potential, steps, steps-le-potential}
use markdown_linkerator.Pipeline.Flow.Once.{checks, checked_at_most_once}

abbrev bad : SrcItem
bad = file_item (text "a.md")

abbrev nothing_cached : Cache
nothing_cached = record { entries = []; path = []; ttl = pos 9; enabled = true; fingerprint = [] }

abbrev at_start : Flow
at_start = start (bad ∷ page ∷ []) false (new_dedup nothing_cached)

a_run :
    (f : Flow) × Reach work at_start f × Finished f × (f.cancelled ≡ false) × (f.starved ≡ false)
unfolding open_worker begin_target pipeline_work offline_result open_source add_begin new_dedup
    Cache.get lookup insert text_eq reads dispatch turn release close_all complete is_ignored
a_run = (
  _,
  next
      (next
        (next
          (next
            (next
              (next
                (next
                  (next
                    (next
                      (next
                        (next
                          (next
                            (next
                              (next
                                (next
                                  (next
                                    (next
                                      (next
                                        (next
                                          (next
                                            (next
                                              (next (here) (
                                                crawls (
                                                  sends_file bad (page ∷ []) refl refl
                                                    (omega arith))))
                                              (parses (receives_source bad [] refl refl)))
                                            (crawls (sends_file page [] refl refl (omega arith))))
                                          (crawls (ends_crawl refl refl)))
                                        (parses (opens bad refl (omega arith))))
                                      (parses (receives_source page [] refl refl)))
                                    (parses (leaves [] [] _ refl refl refl)))
                                  (parses (opens page refl (omega arith))))
                                (parses (
                                  begins [] [] _ (url_target page) [] (pos 5) refl refl refl refl)))
                              (parses (sends_job [] [] _ job refl refl (omega arith))))
                            (parses (leaves [] [] _ refl refl refl)))
                          (parses (closes_jobs refl refl refl refl refl)))
                        (paces (dispatches job [] refl refl)))
                      (paces (closes_pacers refl refl refl)))
                    (paces (takes [] [] _ _ job [] refl refl refl refl refl)))
                  (paces (releases [] [] _ _ job refl refl refl (omega arith))))
                (works (receives_job job [] refl refl)))
              (works (executes job refl (omega arith))))
            (works (stores [] [] job answers (pos 7) refl)))
          (paces (exits [] [] _ _ refl refl refl refl refl refl)))
        (paces (closes_ready refl refl (refl, tt))))
      (works (completes [] [] job _ _ _ refl refl)),
  (refl, refl, refl, refl, refl, refl),
  refl,
  refl,
)

-- The same work under a deadline: the pacer's wait for its host would pass it, so the pacer leaves, and the run
-- ends with its context live and no result for the page.
abbrev hurried : Work
hurried = record work { deadline = true }

a_hurried_run :
    (f : Flow) × Reach hurried (start (page ∷ []) false (new_dedup nothing_cached)) f
    × Finished f
    × (f.cancelled ≡ false)
    × (f.results ≡ [])
unfolding open_worker begin_target pipeline_work offline_result open_source add_begin new_dedup
    Cache.get lookup insert text_eq reads dispatch turn leave close_all complete is_ignored
a_hurried_run = (
  _,
  next
      (next
        (next
          (next
            (next
              (next
                (next
                  (next
                    (next
                      (next
                        (next
                          (next (next (here) (crawls (sends_file page [] refl refl (omega arith))))
                            (crawls (ends_crawl refl refl)))
                          (parses (receives_source page [] refl refl)))
                        (parses (opens page refl (omega arith))))
                      (parses (begins [] [] _ (url_target page) [] (pos 5) refl refl refl refl)))
                    (parses (sends_job [] [] _ job refl refl (omega arith))))
                  (parses (leaves [] [] _ refl refl refl)))
                (parses (closes_jobs refl refl refl refl refl)))
              (paces (dispatches job [] refl refl)))
            (paces (closes_pacers refl refl refl)))
          (paces (takes [] [] _ _ job [] refl refl refl refl refl)))
        (paces (starves [] [] _ _ job refl refl refl refl)))
      (paces (closes_ready refl refl (refl, tt))),
  (refl, refl, refl, refl, refl, refl),
  refl,
  refl,
)

every_link_reported_example :
    count (for_target (λ t. true)) a_run.0.results
    ≡ count (λ t. true) (all_links work (bad ∷ page ∷ []))
every_link_reported_example =
    every_link_reported work (bad ∷ page ∷ []) false nothing_cached a_run.1 a_run.2 a_run.3 a_run.4
      (λ t. true)

steps-le-potential_example : steps work a_run.1 + potential work a_run.0 ≤ potential work at_start
steps-le-potential_example = steps-le-potential work a_run.1

checked_at_most_once_example : checks work site a_run.1 ≤ 1
checked_at_most_once_example =
    checked_at_most_once work site (bad ∷ page ∷ []) false nothing_cached a_run.1
