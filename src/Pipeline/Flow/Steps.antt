-- ===== src/Pipeline/Flow/Steps.antt =====
-- internal/pipeline/pipeline.go: the steps of `Run`'s four stages, and its runs.
use markdown_linkerator.Base.{
  ◌<◌, ◌≡◌, true, false, ◌||◌, none, some, List, [], ◌∷◌, ◌++◌, length, Text, Map, AllValues, ℤ,
}
use markdown_linkerator.Model.{Target, Result, CheckJob}
use markdown_linkerator.Cache
use markdown_linkerator.Checker.Http.{Client}
use markdown_linkerator.Pipeline.Crawl.{SrcItem}
use markdown_linkerator.Pipeline.Dedup.{Dedup, add_finish, complete, fan_out}
use markdown_linkerator.Pipeline.Pacer.{Pacer, turn, release, leave}
use markdown_linkerator.Pipeline.Pacer.Hosts.{dispatch, close_all}
use markdown_linkerator.Pipeline.Flow.{
  Work, Flow, Worker, idle, between, sending, Executor, checking, stored, open_worker, begin_target,
  in_context, set_at, files_room, jobs_room, ready_room,
}

module _ (w : Work) (f : Flow) where
  -- The crawl; when it ends, `files` is closed, and its error cancels the context.
  pub data CrawlStep : Flow → Type 0 where
    sends_file :
        (src : SrcItem) (rest : List SrcItem)
        → f.files_closed ≡ false
        → f.to_crawl ≡ src ∷ rest
        → length f.files < files_room
        → CrawlStep (record f { to_crawl = rest; files = f.files ++ (src ∷ []) })
    ends_crawl :
        f.files_closed ≡ false
        → f.to_crawl ≡ []
        → CrawlStep (record f {
          files_closed = true;
          cancelled = f.cancelled || f.fatal;
          crawl_failed = f.crawl_failed || f.fatal;
        })
    stops_crawl :
        f.files_closed ≡ false
        → f.cancelled ≡ true
        → CrawlStep (record f { files_closed = true; to_crawl = []; crawl_failed = true })

  -- The loop over `files` and the parse workers.
  pub data ParseStep : Flow → Type 0 where
    receives_source :
        (src : SrcItem) (rest : List SrcItem)
        → f.files ≡ src ∷ rest
        → f.source ≡ none
        → ParseStep (record f { files = rest; source = some src })
    opens :
        (src : SrcItem)
        → f.source ≡ some src
        → length f.workers < w.parse_limit
        → ParseStep (open_worker w f src)
    reports :
        (before behind : List Worker) (wk : Worker) (t : Target) (ts : List Target)
        (seen : Map (List Text)) (r : Result)
        → f.workers ≡ before ++ (wk ∷ behind)
        → wk.stage ≡ idle
        → wk.left ≡ t ∷ ts
        → w.offline wk.anchors f.anchor_cache t ≡ some (seen, r)
        → ParseStep (record f {
          workers = before ++ (record wk { left = ts } ∷ behind);
          results = f.results ++ (r ∷ []);
          anchor_cache = seen;
        })
    begins :
        (before behind : List Worker) (wk : Worker) (t : Target) (ts : List Target) (now : ℤ)
        → f.workers ≡ before ++ (wk ∷ behind)
        → wk.stage ≡ idle
        → wk.left ≡ t ∷ ts
        → w.offline wk.anchors f.anchor_cache t ≡ none
        → ParseStep (begin_target w f before wk behind ts t now)
    finishes :
        (before behind : List Worker) (wk : Worker) (key : Text) (t : Target) (d : Dedup)
        (emit : List Result)
        → f.workers ≡ before ++ (wk ∷ behind)
        → wk.stage ≡ between key t
        → add_finish f.dedup key t ≡ some (d, emit)
        → ParseStep (record f {
          workers = before ++ (record wk { stage = idle } ∷ behind);
          dedup = d;
          results = f.results ++ emit;
        })
    sends_job :
        (before behind : List Worker) (wk : Worker) (j : CheckJob)
        → f.workers ≡ before ++ (wk ∷ behind)
        → wk.stage ≡ sending j
        → length f.jobs < jobs_room
        → ParseStep (record f {
          workers = before ++ (record wk { stage = idle } ∷ behind);
          jobs = f.jobs ++ (j ∷ []);
        })
    drops_job :
        (before behind : List Worker) (wk : Worker) (j : CheckJob)
        → f.workers ≡ before ++ (wk ∷ behind)
        → wk.stage ≡ sending j
        → f.cancelled ≡ true
        → ParseStep (record f { workers = before ++ (record wk { stage = idle } ∷ behind) })
    leaves :
        (before behind : List Worker) (wk : Worker)
        → f.workers ≡ before ++ (wk ∷ behind)
        → wk.stage ≡ idle
        → wk.left ≡ []
        → ParseStep (record f { workers = before ++ behind })
    closes_jobs :
        f.jobs_closed ≡ false
        → f.files_closed ≡ true
        → f.files ≡ []
        → f.source ≡ none
        → f.workers ≡ []
        → ParseStep (record f { jobs_closed = true })

  -- The dispatcher and the pacers.
  pub data PaceStep : Flow → Type 0 where
    dispatches :
        (j : CheckJob) (rest : List CheckJob)
        → f.pacing.closing ≡ false
        → f.jobs ≡ j ∷ rest
        → PaceStep (record f { jobs = rest; pacing = dispatch f.pacing j })
    closes_pacers :
        f.pacing.closing ≡ false
        → f.jobs_closed ≡ true
        → f.jobs ≡ []
        → PaceStep (record f { pacing = close_all f.pacing })
    takes :
        (before behind : List (Text × Pacer)) (host : Text) (p : Pacer) (j : CheckJob)
        (q : List CheckJob)
        → f.pacing.pacers ≡ before ++ ((host, p) ∷ behind)
        → p.exited ≡ false
        → p.hand ≡ none
        → f.cancelled ≡ false
        → p.q ≡ j ∷ q
        → PaceStep (set_at f before host (turn (in_context f p)) behind)
    exits :
        (before behind : List (Text × Pacer)) (host : Text) (p : Pacer)
        → f.pacing.pacers ≡ before ++ ((host, p) ∷ behind)
        → p.exited ≡ false
        → p.hand ≡ none
        → f.cancelled ≡ false
        → p.q ≡ []
        → p.done ≡ true
        → PaceStep (set_at f before host (turn (in_context f p)) behind)
    gives_up :
        (before behind : List (Text × Pacer)) (host : Text) (p : Pacer)
        → f.pacing.pacers ≡ before ++ ((host, p) ∷ behind)
        → p.exited ≡ false
        → f.cancelled ≡ true
        → PaceStep (set_at f before host (leave (in_context f p)) behind)
    -- `Acquire` fails for a job when its wait would pass the deadline of a context that is still live.
    starves :
        (before behind : List (Text × Pacer)) (host : Text) (p : Pacer) (j : CheckJob)
        → f.pacing.pacers ≡ before ++ ((host, p) ∷ behind)
        → p.exited ≡ false
        → p.hand ≡ some j
        → w.deadline ≡ true
        → PaceStep
            (record (set_at f before host (leave (in_context f p)) behind) { starved = true })
    releases :
        (before behind : List (Text × Pacer)) (host : Text) (p : Pacer) (j : CheckJob)
        → f.pacing.pacers ≡ before ++ ((host, p) ∷ behind)
        → p.exited ≡ false
        → p.hand ≡ some j
        → length f.ready < ready_room w
        → PaceStep
            (record (set_at f before host (release p j) behind) { ready = f.ready ++ (j ∷ []) })
    closes_ready :
        f.ready_closed ≡ false
        → f.pacing.closing ≡ true
        → AllValues (λ (p : Pacer). p.exited ≡ true) f.pacing.pacers
        → PaceStep (record f { ready_closed = true })

  -- The loop over `ready` and the executions.
  pub data ExecStep : Flow → Type 0 where
    receives_job :
        (j : CheckJob) (rest : List CheckJob)
        → f.ready ≡ j ∷ rest
        → f.job ≡ none
        → ExecStep (record f { ready = rest; job = some j })
    executes :
        (j : CheckJob)
        → f.job ≡ some j
        → length f.executors < w.url_limit
        → ExecStep (record f { job = none; executors = f.executors ++ (checking j ∷ []) })
    stores :
        (before behind : List Executor) (j : CheckJob) (client : Client) (now : ℤ)
        → f.executors ≡ before ++ (checking j ∷ behind)
        → ExecStep (record f {
          executors = before ++ (stored j (w.answer client j) ∷ behind);
          dedup = record f.dedup { cache = Cache.put f.dedup.cache j.key (w.answer client j) now };
        })
    completes :
        (before behind : List Executor) (j : CheckJob) (res : Result) (d : Dedup)
        (occs : List Target)
        → f.executors ≡ before ++ (stored j res ∷ behind)
        → complete f.dedup j.key res ≡ some (d, occs)
        → ExecStep (record f {
          executors = before ++ behind;
          dedup = d;
          results = f.results ++ fan_out res false occs;
        })

  pub data Step (f' : Flow) : Type 0 where
    crawls : CrawlStep f' → Step f'
    parses : ParseStep f' → Step f'
    paces : PaceStep f' → Step f'
    works : ExecStep f' → Step f'
    -- The deadline, or a signal.
    cancels : f.cancelled ≡ false → f' ≡ record f { cancelled = true; interrupted = true } → Step f'

module _ (w : Work) where
  pub data Reach (f : Flow) : Flow → Type 0 where
    here : Reach f f
    next : {g h : Flow} → Reach f g → Step w g h → Reach f h
