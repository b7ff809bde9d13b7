-- ===== src/Pipeline/Flow.antt =====
-- internal/pipeline/pipeline.go: `Run`, its four stages and their channels, as a step relation. A step is what
-- one goroutine does between two points where it may wait; any goroutine may take the next step. The results
-- of one call of `add` or `execute` reach the collector at once. What the stages call is the interface `Work`.
pub mod Steps
pub mod Tally
pub mod Conserved
pub mod Table
pub mod InFlight
pub mod Errors
pub mod Closing
pub mod Reported
pub mod Ends
pub mod Once
pub mod Known
pub mod Progress
pub mod Program
mod Examples
use markdown_linkerator.Base.{
  ℕ, suc, ◌+◌, ◌*◌, ◌<◌, ◌≡◌, Bool, true, false, ◌||◌, Option, none, some, List, [], ◌∷◌, ◌++◌,
  length, Text, Map, AllValues, ℤ,
}
use markdown_linkerator.Model.{Target, Result, CheckJob}
use markdown_linkerator.Cache
use markdown_linkerator.Checker.Http.{Client}
use markdown_linkerator.Pipeline.Crawl.{SrcItem}
use markdown_linkerator.Pipeline.Dedup.{
  Dedup, Begun, hit, queued, found, add_begin, add_finish, complete, fan_out,
}
use markdown_linkerator.Pipeline.Pacer.{Pacer, turn, release, leave}
use markdown_linkerator.Pipeline.Pacer.Hosts.{PacerSet, new_pacer_set, dispatch, close_all}

-- What `parseSource` starts from: the result of a source that cannot be read, or the targets and anchors.
pub data Opened : Type 0 where
  refused : Result → Opened
  parsed : List Target → List Text → Opened

-- `offline` is the part of `handleTarget` that leads to no job: the result at once and the anchors seen, or
-- `none` for a target that goes to `add`. `deadline` says that the context of the run has a deadline.
pub record Work : Type 0 where
  pub parse_limit : ℕ
  pub url_limit : ℕ
  pub parse_limit_pos : 0 < parse_limit
  pub url_limit_pos : 0 < url_limit
  pub deadline : Bool
  pub open_source : SrcItem → Opened
  pub offline : List Text → Map (List Text) → Target → Option (Map (List Text) × Result)
  pub offline_target :
      (anchors : List Text) (seen seen' : Map (List Text)) (t : Target) (r : Result)
      → offline anchors seen t ≡ some (seen', r)
      → r.target ≡ t
  pub key_of : Target → Text
  pub host_of : Text → Text
  pub answer : Client → CheckJob → Result

-- Where a parse worker stands: at its next target, between the two locks of `add`, or at the send of a job.
pub data Stage : Type 0 where
  idle : Stage
  between : Text → Target → Stage
  sending : CheckJob → Stage

pub record Worker : Type 0 where
  pub left : List Target
  pub anchors : List Text
  pub stage : Stage

-- An execution is at its check, or has put the result into the cache.
pub data Executor : Type 0 where
  checking : CheckJob → Executor
  stored : CheckJob → Result → Executor

-- `source` and `job` are those that a loop has received and has no slot for yet. `to_crawl` is what the crawl
-- has still to send, and `fatal` says that it ends with an error. The context of the stages is cancelled when the
-- caller's is (`interrupted`), or when the crawl returned an error (`crawl_failed`). `starved` says that a pacer
-- has left because the wait of its `Acquire` would have passed the deadline.
pub record Flow : Type 0 where
  pub to_crawl : List SrcItem
  pub fatal : Bool
  pub files : List SrcItem
  pub files_closed : Bool
  pub source : Option SrcItem
  pub workers : List Worker
  pub jobs : List CheckJob
  pub jobs_closed : Bool
  pub pacing : PacerSet
  pub ready : List CheckJob
  pub ready_closed : Bool
  pub job : Option CheckJob
  pub executors : List Executor
  pub dedup : Dedup
  pub results : List Result
  pub anchor_cache : Map (List Text)
  pub source_errors : ℕ
  pub starved : Bool
  pub cancelled : Bool
  pub interrupted : Bool
  pub crawl_failed : Bool

abbrev pub start : List SrcItem → Bool → Dedup → Flow
start srcs fatal d = record {
  to_crawl = srcs;
  fatal = fatal;
  files = [];
  files_closed = false;
  source = none;
  workers = [];
  jobs = [];
  jobs_closed = false;
  pacing = new_pacer_set;
  ready = [];
  ready_closed = false;
  job = none;
  executors = [];
  dedup = d;
  results = [];
  anchor_cache = [];
  source_errors = 0;
  starved = false;
  cancelled = false;
  interrupted = false;
  crawl_failed = false;
}

abbrev pub opened_worker : Opened → Worker
opened_worker (refused r) = record { left = []; anchors = []; stage = idle }
opened_worker (parsed ts anchors) = record { left = ts; anchors = anchors; stage = idle }

abbrev pub opened_results : Opened → List Result
opened_results (refused r) = r ∷ []
opened_results (parsed ts anchors) = []

abbrev pub opened_errors : Opened → ℕ
opened_errors (refused r) = 1
opened_errors (parsed ts anchors) = 0

-- The part of `parseSource` before its loop.
unfoldable pub open_worker : Work → Flow → SrcItem → Flow
open_worker w f src =
    let o = w.open_source src in
    record f {
      source = none;
      workers = f.workers ++ (opened_worker o ∷ []);
      results = f.results ++ opened_results o;
      source_errors = f.source_errors + opened_errors o;
    }

abbrev pub begun_stage : Text → Target → Begun → Stage
begun_stage key t (hit r) = idle
begun_stage key t (queued j) = sending j
begun_stage key t found = between key t

abbrev pub begun_results : Begun → List Result
begun_results (hit r) = r ∷ []
begun_results (queued j) = []
begun_results found = []

-- A worker's `handleTarget` for an http target, up to the end of the first lock.
unfoldable pub begin_target :
    Work → Flow → List Worker → Worker → List Worker → List Target → Target → ℤ → Flow
begin_target w f before wk behind ts t now =
    let b = add_begin w.host_of f.dedup (w.key_of t) t now in
    record f {
      dedup = b.0;
      results = f.results ++ begun_results b.1;
      workers =
          before ++ (record wk { left = ts; stage = begun_stage (w.key_of t) t b.1 } ∷ behind);
    }

-- The pacer's context is the run's.
abbrev pub in_context : Flow → Pacer → Pacer
in_context f p = record p { cancelled = f.cancelled }

abbrev pub set_at : Flow → List (Text × Pacer) → Text → Pacer → List (Text × Pacer) → Flow
set_at f before host p behind = record f {
  pacing = record f.pacing { pacers = before ++ ((host, p) ∷ behind) };
}

abbrev pub files_room : ℕ
files_room = 64

abbrev pub jobs_room : ℕ
jobs_room = 256

-- 2*max(1, URLWorkers)
abbrev pub ready_room : Work → ℕ
ready_room w = 2 * w.url_limit

abbrev pub Finished : Flow → Type 0
Finished f =
    (f.files_closed ≡ true)
    × (f.jobs_closed ≡ true)
    × (f.ready_closed ≡ true)
    × (f.ready ≡ [])
    × (f.job ≡ none)
    × (f.executors ≡ [])
