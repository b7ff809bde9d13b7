-- ===== src/Pipeline/Dedup/World.antt =====
-- internal/pipeline/dedup.go: the workers that share the dedup state, as a step relation: any interleaving of locked steps.
use markdown_linkerator.Base.{◌≡◌, false, some, List, [], ◌∷◌, ◌++◌, Text, ℤ}
use markdown_linkerator.Model.{Target, Result, CheckJob}
use markdown_linkerator.Cache.{Cache}
use markdown_linkerator.Pipeline.Dedup.{
  Dedup, Begun, hit, queued, found, add_begin, add_finish, complete, fan_out, new_dedup,
}

-- The workers' common world: the dedup state, the occurrences handed to `add` so far, those whose
-- worker stands between the two locks, the results given to the collector, and the jobs sent on.
pub record World : Type 0 where
  pub dedup : Dedup
  pub added : List Target
  pub waiting : List (Text × Target)
  pub emitted : List Result
  pub jobs : List CheckJob

abbrev pub start : Cache → World
start c = record { dedup = new_dedup c; added = []; waiting = []; emitted = []; jobs = [] }

abbrev pub after_begin : World → Text → Target → Dedup × Begun → World
after_begin w key t (d, hit r) = record w {
  dedup = d;
  added = t ∷ w.added;
  emitted = r ∷ w.emitted;
}
after_begin w key t (d, queued j) = record w { dedup = d; added = t ∷ w.added; jobs = j ∷ w.jobs }
after_begin w key t (d, found) = record w {
  dedup = d;
  added = t ∷ w.added;
  waiting = (key, t) ∷ w.waiting;
}

module _ (host_of : Text → Text) where
  -- One locked step of some worker. The scheduler picks any worker that waits for the second lock,
  -- and a job may complete at any moment, with any result.
  pub data Step (w : World) : World → Type 0 where
    begin :
        (key : Text) (t : Target) (now : ℤ) (v : World)
        → v ≡ after_begin w key t (add_begin host_of w.dedup key t now)
        → Step w v
    finish :
        (key : Text) (t : Target) (before behind : List (Text × Target)) (d : Dedup)
        (emit : List Result) (v : World)
        → w.waiting ≡ before ++ ((key, t) ∷ behind)
        → add_finish w.dedup key t ≡ some (d, emit)
        → v ≡ record w { dedup = d; waiting = before ++ behind; emitted = emit ++ w.emitted }
        → Step w v
    completes :
        (key : Text) (res : Result) (d : Dedup) (occs : List Target) (v : World)
        → complete w.dedup key res ≡ some (d, occs)
        → v ≡ record w { dedup = d; emitted = fan_out res false occs ++ w.emitted }
        → Step w v

  pub data Reach (w : World) : World → Type 0 where
    here : Reach w w
    next : {u v : World} → Reach w u → Step u v → Reach w v
