-- ===== src/Pipeline/Pacer.antt =====
-- internal/pipeline/pacer.go: one host's pacer, which hands the queued jobs to the executor. The
-- limiter's Acquire and the channel's send either end, or fail when the context is cancelled. The
-- dispatcher enqueues before it closes (`closeAndWait` follows its loop).
pub mod Drain
pub mod Refines
pub mod Hosts
mod Examples
use markdown_linkerator.Base.{
  ◌≡◌, Bool, true, false, Option, none, some, List, [], ◌∷◌, ◌++◌, if◌then◌else◌, or_else, ◌&&◌,
}
use markdown_linkerator.Model.{CheckJob}

-- `hand` is the job between the queue and the channel; `out` is what was sent on the channel;
-- `exited` says that `run` returned. `given` lists the jobs of `enqueue`, for the theorems.
pub record Pacer : Type 0 where
  pub q : List CheckJob
  pub done : Bool
  pub cancelled : Bool
  pub hand : Option CheckJob
  pub out : List CheckJob
  pub exited : Bool
  pub given : List CheckJob

abbrev pub new_pacer : Pacer
new_pacer = record {
  q = [];
  done = false;
  cancelled = false;
  hand = none;
  out = [];
  exited = false;
  given = [];
}

unfoldable pub enqueue : Pacer → CheckJob → Pacer
enqueue p job = record p { q = p.q ++ (job ∷ []); given = p.given ++ (job ∷ []) }

unfoldable pub close : Pacer → Pacer
close p = record p { done = true }

unfoldable pub leave : Pacer → Pacer
leave p = record p { exited = true }

-- The locked part of a turn of `run`: to wait is to stay as it is.
unfoldable pub turn : Pacer → Pacer
unfolding leave
turn p = if p.cancelled then leave p else elim p.q [
  | [] ↦ if p.done then leave p else p
  | job ∷ rest ↦ record p { q = rest; hand = some job }
]

-- The rest of the turn, when Acquire and send succeed.
unfoldable pub release : Pacer → CheckJob → Pacer
release p job = record p { hand = none; out = p.out ++ (job ∷ []) }

-- One step of the dispatcher, of the pacer or of the context.
pub data Step : Pacer → Pacer → Type 0 where
  enqueues : (p : Pacer) (job : CheckJob) → p.done ≡ false → Step p (enqueue p job)
  closes : (p : Pacer) → Step p (close p)
  cancels : (p : Pacer) → Step p (record p { cancelled = true })
  turns : (p : Pacer) → p.exited ≡ false → p.hand ≡ none → Step p (turn p)
  releases :
      (p : Pacer) (job : CheckJob) → p.exited ≡ false → p.hand ≡ some job → Step p (release p job)
  -- Acquire or send fails.
  fails :
      (p : Pacer) (job : CheckJob)
      → p.exited ≡ false
      → p.hand ≡ some job
      → p.cancelled ≡ true
      → Step p (leave p)

pub data Reach : Pacer → Pacer → Type 0 where
  stay : (p : Pacer) → Reach p p
  go : {p p' p'' : Pacer} → Step p p' → Reach p' p'' → Reach p p''
