-- ===== src/Pipeline/Pacer/Refines.antt =====
-- internal/pipeline/pacer.go: a pacer as a queue. The queue keeps what is waiting and what has left it,
-- and knows nothing of turns, locks and the context.
use markdown_linkerator.Base.{◌≡◌, sym, none, List, [], ◌∷◌, ◌++◌, arith}
use mathlib.Core.List.{append_assoc}
use markdown_linkerator.Model.{CheckJob}
use markdown_linkerator.Pipeline.Pacer.{
  Pacer, enqueue, close, leave, turn, release, Step, enqueues, closes, cancels, turns, releases,
  fails, Reach, stay, go,
}
use markdown_linkerator.Pipeline.Pacer.Drain.{in_hand}

pub record Queue : Type 0 where
  pub waiting : List CheckJob
  pub departed : List CheckJob

-- The steps of a first-in, first-out queue; a step may also change nothing.
pub data QueueStep : Queue → Queue → Type 0 where
  arrives :
      (w d : List CheckJob) (job : CheckJob)
      → QueueStep
          (record { waiting = w; departed = d })
          (record { waiting = w ++ (job ∷ []); departed = d })
  departs :
      (w d : List CheckJob) (job : CheckJob)
      → QueueStep
          (record { waiting = job ∷ w; departed = d })
          (record { waiting = w; departed = d ++ (job ∷ []) })
  rests : (s : Queue) → QueueStep s s

pub data QueueRun : Queue → Queue → Type 0 where
  ends : (s : Queue) → QueueRun s s
  runs : {s s' s'' : Queue} → QueueStep s s' → QueueRun s' s'' → QueueRun s s''

-- The queue that a pacer stands for: the job in hand is still waiting.
unfoldable pub queue_of : Pacer → Queue
queue_of p = record { waiting = in_hand p.hand ++ p.q; departed = p.out }

turn-queue_of : (p : Pacer) → p.hand ≡ none → queue_of (turn p) ≡ queue_of p
unfolding turn leave queue_of
turn-queue_of p h = ground arith

Step-QueueStep : {p p' : Pacer} → Step p p' → QueueStep (queue_of p) (queue_of p')
unfolding queue_of enqueue close leave release
Step-QueueStep (enqueues p job d) =
    rw (sym (append_assoc (in_hand p.hand) p.q (job ∷ [])))
      (arrives (in_hand p.hand ++ p.q) p.out job)
Step-QueueStep (closes p) = rests (queue_of p)
Step-QueueStep (cancels p) = rests (queue_of p)
Step-QueueStep (turns p x h) = rw (turn-queue_of p h) (rests (queue_of p))
Step-QueueStep (releases p job x h) = rw h (departs p.q p.out job)
Step-QueueStep (fails p job x h c) = rests (queue_of p)

-- Every run of a pacer is one of a first-in, first-out queue: its steps add a job behind all that wait,
-- send the first that waits, or are not seen from outside.
pub Reach-QueueRun : {p p' : Pacer} → Reach p p' → QueueRun (queue_of p) (queue_of p')
Reach-QueueRun (stay p) = ends (queue_of p)
Reach-QueueRun (go s r) = runs (Step-QueueStep s) (Reach-QueueRun r)
