-- ===== src/Pipeline/Flow/Progress.antt =====
-- internal/pipeline/pipeline.go: while `Run` has not returned, some goroutine can go on.
use markdown_linkerator.Base.{ℕ, false, none, List, [], Text}
use markdown_linkerator.Cache.{Cache}
use markdown_linkerator.Checker.Http.{Client, failed}
use markdown_linkerator.Pipeline.Dedup.{Dedup}
use markdown_linkerator.Pipeline.Pacer.{Pacer}
use markdown_linkerator.Pipeline.Flow.{Work, Flow, Worker, Executor}
use markdown_linkerator.Pipeline.Flow.Steps.{Step}
use markdown_linkerator.Pipeline.Flow.Closing.{IsOrderly}
use markdown_linkerator.Pipeline.Flow.InFlight.{is_for, executed}
use markdown_linkerator.Pipeline.Flow.Known.{IsKnown, relies}

-- The network may answer with an error at once.
abbrev fails_at_once : Client
fails_at_once method st = record { outcome = failed false []; ctx_err = none; state = st }

abbrev use_worker : Text → Worker → ℕ
use_worker k wk = relies k wk.stage

abbrev use_executor : Text → Executor → ℕ
use_executor k x = is_for k (executed x)

module _ (w : Work) (f : Flow) (o : IsOrderly f) (known : (k : Text) → IsKnown k f) where
  abbrev Moves : Type 0
  Moves = (f' : Flow) × Step w f f'
