-- ===== src/Pipeline/Pacer/Examples.antt =====
-- A pacer that gets one job, is closed, sends the job and returns.
use markdown_linkerator.Base.{
  ◌≡◌, refl, true, false, some, lookup, insert, text_eq, List, [], ◌∷◌, ◌++◌, text,
}
use markdown_linkerator.Model.{CheckJob}
use markdown_linkerator.Samples.{link_a}
use markdown_linkerator.Pipeline.Pacer.{
  Pacer, new_pacer, enqueue, close, turn, release, leave, enqueues, closes, turns, releases, Reach,
  stay, go,
}
use markdown_linkerator.Pipeline.Pacer.Refines.{QueueRun, queue_of, Reach-QueueRun}
use markdown_linkerator.Pipeline.Pacer.Hosts.{
  PacerSet, new_pacer_set, dispatch, SetReach, set_stay, set_go, dispatches, for_host,
  in_order_by_host,
}

abbrev job_a : CheckJob
job_a = record { key = text "k"; host = text "a.org"; sample = link_a }

abbrev closed : Pacer
closed = record new_pacer { q = job_a ∷ []; done = true; given = job_a ∷ [] }

abbrev returned : Pacer
returned = record closed { q = []; out = job_a ∷ []; exited = true }

returned_reached : Reach new_pacer returned
unfolding enqueue close turn release leave
returned_reached = go (enqueues new_pacer job_a refl) (
    go (closes (enqueue new_pacer job_a)) (
      go (turns closed refl refl) (
        go (releases (turn closed) job_a refl refl)
          (go (turns (release (turn closed) job_a) refl refl) (stay returned)))))

Reach-QueueRun_example : QueueRun (queue_of new_pacer) (queue_of returned)
Reach-QueueRun_example = Reach-QueueRun returned_reached

abbrev given_a : Pacer
given_a = record new_pacer { q = job_a ∷ []; given = job_a ∷ [] }

abbrev one_host : PacerSet
one_host = record {
  pacers = (text "a.org", given_a) ∷ [];
  closing = false;
  dispatched = job_a ∷ [];
}

one_host_reached : SetReach new_pacer_set one_host
unfolding dispatch lookup insert enqueue
one_host_reached = set_go (dispatches new_pacer_set job_a refl) (set_stay one_host)

one_host_has : lookup (text "a.org") one_host.pacers ≡ some given_a
unfolding lookup text_eq
one_host_has = refl

in_order_by_host_example :
    (given_a.given ≡ for_host (text "a.org") one_host.dispatched)
    × ((rest : List CheckJob) × (for_host (text "a.org") one_host.dispatched ≡ given_a.out ++ rest))
in_order_by_host_example = in_order_by_host (text "a.org") one_host_reached one_host_has
