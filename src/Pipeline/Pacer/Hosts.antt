-- ===== src/Pipeline/Pacer/Hosts.antt =====
-- internal/pipeline/pacer.go: `pacerSet`, one pacer for each host, with the steps of the dispatcher and
-- of every pacer in any order. The wait for the pacers' goroutines is left out.
use markdown_linkerator.Base.{
  ◌≡◌, refl, sym, ◌∙◌, Bool, true, false, Option, none, some, List, [], ◌∷◌, ◌++◌, arith, inl, inr,
  or_else, if◌then◌else◌, Text, text_eq, text_eq_iff, text_eq_refl, Map, lookup, insert,
  lookup-insert, Bool-cases,
}
use mathlib.Core.List.{append-nil}
use mathlib.Core.Path.{subst}
use markdown_linkerator.Model.{CheckJob}
use markdown_linkerator.Pipeline.Pacer.{
  Pacer, new_pacer, enqueue, close, Step, enqueues, closes, Reach, stay, go,
}
use markdown_linkerator.Pipeline.Pacer.Drain.{in_order}

-- `dispatched` lists the jobs of `dispatch`, for the theorems.
pub record PacerSet : Type 0 where
  pub pacers : Map Pacer
  pub closing : Bool
  pub dispatched : List CheckJob

abbrev pub new_pacer_set : PacerSet
new_pacer_set = record { pacers = []; closing = false; dispatched = [] }

unfoldable pub dispatch : PacerSet → CheckJob → PacerSet
unfolding lookup insert enqueue
dispatch s job = record s {
  pacers = insert (job.host) (enqueue (or_else (lookup job.host s.pacers) new_pacer) job) s.pacers;
  dispatched = s.dispatched ++ (job ∷ []);
}

unfoldable pub close_each : Map Pacer → Map Pacer
unfolding close
close_each [] = []
close_each ((host, p) ∷ ps) = (host, close p) ∷ close_each ps

-- The first part of `closeAndWait`.
unfoldable pub close_all : PacerSet → PacerSet
unfolding close_each
close_all s = record s { pacers = close_each s.pacers; closing = true }

abbrev set_pacer : PacerSet → Text → Pacer → PacerSet
set_pacer s host p = record s { pacers = insert host p s.pacers }

-- The dispatcher dispatches until it closes; a pacer takes any of its own steps.
pub data SetStep : PacerSet → PacerSet → Type 0 where
  dispatches : (s : PacerSet) (job : CheckJob) → s.closing ≡ false → SetStep s (dispatch s job)
  closes_all : (s : PacerSet) → SetStep s (close_all s)
  moves :
      (s : PacerSet) (host : Text) (p p' : Pacer)
      → lookup host s.pacers ≡ some p
      → Step p p'
      → p'.given ≡ p.given
      → p'.done ≡ p.done
      → SetStep s (set_pacer s host p')

pub data SetReach : PacerSet → PacerSet → Type 0 where
  set_stay : (s : PacerSet) → SetReach s s
  set_go : {s s' s'' : PacerSet} → SetStep s s' → SetReach s' s'' → SetReach s s''

unfoldable pub for_host : Text → List CheckJob → List CheckJob
unfolding text_eq
for_host host [] = []
for_host host (job ∷ jobs) =
    let rest = for_host host jobs in if text_eq job.host host then job ∷ rest else rest

-- A host's pacer is one that its own steps reach, and was given the host's jobs.
abbrev IsPacerOf : Text → PacerSet → Pacer → Type 0
IsPacerOf host s p =
    Reach new_pacer p × (p.given ≡ for_host host s.dispatched) × (p.done ≡ s.closing)

abbrev IsRouted : PacerSet → Text → Option Pacer → Type 0
IsRouted s host none = for_host host s.dispatched ≡ []
IsRouted s host (some p) = IsPacerOf host s p

abbrev AllRouted : PacerSet → Type 0
AllRouted s = (host : Text) → IsRouted s host (lookup host s.pacers)

Reach-one : {p p' p'' : Pacer} → Reach p p' → Step p' p'' → Reach p p''
Reach-one (stay p) s = go s (stay _)
Reach-one (go t r) s = go t (Reach-one r s)

for_host-append :
    (host : Text) (jobs more : List CheckJob)
    → for_host host (jobs ++ more) ≡ for_host host jobs ++ for_host host more
unfolding for_host
for_host-append host [] more = refl
for_host-append host (job ∷ jobs) more = ground (arith, for_host-append host jobs more)

lookup-close_each :
    (host : Text) (ps : Map Pacer)
    → lookup host (close_each ps) ≡ elim (lookup host ps) [ none ↦ none | some p ↦ some (close p) ]
unfolding lookup close_each
lookup-close_each host [] = refl
lookup-close_each host ((h, p) ∷ ps) = ground (arith, lookup-close_each host ps)

-- The pacer that `dispatch` takes: the host's, or a new one.
routed_or_new :
    (s : PacerSet) (host : Text) (o : Option Pacer)
    → s.closing ≡ false
    → IsRouted s host o
    → IsPacerOf host s (or_else o new_pacer)
routed_or_new s host none c r = (stay new_pacer, sym r, sym c)
routed_or_new s host (some p) c r = r

dispatch-IsPacerOf :
    (s : PacerSet) (job : CheckJob) (p : Pacer)
    → s.closing ≡ false
    → IsPacerOf job.host s p
    → IsPacerOf job.host (dispatch s job) (enqueue p job)
unfolding dispatch enqueue for_host
dispatch-IsPacerOf s job p c (r, g, d) = (
  Reach-one r (enqueues p job (d ∙ c)),
  ground (arith, for_host-append job.host s.dispatched (job ∷ []), text_eq_refl job.host),
  d,
)

dispatch-IsRouted_other :
    (s : PacerSet) (job : CheckJob) (host : Text) (o : Option Pacer)
    → text_eq job.host host ≡ false
    → IsRouted s host o
    → IsRouted (dispatch s job) host o
unfolding dispatch for_host
dispatch-IsRouted_other s job host none e r =
    ground (arith, for_host-append host s.dispatched (job ∷ []))
dispatch-IsRouted_other s job host (some p) e (r, g, d) = (
  r,
  ground (
    arith,
    for_host-append host s.dispatched (job ∷ []),
    append-nil (for_host host s.dispatched),
  ),
  d,
)

close-IsRouted :
    (s : PacerSet) (host : Text) (o : Option Pacer)
    → IsRouted s host o
    → IsRouted (close_all s) host (elim o [ none ↦ none | some p ↦ some (close p) ])
unfolding close_all close
close-IsRouted s host none r = r
close-IsRouted s host (some p) (r, g, d) = (Reach-one r (closes p), g, refl)

lookup-dispatch :
    (s : PacerSet) (job : CheckJob) (host : Text)
    → lookup host (dispatch s job).pacers ≡ (
        if text_eq job.host host
        then some (enqueue (or_else (lookup job.host s.pacers) new_pacer) job)
        else lookup host s.pacers)
unfolding dispatch
lookup-dispatch s job host =
    lookup-insert (job.host) host (enqueue (or_else (lookup job.host s.pacers) new_pacer) job)
      s.pacers

lookup-close_all :
    (s : PacerSet) (host : Text)
    → lookup host (close_all s).pacers
      ≡ elim (lookup host s.pacers) [ none ↦ none | some p ↦ some (close p) ]
unfolding close_all
lookup-close_all s host = lookup-close_each host s.pacers

-- A step of a host's own pacer.
move-IsPacerOf :
    (s : PacerSet) (host : Text) (p p' : Pacer)
    → Step p p'
    → p'.given ≡ p.given
    → p'.done ≡ p.done
    → IsPacerOf host s p
    → IsPacerOf host s p'
move-IsPacerOf s host p p' step g d (r, g', d') = (Reach-one r step, g ∙ g', d ∙ d')

SetStep-AllRouted : {s s' : PacerSet} → SetStep s s' → AllRouted s → AllRouted s'
SetStep-AllRouted (dispatches s job c) a host = elim (Bool-cases (text_eq job.host host)) [
  | inl e ↦
      let same = (text_eq_iff job.host host).0 e in
      let p = or_else (lookup job.host s.pacers) new_pacer in
      let taken = routed_or_new s job.host (lookup job.host s.pacers) c (a job.host) in
      rw (← same, lookup-dispatch s job job.host, text_eq_refl job.host)
        (dispatch-IsPacerOf s job p c taken)
  | inr e ↦
      rw (lookup-dispatch s job host, e)
        (dispatch-IsRouted_other s job host (lookup host s.pacers) e (a host))
]
SetStep-AllRouted (closes_all s) a host =
    rw (lookup-close_all s host) (close-IsRouted s host (lookup host s.pacers) (a host))
SetStep-AllRouted (moves s h p p' here step g d) a host = elim (Bool-cases (text_eq h host)) [
  | inl e ↦
      let same = (text_eq_iff h host).0 e in
      let own : IsRouted s h (some p) = subst (IsRouted s h) here (a h) in
      rw (← same, lookup-insert h h p' s.pacers, text_eq_refl h)
        (move-IsPacerOf s h p p' step g d own)
  | inr e ↦ rw (lookup-insert h host p' s.pacers, e) (a host)
]

SetReach-AllRouted : {s s' : PacerSet} → SetReach s s' → AllRouted s → AllRouted s'
SetReach-AllRouted (set_stay s) a = a
SetReach-AllRouted (set_go step r) a = SetReach-AllRouted r (SetStep-AllRouted step a)

new_pacer_set-AllRouted : AllRouted new_pacer_set
unfolding lookup for_host
new_pacer_set-AllRouted host = refl

-- However the dispatcher and the pacers of all hosts interleave: a host's pacer was given exactly the jobs
-- that were dispatched for this host, in their order, and has sent a first part of them.
pub in_order_by_host :
    {s : PacerSet} (host : Text) {p : Pacer}
    → SetReach new_pacer_set s
    → lookup host s.pacers ≡ some p
    → (p.given ≡ for_host host s.dispatched)
      × ((rest : List CheckJob) × (for_host host s.dispatched ≡ p.out ++ rest))
in_order_by_host {s} host {p} r here =
    let own : IsRouted s host (some p) =
      subst (IsRouted s host) here (SetReach-AllRouted r new_pacer_set-AllRouted host) in
    let sent = in_order own.0 in (own.1, (sent.0, sym own.1 ∙ sent.1))
