-- ===== src/Pipeline/Pacer/Drain.antt =====
-- internal/pipeline/pacer.go: the order in which a pacer sends its jobs, and its end.
use markdown_linkerator.Base.{
  ◌≡◌, refl, inl, inr, true, false, Option, none, some, List, [], ◌∷◌, ◌++◌, arith, Option-cases,
}
use mathlib.Core.List.{append_assoc, append-nil}
use markdown_linkerator.Model.{CheckJob}
use markdown_linkerator.Pipeline.Pacer.{
  Pacer, new_pacer, enqueue, close, leave, turn, release, Step, enqueues, closes, cancels, turns,
  releases, fails, Reach, stay, go,
}

abbrev pub in_hand : Option CheckJob → List CheckJob
in_hand none = []
in_hand (some job) = job ∷ []

-- What was given is what is out, in hand and queued, in this order; a pacer that left without a
-- cancelled context has nothing left and gets nothing more.
abbrev pub Ordered : Pacer → Type 0
Ordered p =
    (p.given ≡ p.out ++ (in_hand p.hand ++ p.q))
    × (p.exited ≡ true → p.cancelled ≡ false → (p.done ≡ true) × (p.hand ≡ none) × (p.q ≡ []))

turn-Ordered :
    (p : Pacer)
    → p.exited ≡ false
    → p.hand ≡ none
    → p.given ≡ p.out ++ (in_hand p.hand ++ p.q)
    → Ordered (turn p)
unfolding turn leave
turn-Ordered p x h o = (ground arith, λ y c. (ground arith, ground arith, ground arith))

Step-Ordered : {p p' : Pacer} → Step p p' → Ordered p → Ordered p'
unfolding enqueue close leave release
Step-Ordered (enqueues p job d) (o, e) = (
  ground (
    arith,
    append_assoc p.out (in_hand p.hand ++ p.q) (job ∷ []),
    append_assoc (in_hand p.hand) p.q (job ∷ []),
  ),
  λ x c. ground (arith, (e x c).0),
)
Step-Ordered (closes p) (o, e) = (o, λ x c. (refl, (e x c).1, (e x c).2))
Step-Ordered (cancels p) (o, e) = (o, λ x c. absurd (ground arith))
Step-Ordered (turns p x h) (o, e) = turn-Ordered p x h o
Step-Ordered (releases p job x h) (o, e) =
    (ground (arith, append_assoc p.out (job ∷ []) p.q), λ y c. absurd (ground arith))
Step-Ordered (fails p job x h c) (o, e) = (o, λ y c'. absurd (ground arith))

Reach-Ordered : {p p' : Pacer} → Reach p p' → Ordered p → Ordered p'
Reach-Ordered (stay p) o = o
Reach-Ordered (go s r) o = Reach-Ordered r (Step-Ordered s o)

new_pacer-Ordered : Ordered new_pacer
new_pacer-Ordered = (refl, λ x c. absurd (ground arith))

-- In every run of a pacer, what it has sent is a first part of what it was given, in that order:
-- no job is sent twice, skipped or overtaken.
pub in_order : {p : Pacer} → Reach new_pacer p → (rest : List CheckJob) × (p.given ≡ p.out ++ rest)
in_order {p} r = (in_hand p.hand ++ p.q, (Reach-Ordered r new_pacer-Ordered).0)

-- In every run of a pacer whose context is not cancelled, once it has returned it has sent exactly
-- the jobs it was given.
pub all_sent :
    {p : Pacer} → Reach new_pacer p → p.exited ≡ true → p.cancelled ≡ false → p.out ≡ p.given
all_sent {p} r x c =
    let o = Reach-Ordered r new_pacer-Ordered in
    ground (arith, o.0, (o.1 x c).1, (o.1 x c).2, append-nil p.out)

is_taken :
    (p : Pacer) (job : CheckJob) (q : List CheckJob)
    → p.q ≡ job ∷ q
    → p.cancelled ≡ false
    → turn p ≡ record p { q = q; hand = some job }
unfolding turn
is_taken p job q e c = ground arith

-- From a turn on, a closed pacer sends the queue.
drain_queue :
    (p : Pacer) (q : List CheckJob)
    → p.q ≡ q
    → p.hand ≡ none
    → p.done ≡ true
    → p.cancelled ≡ false
    → p.exited ≡ false
    → (p' : Pacer) × (Reach p p') × (p'.exited ≡ true) × (p'.out ≡ p.out ++ q)
unfolding turn leave release
drain_queue p [] e h d c x =
    (turn p, go (turns p x h) (stay _), ground arith, ground (arith, append-nil p.out))
drain_queue p (job ∷ q) e h d c x =
    let taken : Pacer = record p { q = q; hand = some job } in
    let after = release taken job in
    let rest = drain_queue after q refl refl d c x in
    (
      rest.0,
      go (rw (← (is_taken p job q e c)) (turns p x h)) (go (releases taken job x refl) rest.1),
      rest.2,
      ground (arith, rest.3, append_assoc p.out (job ∷ []) q),
    )

-- A closed pacer that is not cancelled can always finish: some run of its own steps sends what is
-- left and returns.
pub drains :
    (p : Pacer)
    → p.done ≡ true
    → p.cancelled ≡ false
    → p.exited ≡ false
    → (p' : Pacer) × (Reach p p') × (p'.exited ≡ true) × (p'.out ≡ p.out ++ (in_hand p.hand ++ p.q))
unfolding release
drains p d c x = elim (Option-cases p.hand) [
  | inl n ↦
      let rest = drain_queue p p.q refl n d c x in (rest.0, rest.1, rest.2, ground (arith, rest.3))
  | inr (job, n) ↦
      let rest = drain_queue (release p job) p.q refl refl d c x in
      (
        rest.0,
        go (releases p job x n) rest.1,
        rest.2,
        ground (arith, rest.3, append_assoc p.out (job ∷ []) p.q),
      )
]
