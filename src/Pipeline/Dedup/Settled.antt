-- ===== src/Pipeline/Dedup/Settled.antt =====
-- internal/pipeline/dedup.go: the table when the run has settled.
use markdown_linkerator.Base.{
  ◌≡◌, refl, ap, inl, inr, Bool, true, some, List, [], ◌∷◌, arith, count, Text, Map, lookup, insert,
  AllValues, insert-AllValues, lookup-AllValues, ℤ, Option-cases,
}
use markdown_linkerator.Model.{Target, Result}
use markdown_linkerator.Cache
use markdown_linkerator.Cache.{Cache, Entry}
use markdown_linkerator.Pipeline.Dedup.{
  UrlState, Dedup, Begun, hit, queued, found, add_begin, add_finish, complete, new_dedup, finish_on,
}
use markdown_linkerator.Pipeline.Dedup.World.{
  World, start, after_begin, Step, begin, finish, completes, Reach, here, next,
}
use markdown_linkerator.Pipeline.Dedup.Once.{stored, for_target, for_waiting, Reach-Conserves}

abbrev pub IsDrained : UrlState → Type 0
IsDrained st = st.done ≡ true → st.occs ≡ []

-- What the two steps on an entry do to the map, where they succeed.
pub add_finish_seen :
    (d d' : Dedup) (key : Text) (t : Target) (emit : List Result)
    → add_finish d key t ≡ some (d', emit)
    → (st : UrlState) × (lookup key d.seen ≡ some st)
      × (d'.seen ≡ insert key (finish_on st t).0 d.seen)
unfolding add_finish
add_finish_seen d d' key t emit e = elim (Option-cases (lookup key d.seen)) [
  | inl n ↦ absurd (ground arith)
  | inr (st, n) ↦ (st, n, ground arith)
]

pub complete_seen :
    (d d' : Dedup) (key : Text) (res : Result) (occs : List Target)
    → complete d key res ≡ some (d', occs)
    → d'.seen ≡ insert key (record { done = true; result = res; occs = [] }) d.seen
unfolding complete
complete_seen d d' key res occs e = elim (Option-cases (lookup key d.seen)) [
  | inl n ↦ absurd (ground arith)
  | inr (st, n) ↦ ground arith
]

-- Every URL has its result.
abbrev pub AllDone : World → Type 0
AllDone w = AllValues (λ st. st.done ≡ true) w.dedup.seen

module _ (host_of : Text → Text) where
  pub begin-IsDrained :
      (d : Dedup) (key : Text) (t : Target) (now : ℤ)
      → AllValues IsDrained d.seen
      → AllValues IsDrained (add_begin host_of d key t now).0.seen
  unfolding add_begin
  begin-IsDrained d key t now h = elim (Option-cases (lookup key d.seen)) [
    | inr (st, e) ↦ rw (e, add_begin) h
    | inl e ↦ elim (Option-cases (Cache.get d.cache key now)) [
      | inr (ent, g) ↦ rw (e, g, add_begin) (insert-AllValues IsDrained key _ d.seen (λ x. refl) h)
      | inl g ↦ rw (e, g, add_begin) (insert-AllValues IsDrained key _ d.seen (λ x. cc) h)
    ]
  ]

  pub after_begin-dedup :
      (w : World) (key : Text) (t : Target) (r : Dedup × Begun)
      → (after_begin w key t r).dedup ≡ r.0
  after_begin-dedup w key t (d, hit r) = refl
  after_begin-dedup w key t (d, queued j) = refl
  after_begin-dedup w key t (d, found) = refl

  pub finish_on-IsDrained :
      (st : UrlState) (t : Target) → IsDrained st → IsDrained (finish_on st t).0
  unfolding finish_on
  finish_on-IsDrained st t h = ground arith

  Step-IsDrained :
      {w v : World}
      → Step host_of w v
      → AllValues IsDrained w.dedup.seen
      → AllValues IsDrained v.dedup.seen
  Step-IsDrained {w} (begin key t now v e) h =
      rw (e, after_begin-dedup w key t _) (begin-IsDrained w.dedup key t now h)
  Step-IsDrained {w} (finish key t before behind d emit v e f g) h =
      let (st, n, s) = add_finish_seen w.dedup d key t emit f in
      rw (g, s)
        (insert-AllValues IsDrained key _ w.dedup.seen
          (finish_on-IsDrained st t (lookup-AllValues IsDrained key w.dedup.seen h n)) h)
  Step-IsDrained {w} (completes key res d occs v f g) h =
      rw (g, complete_seen w.dedup d key res occs f)
        (insert-AllValues IsDrained key _ w.dedup.seen (λ _. refl) h)

  Reach-IsDrained :
      {w v : World}
      → AllValues IsDrained w.dedup.seen
      → Reach host_of w v
      → AllValues IsDrained v.dedup.seen
  Reach-IsDrained h here = h
  Reach-IsDrained h (next r s) = Step-IsDrained s (Reach-IsDrained h r)

  pub stored_of_drained :
      (p : Target → Bool) (m : Map UrlState)
      → AllValues IsDrained m
      → AllValues (λ st. st.done ≡ true) m
      → stored p m ≡ 0
  stored_of_drained p [] a b = refl
  stored_of_drained p ((k, st) ∷ m) a b =
      omega (arith, ap (λ l. count p l) (a.0 b.0), stored_of_drained p m a.1 b.1)

  -- Whatever the interleaving of the workers and whatever the results: once no worker stands
  -- between the two locks and every URL is done, each occurrence that was added has been reported
  -- exactly as often as it was added, so that no link is lost and none is reported twice.
  pub exactly_once :
      (p : Target → Bool) (c : Cache) {w : World}
      → Reach host_of (start c) w
      → w.waiting ≡ []
      → AllDone w
      → count (for_target p) w.emitted ≡ count p w.added
  unfolding new_dedup
  exactly_once p c {w} r idle done = omega (
    arith,
    Reach-Conserves host_of p refl r,
    ap (λ l. count (for_waiting p) l) idle,
    stored_of_drained p w.dedup.seen (Reach-IsDrained tt r) done,
  )
