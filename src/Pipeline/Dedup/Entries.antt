-- ===== src/Pipeline/Dedup/Entries.antt =====
-- internal/pipeline/dedup.go: the entries that a worker relies on.
use markdown_linkerator.Base.{
  ◌≤◌, ◌≡◌, ◌≢◌, refl, inl, inr, true, false, none, List, [], ◌∷◌, ◌++◌, arith, All, All-mono,
  All-remove, All-middle, Text, text_eq_refl, lookup, lookup-insert, ℤ, Option-cases,
}
use markdown_linkerator.Model.{CheckJob, Target, Result, zero_result}
use markdown_linkerator.Cache
use markdown_linkerator.Cache.{Cache}
use markdown_linkerator.Pipeline.Dedup.{
  Dedup, Begun, hit, queued, found, add_begin, add_finish, complete, result_from_cache, zero_target,
}
use markdown_linkerator.Pipeline.Dedup.Settled.{add_finish_seen, complete_seen}
use markdown_linkerator.Pipeline.Dedup.World.{
  World, start, after_begin, Step, begin, finish, completes, Reach, here, next,
}
use markdown_linkerator.Pipeline.Dedup.Jobs.{present, present-le, present-insert}

-- Each worker between the two locks, and each job, has its entry in the map.
abbrev pub HasEntries : World → Type 0
HasEntries w =
    All (λ (b : Text × Target). present b.0 w.dedup ≡ 1) w.waiting
    × All (λ (j : CheckJob). present j.key w.dedup ≡ 1) w.jobs

HasEntries-grow :
    (w : World) (d : Dedup)
    → ((k : Text) → present k w.dedup ≤ present k d)
    → HasEntries w
    → HasEntries (record w { dedup = d })
HasEntries-grow w d grows h = (
  All-mono _ _ w.waiting (λ b e. omega (arith, grows b.0, present-le b.0 d)) h.0,
  All-mono _ _ w.jobs (λ j e. omega (arith, grows j.key, present-le j.key d)) h.1,
)

module _ (host_of : Text → Text) where
  begin_grows :
      (d : Dedup) (key : Text) (t : Target) (now : ℤ) (k : Text)
      → present k d ≤ present k (add_begin host_of d key t now).0
  unfolding add_begin
  begin_grows d key t now k = elim (Option-cases (lookup key d.seen)) [
    | inr (st, e) ↦ ground arith
    | inl e ↦ elim (Option-cases (Cache.get d.cache key now)) [
      | inr (ent, g) ↦ ground (
        arith,
        lookup-insert key k
            (record { done = true; result = result_from_cache host_of t ent; occs = [] }) d.seen,
      )
      | inl g ↦ ground (
        arith,
        lookup-insert key k
            (record { done = false; result = zero_result zero_target; occs = t ∷ [] }) d.seen,
      )
    ]
  ]

  begin_present :
      (d : Dedup) (key : Text) (t : Target) (now : ℤ)
      → present key (add_begin host_of d key t now).0 ≡ 1
  unfolding add_begin
  begin_present d key t now = elim (Option-cases (lookup key d.seen)) [
    | inr (st, e) ↦ ground arith
    | inl e ↦ elim (Option-cases (Cache.get d.cache key now)) [
      | inr (ent, g) ↦ ground (
        arith,
        lookup-insert key key
            (record { done = true; result = result_from_cache host_of t ent; occs = [] }) d.seen,
        text_eq_refl key,
      )
      | inl g ↦ ground (
        arith,
        lookup-insert key key
            (record { done = false; result = zero_result zero_target; occs = t ∷ [] }) d.seen,
        text_eq_refl key,
      )
    ]
  ]

  queued_key :
      (d d' : Dedup) (key : Text) (t : Target) (now : ℤ) (j : CheckJob)
      → add_begin host_of d key t now ≡ (d', queued j)
      → j.key ≡ key
  unfolding add_begin
  queued_key d d' key t now j e = ground arith

  after_begin-HasEntries :
      (w : World) (key : Text) (t : Target) (now : ℤ) (r : Dedup × Begun)
      → add_begin host_of w.dedup key t now ≡ r
      → HasEntries (record w { dedup = r.0 })
      → present key r.0 ≡ 1
      → HasEntries (after_begin w key t r)
  after_begin-HasEntries w key t now (d, hit x) e h o = h
  after_begin-HasEntries w key t now (d, queued j) e h o =
      (h.0, (rw (queued_key w.dedup d key t now j e) o, h.1))
  after_begin-HasEntries w key t now (d, found) e h o = ((o, h.0), h.1)

  Step-HasEntries : {w v : World} → Step host_of w v → HasEntries w → HasEntries v
  Step-HasEntries {w} (begin key t now v e) h = rw e (
      after_begin-HasEntries w key t now _ refl
        (HasEntries-grow w (add_begin host_of w.dedup key t now).0 (begin_grows w.dedup key t now)
          h)
        (begin_present w.dedup key t now))
  Step-HasEntries {w} (finish key t before behind d emit v e f g) h =
      let (st, n, s) = add_finish_seen w.dedup d key t emit f in
      let grown = HasEntries-grow w d (λ k. present-insert k key w.dedup d _ s) h in
      rw g (All-remove _ before (key, t) behind (rw e at grown.0), grown.1)
  Step-HasEntries {w} (completes key res d occs v f g) h = rw g (
      HasEntries-grow w d
        (λ k. present-insert k key w.dedup d _ (complete_seen w.dedup d key res occs f)) h)

  pub Reach-HasEntries : {w v : World} → HasEntries w → Reach host_of w v → HasEntries v
  Reach-HasEntries h here = h
  Reach-HasEntries h (next r s) = Step-HasEntries s (Reach-HasEntries h r)

  -- In every reachable state, a worker that waits for the second lock of `add` finds the entry of
  -- its key: it never follows a nil pointer.
  pub add_finish-ne-none :
      (c : Cache) {w : World} (key : Text) (t : Target) (before behind : List (Text × Target))
      → Reach host_of (start c) w
      → w.waiting ≡ before ++ ((key, t) ∷ behind)
      → add_finish w.dedup key t ≢ none
  unfolding add_finish
  add_finish-ne-none c key t before behind r e =
      let h = Reach-HasEntries (tt, tt) r in
      let q = All-middle _ before (key, t) behind (rw e at h.0) in ground arith

  -- In every reachable state, the worker that completes a job finds the entry of its key.
  pub complete-ne-none :
      (c : Cache) {w : World} (j : CheckJob) (res : Result) (before behind : List CheckJob)
      → Reach host_of (start c) w
      → w.jobs ≡ before ++ (j ∷ behind)
      → complete w.dedup j.key res ≢ none
  unfolding complete
  complete-ne-none c j res before behind r e =
      let h = Reach-HasEntries (tt, tt) r in
      let q = All-middle _ before j behind (rw e at h.1) in ground arith
