-- ===== src/Pipeline/Dedup/Jobs.antt =====
-- internal/pipeline/dedup.go: the jobs that are made for a key.
use markdown_linkerator.Base.{
  ℕ, ◌≤◌, ◌≡◌, inl, inr, Bool, true, false, none, some, [], ◌∷◌, arith, count, Text, text_eq,
  text_eq_iff, lookup, insert, lookup-insert, ℤ, Option-cases,
}
use markdown_linkerator.Model.{CheckJob, Target, zero_result}
use markdown_linkerator.Cache
use markdown_linkerator.Cache.{Cache}
use markdown_linkerator.Pipeline.Dedup.{
  UrlState, Dedup, add_begin, new_dedup, result_from_cache, zero_target,
}
use markdown_linkerator.Pipeline.Dedup.Settled.{add_finish_seen, complete_seen}
use markdown_linkerator.Pipeline.Dedup.World.{
  World, start, after_begin, Step, begin, finish, completes, Reach, here, next,
}

abbrev pub for_key : Text → CheckJob → Bool
for_key k j = text_eq j.key k

-- 1 where the map has an entry for the key, else 0.
abbrev pub present : Text → Dedup → ℕ
present k d = elim (lookup k d.seen) [ none ↦ 0 | some _ ↦ 1 ]

pub present-le : (k : Text) (d : Dedup) → present k d ≤ 1
present-le k d = ground arith

abbrev JobsBounded : Text → World → Type 0
JobsBounded k w = count (for_key k) w.jobs ≤ present k w.dedup

pub present-insert :
    (k key : Text) (d d' : Dedup) (v : UrlState)
    → d'.seen ≡ insert key v d.seen
    → present k d ≤ present k d'
present-insert k key d d' v e = ground (arith, lookup-insert key k v d.seen)

module _ (host_of : Text → Text) where
  begin-JobsBounded :
      (k : Text) (w : World) (key : Text) (t : Target) (now : ℤ)
      → JobsBounded k w
      → JobsBounded k (after_begin w key t (add_begin host_of w.dedup key t now))
  unfolding add_begin
  begin-JobsBounded k w key t now h = elim (Option-cases (lookup key w.dedup.seen)) [
    | inr (st, e) ↦ ground arith
    | inl e ↦ elim (Option-cases (Cache.get w.dedup.cache key now)) [
      | inr (ent, g) ↦ ground (
        arith,
        lookup-insert key k
            (record { done = true; result = result_from_cache host_of t ent; occs = [] })
            w.dedup.seen,
        text_eq_iff key k,
      )
      | inl g ↦ ground (
        arith,
        lookup-insert key k
            (record { done = false; result = zero_result zero_target; occs = t ∷ [] }) w.dedup.seen,
        text_eq_iff key k,
      )
    ]
  ]

  Step-JobsBounded : (k : Text) {w v : World} → Step host_of w v → JobsBounded k w → JobsBounded k v
  Step-JobsBounded k {w} (begin key t now v e) h = rw e (begin-JobsBounded k w key t now h)
  Step-JobsBounded k {w} (finish key t before behind d emit v e f g) h =
      let (st, n, s) = add_finish_seen w.dedup d key t emit f in
      rw g (omega (arith, present-insert k key w.dedup d _ s))
  Step-JobsBounded k {w} (completes key res d occs v f g) h =
      rw g
        (omega (arith, present-insert k key w.dedup d _ (complete_seen w.dedup d key res occs f)))

  Reach-JobsBounded :
      (k : Text) {w v : World} → JobsBounded k w → Reach host_of w v → JobsBounded k v
  Reach-JobsBounded k h here = h
  Reach-JobsBounded k h (next r s) = Step-JobsBounded k s (Reach-JobsBounded k h r)

  -- Whatever the interleaving, at most one job is ever made for a key.
  pub one_job_per_key :
      (c : Cache) (k : Text) {w : World} → Reach host_of (start c) w → count (for_key k) w.jobs ≤ 1
  unfolding new_dedup
  one_job_per_key c k {w} r =
      omega (arith, Reach-JobsBounded k (omega arith) r, present-le k w.dedup)
