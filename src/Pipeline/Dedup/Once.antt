-- ===== src/Pipeline/Dedup/Once.antt =====
-- internal/pipeline/dedup.go: where the occurrences of a URL are, in any interleaving.
use markdown_linkerator.Base.{
  ℕ, ◌+◌, ◌≡◌, refl, ap, inl, inr, Bool, true, false, Option, none, some, List, [], ◌∷◌, arith,
  count, count-append, Text, text_eq, Map, lookup, insert, ℤ, Bool-cases, Option-cases,
}
use markdown_linkerator.Model.{Target, Result, zero_result}
use markdown_linkerator.Cache
use markdown_linkerator.Cache.{Cache, Entry}
use markdown_linkerator.Pipeline.Dedup.{
  UrlState, Dedup, add_begin, add_finish, complete, fan_out, result_for, finish_on,
  result_from_cache, zero_target,
}
use markdown_linkerator.Pipeline.Dedup.World.{
  World, after_begin, Step, begin, finish, completes, Reach, here, next,
}

-- How many occurrences that pass a test wait in the entries of the map.
abbrev pub stored : (Target → Bool) → Map UrlState → ℕ
stored p [] = 0
stored p ((k, st) ∷ m) = count p st.occs + stored p m

abbrev pub stored_at : (Target → Bool) → Option UrlState → ℕ
stored_at p none = 0
stored_at p (some st) = count p st.occs

pub stored-insert :
    (p : Target → Bool) (k : Text) (st : UrlState) (m : Map UrlState)
    → stored p (insert k st m) + stored_at p (lookup k m) ≡ stored p m + count p st.occs
unfolding insert lookup
stored-insert p k st [] = omega arith
stored-insert p k st ((j, old) ∷ m) = elim (Bool-cases (text_eq j k)) [
  | inl e ↦ rw e (omega arith)
  | inr e ↦ rw e (omega (arith, stored-insert p k st m))
]

abbrev pub for_target : (Target → Bool) → Result → Bool
for_target p r = p r.target

abbrev pub for_waiting : (Target → Bool) → Text × Target → Bool
for_waiting p (k, t) = p t

pub count-fan_out :
    (p : Target → Bool) (res : Result) (reused : Bool) (occs : List Target)
    → count (for_target p) (fan_out res reused occs) ≡ count p occs
unfolding fan_out result_for
count-fan_out p res reused [] = refl
count-fan_out p res reused (t ∷ occs) = ground (arith, count-fan_out p res true occs)

-- The occurrences that pass a test, wherever they are now.
abbrev pub accounted : (Target → Bool) → World → ℕ
accounted p w =
    count (for_target p) w.emitted + count (for_waiting p) w.waiting + stored p w.dedup.seen

-- No occurrence is lost and none is counted twice.
abbrev pub Conserves : (Target → Bool) → World → Type 0
Conserves p w = count p w.added ≡ accounted p w

module _ (host_of : Text → Text) (p : Target → Bool) where
  begin-Conserves :
      (w : World) (key : Text) (t : Target) (now : ℤ)
      → Conserves p w
      → Conserves p (after_begin w key t (add_begin host_of w.dedup key t now))
  unfolding add_begin result_for
  begin-Conserves w key t now h = elim (Option-cases (lookup key w.dedup.seen)) [
    | inr (st, e) ↦ ground arith
    | inl e ↦ elim (Option-cases (Cache.get w.dedup.cache key now)) [
      | inr (ent, g) ↦ ground (arith, stored-insert p key (cached ent) w.dedup.seen)
      | inl g ↦ ground (arith, stored-insert p key fresh w.dedup.seen)
    ]
  ]
    where
      cached : Entry → UrlState
      cached ent = record { done = true; result = result_from_cache host_of t ent; occs = [] }

      fresh : UrlState
      fresh = record { done = false; result = zero_result zero_target; occs = t ∷ [] }

  pub stored-complete :
      (d d' : Dedup) (key : Text) (res : Result) (occs : List Target)
      → complete d key res ≡ some (d', occs)
      → stored p d'.seen + count p occs ≡ stored p d.seen
  unfolding complete
  stored-complete d d' key res occs e = elim (Option-cases (lookup key d.seen)) [
    | inl n ↦ ground arith
    | inr (st, n) ↦
        ground (arith, stored-insert p key (record { done = true; result = res; occs = [] }) d.seen)
  ]

  pub stored-finish :
      (d d' : Dedup) (key : Text) (t : Target) (emit : List Result)
      → add_finish d key t ≡ some (d', emit)
      → stored p d'.seen + count (for_target p) emit ≡ stored p d.seen + count p (t ∷ [])
  unfolding add_finish result_for
  stored-finish d d' key t emit e = elim (Option-cases (lookup key d.seen)) [
    | inl n ↦ ground arith
    | inr (st, n) ↦
        ground
          (arith, stored-insert p key (finish_on st t).0 d.seen, count-append p st.occs (t ∷ []))
  ]

  Step-Conserves : {w v : World} → Step host_of w v → Conserves p w → Conserves p v
  Step-Conserves {w} (begin key t now v e) h = rw e (begin-Conserves w key t now h)
  Step-Conserves {w} (finish key t before behind d emit v e f g) h = rw g (
      omega (
        arith,
        stored-finish w.dedup d key t emit f,
        ap (λ l. count (for_waiting p) l) e,
        count-append (for_waiting p) before ((key, t) ∷ behind),
        count-append (for_waiting p) before behind,
        count-append (for_target p) emit w.emitted,
        one_more before behind key t,
      ))
    where
      one_more :
          (before behind : List (Text × Target)) (key : Text) (t : Target)
          → count (for_waiting p) ((key, t) ∷ behind)
            ≡ count p (t ∷ []) + count (for_waiting p) behind
      one_more before behind key t = ground arith
  Step-Conserves {w} (completes key res d occs v f g) h = rw g (
      omega (
        arith,
        stored-complete w.dedup d key res occs f,
        count-fan_out p res false occs,
        count-append (for_target p) (fan_out res false occs) w.emitted,
      ))

pub Reach-Conserves :
    (host_of : Text → Text) (p : Target → Bool) {w v : World}
    → Conserves p w
    → Reach host_of w v
    → Conserves p v
Reach-Conserves host_of p h here = h
Reach-Conserves host_of p h (next r s) = Step-Conserves host_of p s (Reach-Conserves host_of p h r)
