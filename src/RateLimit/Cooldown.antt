-- ===== src/RateLimit/Cooldown.antt =====
-- internal/ratelimit/ratelimit.go: the cooldown after a 429 or 503, and `Acquire`, which waits for it.
use markdown_linkerator.Base.{
  ◌≡◌, ◌↔◌, refl, ◌⊎◌, inl, inr, Bool, true, false, List, [], ◌∷◌, arith, if◌then◌else◌, ℤ, pos,
  ◌+ℤ◌, ◌≤ℤ◌, ◌<ℤ◌, +ℤ_parts, leb_ℤ, ltb_ℤ, since, Bool-cases,
}
use markdown_linkerator.RateLimit.{
  Rates, HostState, arm_cooldown, penalize_429, max_cooldown, later, Round, granted, acquire_loop,
  acquire,
}

module _ (m : Rates) where
  open m use {F, Limiter}

  later_bounds :
      (old now wait : ℤ)
      → pos 0 ≤ℤ wait
      → wait ≤ℤ max_cooldown
      → (old ≤ℤ later old (now +ℤ wait))
        × ((now +ℤ wait) ≤ℤ later old (now +ℤ wait))
        × ((later old (now +ℤ wait) ≡ old) ⊎ (later old (now +ℤ wait) ≤ℤ (now +ℤ max_cooldown)))
  later_bounds old now wait h k = ground (arith, +ℤ_parts now wait, +ℤ_parts now max_cooldown)

  -- The wait that a host is made to keep: the server's, but five minutes at most.
  abbrev pub capped : ℤ → ℤ
  capped wait = if ltb_ℤ max_cooldown wait then max_cooldown else wait

  -- A 429 never shortens a cooldown, makes it last at least the server's wait of up to five
  -- minutes, and never makes it end more than five minutes from now.
  pub penalize_cooldown :
      (h : HostState F Limiter) (wait now : ℤ)
      → let after = (penalize_429 m h wait now).not_before in
        (h.not_before ≤ℤ after)
        × ((now +ℤ capped wait) ≤ℤ after)
        × ((after ≡ h.not_before) ⊎ (after ≤ℤ (now +ℤ max_cooldown)))
  unfolding penalize_429
  penalize_cooldown h wait now =
      ground (arith, +ℤ_parts now wait, +ℤ_parts now max_cooldown, +ℤ_parts now (pos 0))

  -- A positive wait that is armed in the middle of a check has the same bounds on the cooldown, and
  -- leaves the count of 429s and the limiter alone.
  pub arm_cooldown_bounds :
      (h : HostState F Limiter) (wait now : ℤ)
      → pos 0 <ℤ wait
      → let after = (arm_cooldown m h wait now).not_before in
        (h.not_before ≤ℤ after)
        × ((now +ℤ capped wait) ≤ℤ after)
        × ((after ≡ h.not_before) ⊎ (after ≤ℤ (now +ℤ max_cooldown)))
        × ((arm_cooldown m h wait now).n429 ≡ h.n429)
        × ((arm_cooldown m h wait now).limiter ≡ h.limiter)
  unfolding arm_cooldown
  arm_cooldown_bounds h wait now p = ground (arith, +ℤ_parts now wait, +ℤ_parts now max_cooldown)

-- The cooldown that a round read has run out at its instant.
abbrev pub IsOver : Round → Type 0
IsOver r = since r.not_before r.now ≤ℤ pos 0

-- The loop slept through this round.
abbrev pub IsSlept : Round → Type 0
IsSlept r = (pos 0 <ℤ since r.not_before r.now) × (r.cancelled ≡ false)

-- The loop lets a request through at this round, after it slept through all before it.
pub data GrantedAt : List Round → Type 0 where
  now : {r : Round} {rs : List Round} → IsOver r → GrantedAt (r ∷ rs)
  later_on : {r : Round} {rs : List Round} → IsSlept r → GrantedAt rs → GrantedAt (r ∷ rs)

granted-GrantedAt : (rs : List Round) → acquire_loop rs ≡ granted → GrantedAt rs
unfolding acquire_loop
granted-GrantedAt [] e = cc
granted-GrantedAt (r ∷ rs) e = elim (Bool-cases (leb_ℤ (since r.not_before r.now) (pos 0))) [
  | inl over ↦ now (ground arith)
  | inr long ↦ elim (Bool-cases r.cancelled) [
    | inl c ↦ absurd (ground arith)
    | inr c ↦ later_on (ground arith, c) (granted-GrantedAt rs (ground arith))
  ]
]

GrantedAt-granted : {rs : List Round} → GrantedAt rs → acquire_loop rs ≡ granted
unfolding acquire_loop
GrantedAt-granted (now over) = ground arith
GrantedAt-granted (later_on slept g) = ground (arith, GrantedAt-granted g)

-- `Acquire` lets a request through exactly when the bucket gives a token and some pass of the loop
-- finds the cooldown over, each pass before it having slept to its end without a cancellation.
pub acquire_iff :
    (bucket_fails : Bool) (rs : List Round)
    → (acquire bucket_fails rs ≡ granted) ↔ ((bucket_fails ≡ false) × GrantedAt rs)
unfolding acquire
acquire_iff true rs = (λ e. cc, λ h. cc)
acquire_iff false rs = (λ e. (refl, granted-GrantedAt rs e), λ h. GrantedAt-granted h.1)
