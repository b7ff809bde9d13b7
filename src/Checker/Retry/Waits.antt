-- ===== src/Checker/Retry/Waits.antt =====
-- internal/checker/http.go: how long the waits between attempts are.
use markdown_linkerator.Base.{
  ℕ, zero, suc, ◌+◌, ◌*◌, ◌≤◌, ◌≡◌, ◌∙◌, ap, sym, false, ◌&&◌, Option, some, ◌⊎◌, [], ◌∷◌, arith,
  if◌then◌else◌, Text, ℤ, pos, ltb_ℤ, leb_ℤ, ◌≤ℤ◌, ◌<ℤ◌,
}
use markdown_linkerator.Model.Key.{trim_space}
use markdown_linkerator.Config.Resolve.{Resolved}
use markdown_linkerator.Checker.Retry.{
  RetryState, response, check_retry, rate_limit_retry, connect_backoff, backoff_range, backoff_base,
  exp_jitter_backoff, compute_backoff, parse_retry_after, retry_after_too_long, wrap_int64,
  seconds_duration, nat_of, atoi, parse_trimmed,
}

-- A refused connection is tried again after half a second at least and three seconds at most, and
-- never sooner than after the attempt before.
pub connect_backoff_bounds :
    (attempt : ℕ)
    → (500_000_000 ≤ connect_backoff attempt)
      × (connect_backoff attempt ≤ 3_000_000_000)
      × (connect_backoff attempt ≤ connect_backoff (suc attempt))
unfolding connect_backoff
connect_backoff_bounds zero = omega arith
connect_backoff_bounds (suc zero) = omega arith
connect_backoff_bounds (suc (suc zero)) = omega arith
connect_backoff_bounds (suc (suc (suc n))) = ground arith

-- The shortest wait: the given floor, a millisecond in place of one that is not positive, and never
-- more than the ceiling.
abbrev pub shortest : ℤ → ℤ → ℤ
shortest lo hi =
    let wanted = if leb_ℤ lo (pos 0) then pos 1_000_000 else lo in
    if ltb_ℤ hi wanted then hi else wanted

backoff_range_lem :
    (lo hi : ℤ)
    → pos 0 <ℤ hi
    → ((backoff_range lo hi).0 ≡ shortest lo hi) × ((backoff_range lo hi).1 ≡ hi)
unfolding backoff_range
backoff_range_lem lo hi p = ground arith

shortest_bounds : (lo hi : ℤ) → pos 0 <ℤ hi → (pos 0 <ℤ shortest lo hi) × (shortest lo hi ≤ℤ hi)
shortest_bounds lo hi p = ground arith

backoff_base-le : (lo hi attempt : ℕ) → backoff_base lo hi attempt ≤ hi
unfolding backoff_base
backoff_base-le lo hi attempt = ground arith

nat_of_pos : (n : ℤ) → pos 0 <ℤ n → pos (nat_of n) ≡ n
nat_of_pos n p = ground arith

nat_of_mono : (a b : ℤ) → a ≤ℤ b → nat_of a ≤ nat_of b
nat_of_mono a b h = ground arith

-- The exponential backoff waits at least the shortest wait and at most the ceiling, at every
-- attempt and whatever the draw, where the ceiling is positive.
pub exp_jitter_backoff_bounds :
    (draw : ℕ → ℕ) (lo hi : ℤ) (attempt : ℕ)
    → ((n : ℕ) → draw (n + 1) ≤ n)
    → pos 0 <ℤ hi
    → let wait = pos (exp_jitter_backoff draw lo hi attempt) in
      (shortest lo hi ≤ℤ wait) × (wait ≤ℤ hi)
unfolding exp_jitter_backoff
exp_jitter_backoff_bounds draw lo hi attempt below p =
    let l = shortest lo hi in
    let base = backoff_base (nat_of l) (nat_of hi) attempt in
    let b = shortest_bounds lo hi p in
    ground (
      arith,
      backoff_range_lem lo hi p,
      below base,
      backoff_base-le (nat_of l) (nat_of hi) attempt,
      nat_of_mono l hi b.1,
      nat_of_pos l b.0,
      nat_of_pos hi p,
    )

seconds_exact :
    (secs : ℕ) → secs ≤ 9_223_372_036 → seconds_duration secs ≡ pos (secs * 1_000_000_000)
unfolding wrap_int64
seconds_exact secs h = ground arith

seconds_wraps :
    (secs : ℕ) → 9_223_372_037 ≤ secs → secs ≤ 18_446_744_073 → seconds_duration secs <ℤ pos 0
unfolding wrap_int64
seconds_wraps secs h k = ground arith

module _ (parse_time : Text → Option ℤ) (draw : ℕ → ℕ) {F R : Type 0} (cfg : Resolved F R) where
  parse_retry_after_seconds :
      (header : Text) (secs : ℕ) (now : ℤ)
      → atoi (trim_space header) ≡ some (pos secs)
      → parse_retry_after parse_time header now ≡ some (seconds_duration secs)
  unfolding parse_retry_after
  parse_retry_after_seconds header secs now e = go (trim_space header) e
    where
      go :
          (v : Text)
          → atoi v ≡ some (pos secs)
          → parse_trimmed parse_time v now ≡ some (seconds_duration secs)
      go [] q = absurd (unfold atoi in ground arith)
      go (c ∷ v) q = rw (q, parse_trimmed)

  over_cap :
      (st : RetryState) (header : Text) (code : ℕ) (now : ℤ)
      → (code ≡ 429) ⊎ (code ≡ 503)
      → (retry_after_too_long parse_time cfg header now
          && (check_retry parse_time cfg st false (response code header) now).1)
        ≡ false
  unfolding check_retry rate_limit_retry
  over_cap st header code now c = ground arith

  -- A Retry-After in seconds, on a 429 or 503, is honoured as sent: up to the cap the next attempt
  -- waits exactly that long, and above the cap there is no next attempt: the retry hook asks for none. This
  -- holds up to 9223372036 seconds, where a cap is set.
  pub retry_after_honoured :
      (st : RetryState) (header : Text) (secs attempt code : ℕ) (lo now : ℤ)
      → atoi (trim_space header) ≡ some (pos secs)
      → secs ≤ 9_223_372_036
      → pos 0 <ℤ cfg.backoff_max
      → (code ≡ 429) ⊎ (code ≡ 503)
      → (retry_after_too_long parse_time cfg header now
          ≡ ltb_ℤ cfg.backoff_max (pos (secs * 1_000_000_000)))
        × ((compute_backoff parse_time draw st lo cfg.backoff_max attempt
              (some (code, header))
              now).1
            ≡ (if ltb_ℤ cfg.backoff_max (pos (secs * 1_000_000_000))
                then cfg.backoff_max
                else pos (secs * 1_000_000_000)))
        × ((ltb_ℤ cfg.backoff_max (pos (secs * 1_000_000_000))
              && (check_retry parse_time cfg st false (response code header) now).1)
            ≡ false)
  unfolding retry_after_too_long compute_backoff
  retry_after_honoured st header secs attempt code lo now e small cap c =
      let wait = parse_retry_after_seconds header secs now e in
      let exact = seconds_exact secs small in
      let too_long : retry_after_too_long parse_time cfg header now
          ≡ ltb_ℤ cfg.backoff_max (pos (secs * 1_000_000_000)) =
        ground (arith, wait, exact) in
      (
        too_long,
        ground (arith, wait, exact),
        ap (λ b. b && (check_retry parse_time cfg st false (response code header) now).1)
              (sym too_long)
            ∙ over_cap st header code now c,
      )

  -- From 9223372037 to 18446744073 seconds the product overflows: such a Retry-After on a 429 or
  -- 503 is not taken to be over a cap that is set, and the next attempt follows with no wait at all.
  pub retry_after_overflow :
      (st : RetryState) (header : Text) (secs attempt code : ℕ) (lo now : ℤ)
      → atoi (trim_space header) ≡ some (pos secs)
      → 9_223_372_037 ≤ secs
      → secs ≤ 18_446_744_073
      → pos 0 <ℤ cfg.backoff_max
      → (code ≡ 429) ⊎ (code ≡ 503)
      → (retry_after_too_long parse_time cfg header now ≡ false)
        × ((compute_backoff parse_time draw st lo cfg.backoff_max attempt
              (some (code, header))
              now).1
            ≡ pos 0)
  unfolding retry_after_too_long compute_backoff
  retry_after_overflow st header secs attempt code lo now e low high cap c =
      ground (arith, parse_retry_after_seconds header secs now e, seconds_wraps secs low high)
