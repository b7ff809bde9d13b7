-- ===== src/Checker/Retry.antt =====
-- internal/checker/http.go and retrystate.go: when a request is tried again, and how long it waits.
-- The hooks that the shared client calls are functions on the state of one check. A response is its
-- status and its Retry-After header; http.ParseTime is the parameter `parse_time`.
pub mod Budget
pub mod Waits
mod Examples
use markdown_linkerator.Base.{
  ℕ, zero, suc, ◌+◌, ◌-◌, ◌*◌, ◌%◌, ◌^◌, Bool, true, false, not, ◌&&◌, ◌||◌, Option, none, some,
  List, [], ◌∷◌, ◌==◌, ltb, leb, if◌then◌else◌, Text, text, ℤ, pos, negsuc, ◌-ℤ◌, leb_ℤ, ltb_ℤ,
  since, ◌≡◌,
}
use markdown_linkerator.Model.Key.{trim_space}
use markdown_linkerator.Config.Resolve.{Resolved}

pub record RetryState : Type 0 where
  pub retries : ℕ
  pub saw_429 : Bool
  pub retry_after : ℤ
  pub transport_failures : ℕ
  pub rate_limit_retries : ℕ
  pub timeout_retries : ℕ

abbrev pub fresh_state : RetryState
fresh_state = record {
  retries = 0;
  saw_429 = false;
  retry_after = pos 0;
  transport_failures = 0;
  rate_limit_retries = 0;
  timeout_retries = 0;
}

-- What one attempt comes to: a response with its status and Retry-After header, the redirect cap, a
-- timeout, or another failure of the connection.
pub data Attempt : Type 0 where
  response : ℕ → Text → Attempt
  redirect_cap timed_out no_connection : Attempt

abbrev is_digit : ℕ → Bool
is_digit c = leb b'0' c && leb c b'9'

unfoldable pub digits_value : ℕ → Text → Option ℕ
digits_value acc [] = some acc
digits_value acc (c ∷ s) =
    let rest = digits_value (acc * 10 + (c - b'0')) s in if is_digit c then rest else none

unsigned_value : Text → Option ℕ
unfolding digits_value
unsigned_value [] = none
unsigned_value (c ∷ s) = digits_value 0 (c ∷ s)

abbrev in_int64 : Option ℤ → Option ℤ
in_int64 none = none
in_int64 (some (pos n)) = if ltb n 9_223_372_036_854_775_808 then some (pos n) else none
in_int64 (some (negsuc n)) = if ltb n 9_223_372_036_854_775_808 then some (negsuc n) else none

abbrev negated : Option ℕ → Option ℤ
negated none = none
negated (some zero) = some (pos 0)
negated (some (suc n)) = some (negsuc n)

abbrev positive : Option ℕ → Option ℤ
positive none = none
positive (some n) = some (pos n)

-- strconv.Atoi
unfoldable pub atoi : Text → Option ℤ
unfolding unsigned_value
atoi [] = none
atoi (c ∷ s) =
    if c == b'-'
    then in_int64 (negated (unsigned_value s))
    else if c == b'+'
    then in_int64 (positive (unsigned_value s))
    else in_int64 (positive (unsigned_value (c ∷ s)))

-- An int64 product of non-negative factors, which wraps around.
unfoldable pub wrap_int64 : ℕ → ℤ
wrap_int64 x =
    let r = x % 2 ^ 64 in
    if ltb r 9_223_372_036_854_775_808 then pos r else negsuc (18_446_744_073_709_551_615 - r)

-- `time.Duration(secs) * time.Second` for a count that is not negative.
abbrev pub seconds_duration : ℕ → ℤ
seconds_duration secs = wrap_int64 (secs * 1_000_000_000)

-- The value and whether it parses; `now` is the time of the call.
module _ (parse_time : Text → Option ℤ) where
  date_delay : Text → ℤ → Option ℤ
  date_delay v now = elim (parse_time v) [
    | none ↦ none
    | some t ↦ if ltb_ℤ (pos 0) (since t now) then some (since t now) else some (pos 0)
  ]

  parse_trimmed : Text → ℤ → Option ℤ
  unfolding date_delay
  parse_trimmed [] now = none
  parse_trimmed (c ∷ v) now = elim (atoi (c ∷ v)) [
    | none ↦ date_delay (c ∷ v) now
    | some (pos secs) ↦ some (seconds_duration secs)
    | some (negsuc n) ↦ none
  ]

  unfoldable pub parse_retry_after : Text → ℤ → Option ℤ
  unfolding parse_trimmed
  parse_retry_after v now = parse_trimmed (trim_space v) now

  module _ {F R : Type 0} (cfg : Resolved F R) where
    unfoldable pub retry_after_too_long : Text → ℤ → Bool
    retry_after_too_long header now = elim (parse_retry_after header now) [
      | none ↦ false
      | some d ↦ ltb_ℤ (pos 0) cfg.backoff_max && ltb_ℤ cfg.backoff_max d
    ]

    unfoldable pub rate_limit_retry : RetryState → Text → ℤ → RetryState × Bool
    rate_limit_retry st header now = if retry_after_too_long header now then (st, false) else (
      record st { rate_limit_retries = st.rate_limit_retries + 1 },
      not (ltb_ℤ cfg.max_retries (pos (st.rate_limit_retries + 1))),
    )

    on_status : RetryState → ℕ → Text → ℤ → RetryState × Bool
    unfolding rate_limit_retry
    on_status st code header now =
        if code == 429
        then if not cfg.retry_on_429
          then (record st { saw_429 = true }, false)
          else rate_limit_retry (record st { saw_429 = true }) header now
        else if code == 503
        then rate_limit_retry st header now
        else (st, false)

    -- `checkRetry`; the flag is whether the context is cancelled.
    unfoldable pub check_retry : RetryState → Bool → Attempt → ℤ → RetryState × Bool
    unfolding on_status
    check_retry st true attempt now = (st, false)
    check_retry st false redirect_cap now = (st, false)
    check_retry st false timed_out now = (
      record st { timeout_retries = st.timeout_retries + 1 },
      not (ltb_ℤ cfg.max_retries (pos (st.timeout_retries + 1))),
    )
    check_retry st false no_connection now = (
      record st { transport_failures = st.transport_failures + 1 },
      not (ltb_ℤ cfg.connect_retries (pos (st.transport_failures + 1))),
    )
    check_retry st false (response code header) now = on_status st code header now

-- 500ms << min(attempt, 3), and 3 seconds at most.
unfoldable pub connect_backoff : ℕ → ℕ
connect_backoff attempt =
    let d = 500_000_000 * 2 ^ (if ltb attempt 3 then attempt else 3) in
    if ltb 3_000_000_000 d then 3_000_000_000 else d

-- The floor `lo` and the ceiling `hi` after the three tests of `expJitterBackoff`.
unfoldable pub backoff_range : ℤ → ℤ → ℤ × ℤ
backoff_range lo hi =
    let lo' = if leb_ℤ lo (pos 0) then pos 1_000_000 else lo in
    let lo'' = if ltb_ℤ (pos 0) hi && ltb_ℤ hi lo' then hi else lo' in
    (lo'', if ltb_ℤ hi lo'' then lo'' else hi)

abbrev nat_of : ℤ → ℕ
nat_of (pos n) = n
nat_of (negsuc n) = 0

-- `lo * 2^attempt`, or the ceiling where that is larger. Exact while `lo` is under 2^53, so that it
-- is a float64; a product that does not fit an int64 is over the ceiling.
unfoldable pub backoff_base : ℕ → ℕ → ℕ → ℕ
backoff_base lo hi attempt = if ltb hi (lo * 2 ^ attempt) then hi else lo * 2 ^ attempt

-- `draw n` is rand.Int64N(n), a number under `n`.
unfoldable pub exp_jitter_backoff : (ℕ → ℕ) → ℤ → ℤ → ℕ → ℕ
exp_jitter_backoff draw lo hi attempt =
    let (low, high) = backoff_range lo hi in
    let wait = draw (backoff_base (nat_of low) (nat_of high) attempt + 1) in
    if ltb wait (nat_of low) then nat_of low else wait

module _ (parse_time : Text → Option ℤ) (draw : ℕ → ℕ) where
  honoured : RetryState → ℤ → ℤ → RetryState × ℤ
  honoured st hi d = (
    record st { retry_after = d },
    let floored = if ltb_ℤ d (pos 0) then pos 0 else d in
        if ltb_ℤ (pos 0) hi && ltb_ℤ hi floored then hi else floored,
  )

  -- `computeBackoff`, with the state that it updates; `none` is an attempt with no response.
  unfoldable pub compute_backoff : RetryState → ℤ → ℤ → ℕ → Option (ℕ × Text) → ℤ → RetryState × ℤ
  unfolding honoured
  compute_backoff st lo hi attempt none now = (st, pos (connect_backoff attempt))
  compute_backoff st lo hi attempt (some (code, header)) now =
      let fallback : RetryState × ℤ = (st, pos (exp_jitter_backoff draw lo hi attempt)) in
      if code == 429 || code == 503
      then elim (parse_retry_after parse_time header now) [
        | none ↦ fallback
        | some d ↦ honoured st hi d
      ]
      else fallback
