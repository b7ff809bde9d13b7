-- ===== src/Checker/Retry/Examples.antt =====
-- The retry policy on a check that meets a 503, a timeout and a refusal.
use markdown_linkerator.Base.{
  inr, ℕ, ◌+◌, ◌*◌, ◌≤◌, ◌≡◌, ◌&&◌, ◌↔◌, refl, ◌⊎◌, inl, true, false, Option, none, some, arith,
  ltb_ℤ, if◌then◌else◌, Text, text, ℤ, pos, pos_part, ◌≤ℤ◌,
}
use markdown_linkerator.Samples.{sample_config}
use markdown_linkerator.Model.Key.{trim_space}
use markdown_linkerator.Checker.Retry.{
  RetryState, fresh_state, response, redirect_cap, timed_out, check_retry, compute_backoff,
  retry_after_too_long, atoi,
}
use markdown_linkerator.Checker.Retry.Budget.{
  Exchange, stop, again, retries_bounded, check_retry_response,
}
use markdown_linkerator.Checker.Retry.Waits.{retry_after_honoured, retry_after_overflow}

abbrev no_date : Text → Option ℤ
no_date t = none

-- The least draw.
abbrev least_draw : ℕ → ℕ
least_draw n = 0

abbrev after_timeout : RetryState
after_timeout = record fresh_state { timeout_retries = 1; retries = 1 }

one_retry : Exchange no_date least_draw sample_config fresh_state after_timeout
unfolding check_retry compute_backoff
one_retry =
    again false timed_out (pos 0) (pos 1000) (pos 9000) 0 none (pos 0) refl
      (stop false redirect_cap (pos 5) refl)

no_retry : Exchange no_date least_draw sample_config after_timeout after_timeout
unfolding check_retry
no_retry = stop false redirect_cap (pos 5) refl

retries_bounded_example :
    after_timeout.retries
    ≤ pos_part sample_config.connect_retries
      + pos_part sample_config.max_retries
      + pos_part sample_config.max_retries
retries_bounded_example = retries_bounded no_date least_draw sample_config one_retry (inr no_retry)

abbrev unavailable : ℕ
unavailable = 503

check_retry_response_example :
    ((check_retry no_date sample_config fresh_state false (response 503 (text "7")) (pos 0)).1
      ≡ true)
    ↔ (((unavailable ≡ 503) ⊎ ((unavailable ≡ 429) × (sample_config.retry_on_429 ≡ true)))
        × (retry_after_too_long no_date sample_config (text "7") (pos 0) ≡ false)
        × (pos (fresh_state.rate_limit_retries + 1) ≤ℤ sample_config.max_retries))
check_retry_response_example =
    check_retry_response no_date least_draw sample_config fresh_state 503 (text "7") (pos 0)

atoi_seven : atoi (trim_space (text "7")) ≡ some (pos 7)
unfolding atoi trim_space
atoi_seven = refl

retry_after_honoured_example :
    (retry_after_too_long no_date sample_config (text "7") (pos 0)
      ≡ ltb_ℤ sample_config.backoff_max (pos (7 * 1_000_000_000)))
    × ((compute_backoff no_date least_draw fresh_state
          (pos 1000)
          sample_config.backoff_max
          0
          (some (429, text "7"))
          (pos 0)).1
        ≡ (if ltb_ℤ sample_config.backoff_max (pos (7 * 1_000_000_000))
            then sample_config.backoff_max
            else pos (7 * 1_000_000_000)))
    × ((ltb_ℤ sample_config.backoff_max (pos (7 * 1_000_000_000))
          && (check_retry no_date sample_config fresh_state false
              (response 429 (text "7"))
              (pos 0)).1)
        ≡ false)
retry_after_honoured_example =
    retry_after_honoured no_date least_draw sample_config fresh_state (text "7") 7 0 429 (pos 1000)
      (pos 0) atoi_seven (omega arith) (omega arith) (inl refl)

atoi_huge : atoi (trim_space (text "9223372037")) ≡ some (pos 9_223_372_037)
unfolding atoi trim_space
atoi_huge = refl

retry_after_overflow_example :
    (retry_after_too_long no_date sample_config (text "9223372037") (pos 0) ≡ false)
    × ((compute_backoff no_date least_draw fresh_state
          (pos 1000)
          sample_config.backoff_max
          0
          (some (429, text "9223372037"))
          (pos 0)).1
        ≡ pos 0)
retry_after_overflow_example =
    retry_after_overflow no_date least_draw sample_config fresh_state (text "9223372037")
      9_223_372_037 0 429 (pos 1000) (pos 0) atoi_huge (omega arith) (omega arith) (omega arith)
      (inl refl)
