-- ===== src/Checker/Retry/Budget.antt =====
-- internal/checker/http.go: how often a request is tried again.
use markdown_linkerator.Base.{
  inl, inr, ℕ, ◌+◌, ◌≤◌, ◌≡◌, Bool, true, false, Option, none, some, arith, ltb, if◌then◌else◌,
  Text, ℤ, pos, pos_part, ◌≤ℤ◌, ◌↔◌, ◌⊎◌,
}
use markdown_linkerator.Config.Resolve.{Resolved}
use markdown_linkerator.Checker.Retry.{
  RetryState, fresh_state, Attempt, response, redirect_cap, timed_out, no_connection,
  retry_after_too_long, check_retry, compute_backoff,
}

-- min, written out.
abbrev pub least : ℕ → ℕ → ℕ
least a b = if ltb b a then b else a

module _ (parse_time : Text → Option ℤ) (draw : ℕ → ℕ) {F R : Type 0} (cfg : Resolved F R) where
  -- What is used up of the three budgets.
  abbrev pub spent : RetryState → ℕ
  spent st =
      least (pos_part cfg.connect_retries) st.transport_failures
      + least (pos_part cfg.max_retries) st.rate_limit_retries
      + least (pos_part cfg.max_retries) st.timeout_retries

  -- An approved retry uses up one of a budget; a refusal gives nothing back; neither counts as a
  -- request.
  check_retry_spends :
      (st : RetryState) (cancelled : Bool) (a : Attempt) (now : ℤ)
      → let (st', again) = check_retry parse_time cfg st cancelled a now in
        (st'.retries ≡ st.retries) × ((if again then spent st + 1 else spent st) ≤ spent st')
  unfolding check_retry
  check_retry_spends st true a now = ground arith
  check_retry_spends st false redirect_cap now = ground arith
  check_retry_spends st false timed_out now = ground arith
  check_retry_spends st false no_connection now = ground arith
  check_retry_spends st false (response code header) now = ground arith

  compute_backoff_keeps :
      (st : RetryState) (lo hi : ℤ) (attempt : ℕ) (resp : Option (ℕ × Text)) (now : ℤ)
      → let st' = (compute_backoff parse_time draw st lo hi attempt resp now).0 in
        (st'.retries ≡ st.retries) × (spent st' ≡ spent st)
  unfolding compute_backoff
  compute_backoff_keeps st lo hi attempt none now = ground arith
  compute_backoff_keeps st lo hi attempt (some (code, header)) now = ground arith

  -- One call of the shared client, seen by its hooks: after each attempt it asks `checkRetry`; told
  -- to go on, it may give up on its own limit or on a cancelled wait, or it asks `backoff`, counts a
  -- retry and makes the next attempt.
  pub data Exchange : RetryState → RetryState → Type 0 where
    stop :
        {st st' : RetryState} (cancelled : Bool) (a : Attempt) (now : ℤ)
        → check_retry parse_time cfg st cancelled a now ≡ (st', false)
        → Exchange st st'
    give_up :
        {st st' : RetryState} (cancelled : Bool) (a : Attempt) (now : ℤ)
        → check_retry parse_time cfg st cancelled a now ≡ (st', true)
        → Exchange st st'
    again :
        {st st₁ st' : RetryState} (cancelled : Bool) (a : Attempt) (now : ℤ) (lo hi : ℤ)
        (attempt : ℕ) (resp : Option (ℕ × Text)) (later : ℤ)
        → check_retry parse_time cfg st cancelled a now ≡ (st₁, true)
        → Exchange
            (record (compute_backoff parse_time draw st₁ lo hi attempt resp later).0 {
              retries = st₁.retries + 1;
            })
            st'
        → Exchange st st'

  retries-spent :
      {st st' : RetryState} → Exchange st st' → st'.retries + spent st ≤ spent st' + st.retries
  retries-spent {st} (stop cancelled a now e) =
      ground (arith, check_retry_spends st cancelled a now)
  retries-spent {st} (give_up cancelled a now e) =
      ground (arith, check_retry_spends st cancelled a now)
  retries-spent {st} (again {st₁ = st₁} cancelled a now lo hi attempt resp later e x) = ground (
    arith,
    check_retry_spends st cancelled a now,
    compute_backoff_keeps st₁ lo hi attempt resp later,
    retries-spent x,
  )

  -- A check makes one exchange for HEAD and, or not, one for GET, on one state. However the servers
  -- and the network behave, its retries are at most the connection retries and twice the retry
  -- limit together, where a limit under 0 counts as 0.
  pub retries_bounded :
      {head get : RetryState}
      → Exchange fresh_state head
      → (get ≡ head) ⊎ Exchange head get
      → get.retries
        ≤ pos_part cfg.connect_retries + pos_part cfg.max_retries + pos_part cfg.max_retries
  retries_bounded x (inl e) = ground (arith, retries-spent x, e)
  retries_bounded x (inr y) = ground (arith, retries-spent x, retries-spent y)

  -- Under a live context, the retry hook asks for a retry of a response exactly where its status is 503, or
  -- 429 with such retries turned on, its Retry-After is not over the cap, and the hook's count of such
  -- retries is below the limit. (The client's own limit on all retries together stands beside the hook.)
  pub check_retry_response :
      (st : RetryState) (code : ℕ) (header : Text) (now : ℤ)
      → ((check_retry parse_time cfg st false (response code header) now).1 ≡ true) ↔ (
          ((code ≡ 503) ⊎ ((code ≡ 429) × (cfg.retry_on_429 ≡ true)))
          × (retry_after_too_long parse_time cfg header now ≡ false)
          × (pos (st.rate_limit_retries + 1) ≤ℤ cfg.max_retries))
  unfolding check_retry
  check_retry_response st code header now = ground arith
