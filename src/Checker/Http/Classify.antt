-- ===== src/Checker/Http/Classify.antt =====
-- internal/checker/http.go: what `Check` makes of the replies.
use markdown_linkerator.Base.{
  ℕ, ◌≡◌, ◌≢◌, Bool, true, ◌||◌, ◌&&◌, leb, ltb, ◌==◌, pos, Option, none, some, arith,
  if◌then◌else◌, Text,
}
use markdown_linkerator.Model.{Target, State}
use markdown_linkerator.Config.Resolve.{Resolved, has_code}
use markdown_linkerator.Checker.Retry.{fresh_state}
use markdown_linkerator.Checker.Http.{
  head, get, responded, failed, Reply, Client, is_conclusive, short_circuit, check, classify,
  cancelled, unreachable,
}

module _ {F R : Type 0} (cfg : Resolved F R) where
  -- HEAD settles the check: a 2xx status, an alive code, 429, 503, a timeout or a cancelled context.
  abbrev pub is_settled : Reply → Bool
  is_settled r = elim r.outcome [
    | responded code ↦
        (leb 200 code && ltb code 300)
        || (has_code (pos code) cfg.alive_status_codes || (code == 429 || code == 503))
    | failed timeout message ↦ elim r.ctx_err [ some _ ↦ true | none ↦ timeout ]
  ]

  -- The reply that decides: that of HEAD where it settles the check, else that of GET.
  abbrev pub deciding : Client → Reply
  deciding client =
      let first = client head fresh_state in
      if is_settled first then first else client get first.state

  -- The state that a reply stands for.
  abbrev pub state_of : Reply → State
  state_of d = elim d.outcome [
    | responded code ↦
        if has_code (pos code) cfg.alive_status_codes then State.alive else State.dead
    | failed timeout message ↦ elim d.ctx_err [ some _ ↦ State.error | none ↦ State.dead ]
  ]

  abbrev pub status_of : Reply → ℕ
  status_of d = elim d.outcome [ responded code ↦ code | failed timeout message ↦ 0 ]

  abbrev pub err_of : Reply → Option Text
  err_of d = elim d.outcome [ responded code ↦ none | failed timeout message ↦ d.ctx_err ]

  module _ (t : Target) (host : Text) where
    -- The reply to HEAD decides where it has a 2xx status, an alive code, 429 or 503, or is a timeout or a
    -- failure under a cancelled context; the reply to GET decides elsewhere. A check ends alive exactly
    -- when the deciding reply is a response whose status is among the alive codes, errored exactly when
    -- that reply is a failure under a cancelled context, and dead otherwise. It reports that response's status, or 0, and an error value exactly when errored.
    pub check_state :
        (client : Client)
        → let r = check cfg client t host in
          let d = deciding client in
          (r.state ≡ state_of d) × (r.status_code ≡ status_of d) × (r.err ≡ err_of d)
    unfolding check classify cancelled unreachable is_conclusive short_circuit
    check_state client = ground arith

    -- GET is not asked, so that its reply cannot matter, where HEAD brought a 2xx status, an alive
    -- code, 429, 503, a timeout or a cancellation.
    pub check_head_only :
        (a b : Client)
        → a head fresh_state ≡ b head fresh_state
        → is_settled (a head fresh_state) ≡ true
        → check cfg a t host ≡ check cfg b t host
    unfolding check is_conclusive short_circuit
    check_head_only a b e s = ground arith

    -- The retries, the 429 seen and the last Retry-After that a check reports are those of the state
    -- after the deciding reply, unless the check was cancelled.
    pub check_accounts :
        (client : Client)
        → state_of (deciding client) ≢ State.error
        → let r = check cfg client t host in
          let st = (deciding client).state in
          (r.retries ≡ st.retries) × (r.saw_429 ≡ st.saw_429) × (r.retry_after ≡ st.retry_after)
    unfolding check classify cancelled unreachable is_conclusive short_circuit
    check_accounts client ne = ground arith
