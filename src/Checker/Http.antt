-- ===== src/Checker/Http.antt =====
-- internal/checker/http.go: `Check`, which asks with HEAD and, where that settles nothing, with GET.
-- One call of the shared client, go-retryablehttp's, is the parameter `client`: it takes the state of
-- the check and gives the outcome, the context's error after it, and the state.
pub mod Classify
mod Examples
use markdown_linkerator.Base.{
  ℕ, Bool, true, false, not, ◌&&◌, ◌||◌, Option, none, some, List, [], ◌∷◌, ◌==◌, leb, ltb,
  if◌then◌else◌, Text, ℤ, pos,
}
use markdown_linkerator.Model.{Target, Result, State, zero_result}
use markdown_linkerator.Config.Resolve.{Resolved, has_code}
use markdown_linkerator.Checker.Retry.{RetryState, fresh_state}

pub data Method : Type 0 where
  head get : Method

-- A response's status, or a failure: whether it is a timeout, and its message.
pub data Outcome : Type 0 where
  responded : ℕ → Outcome
  failed : Bool → Text → Outcome

pub record Reply : Type 0 where
  pub outcome : Outcome
  pub ctx_err : Option Text
  pub state : RetryState

abbrev pub Client : Type 0
Client = Method → RetryState → Reply

unfoldable pub apply_retry_state : Result → RetryState → Result
apply_retry_state r st = record r {
  retries = st.retries;
  saw_429 = st.saw_429;
  retry_after = st.retry_after;
}

module _ {F R : Type 0} (cfg : Resolved F R) where
  abbrev pub is_alive_code : ℕ → Bool
  is_alive_code code = has_code (pos code) cfg.alive_status_codes

  unfoldable pub short_circuit : ℕ → Bool
  short_circuit code = (leb 200 code && ltb code 300) || is_alive_code code

  unfoldable pub classify : Result → ℕ → RetryState → Result
  unfolding apply_retry_state
  classify r code st =
      apply_retry_state
        (record r {
          status_code = code;
          state = if is_alive_code code then State.alive else State.dead;
        })
        st

  -- `res.State = StateError; res.Err = ctx.Err()`
  cancelled : Result → Text → Result
  cancelled r e = record r { state = State.error; err = some e }

  unreachable : Result → Text → RetryState → Result
  unfolding apply_retry_state
  unreachable r message st =
      apply_retry_state (record r { state = State.dead; status_code = 0; detail = message }) st

  after_get : Result → Reply → Result
  unfolding classify cancelled unreachable
  after_get r reply = elim reply.outcome [
    | responded code ↦ classify r code reply.state
    | failed timeout message ↦ elim reply.ctx_err [
      | some e ↦ cancelled r e
      | none ↦ unreachable r message reply.state
    ]
  ]

  -- Whether the status of HEAD is the last word.
  unfoldable pub is_conclusive : ℕ → Bool
  unfolding short_circuit
  is_conclusive code = short_circuit code || (code == 429 || code == 503)

  -- `host` is the host of the target's URL.
  unfoldable pub check : Client → Target → Text → Result
  unfolding is_conclusive after_get
  check client t host =
      let r = record (zero_result t) { host = host } in
      let first = client head fresh_state in
      let second = after_get r (client get first.state) in
      elim first.outcome [
        | responded code ↦ if is_conclusive code then classify r code first.state else second
        | failed timeout message ↦ elim first.ctx_err [
          | some e ↦ cancelled r e
          | none ↦ if timeout then unreachable r message first.state else second
        ]
      ]
