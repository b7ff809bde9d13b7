-- ===== src/Model.antt =====
-- internal/model/model.go: the data that every other component shares, and the dedup key of a URL.
pub mod Key
use markdown_linkerator.Base.{ℕ, Text, text, Bool, true, false, Option, none, [], ℤ, pos}

pub data Kind : Type 0 where
  http file_rel hash_local mailto : Kind

-- `State` is a uint8; a cache file may hold any other number.
pub data State : Type 0 where
  alive dead ignored error : State
  other : ℕ → State

unfoldable pub kind_string : Kind → Text
kind_string http = text "http"
kind_string file_rel = text "file"
kind_string hash_local = text "hash"
kind_string mailto = text "mailto"

unfoldable pub state_string : State → Text
state_string alive = text "alive"
state_string dead = text "dead"
state_string ignored = text "ignored"
state_string error = text "error"
state_string (other n) = text "unknown"

abbrev pub is_alive : State → Bool
is_alive alive = true
is_alive _ = false

abbrev pub is_dead : State → Bool
is_dead dead = true
is_dead _ = false

abbrev pub is_error : State → Bool
is_error error = true
is_error _ = false

pub record Target : Type 0 where
  pub raw : Text
  pub url : Text
  pub kind : Kind
  pub source_file : Text
  pub line : ℕ
  pub fragment : Text

-- Durations are nanoseconds. `err` holds the message of a Go error, `none` for nil.
pub record Result : Type 0 where
  pub target : Target
  pub state : State
  pub status_code : ℕ
  pub host : Text
  pub retries : ℕ
  pub saw_429 : Bool
  pub retry_after : ℤ
  pub from_cache : Bool
  pub reused : Bool
  pub detail : Text
  pub err : Option Text

-- `model.Result{Target: t}`: every other field is Go's zero value.
abbrev pub zero_result : Target → Result
zero_result t = record {
  target = t;
  state = alive;
  status_code = 0;
  host = [];
  retries = 0;
  saw_429 = false;
  retry_after = pos 0;
  from_cache = false;
  reused = false;
  detail = [];
  err = none;
}

pub record CheckJob : Type 0 where
  pub key : Text
  pub host : Text
  pub sample : Target
