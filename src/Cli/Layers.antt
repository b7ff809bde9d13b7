-- ===== src/Cli/Layers.antt =====
-- internal/cli/config.go: what the environment and the flags set.
use markdown_linkerator.Base.{
  Bool, true, false, Option, none, some, [], if◌then◌else◌, or_else, Text, text, ℤ, pos,
}
use markdown_linkerator.Model.Key.{is_empty}
use markdown_linkerator.Config.{
  Floats, Config, Duration, new_duration, unset_duration, empty_config,
}

-- The conversions of a text, `none` for an error.
pub record Conversions (F : Type 0) : Type 0 where
  pub atoi : Text → Option ℤ
  pub parse_float : Text → Option F
  pub parse_bool : Text → Option Bool
  pub parse_duration : Text → Option ℤ

-- The flag set: which flags the command line gives, and the value of each, its default where it is not
-- given.
pub record Flags (F : Type 0) : Type 0 where
  pub changed : Text → Bool
  pub get_int : Text → ℤ
  pub get_float : Text → F
  pub get_bool : Text → Bool
  pub get_string : Text → Text
  pub get_duration : Text → ℤ

-- The second result of a lookup is false where this is `none`.
unfoldable pub look_string : (Text → Option Text) → Text → Option Text
look_string lookup_env k = elim (lookup_env k) [
  | none ↦ none
  | some v ↦ if is_empty v then none else some v
]

-- `lookInt`, `lookFloat`, `lookBool` and `lookDuration`, which differ in the conversion alone.
unfoldable pub look {ℓ} : {A : Type ℓ} → (Text → Option A) → (Text → Option Text) → Text → Option A
unfolding look_string
look convert lookup_env k = elim (look_string lookup_env k) [ none ↦ none | some s ↦ convert s ]

-- `config.NewDuration` of a value that was found.
abbrev pub duration_of : Option ℤ → Duration
duration_of none = unset_duration
duration_of (some v) = new_duration v

-- `if fs.Changed(flag) { … }`
abbrev pub given {ℓ} : {A : Type ℓ} → Bool → A → Option A
given true v = some v
given false v = none

abbrev pub first_of {ℓ} : {A : Type ℓ} → Option A → Option A → Option A
first_of none b = b
first_of (some a) b = some a

module _ (fl : Floats) (conv : Conversions (fl.F)) (lookup_env : Text → Option Text) where
  open fl use {F, nought}

  unfoldable pub config_from_env : Config F
  unfolding look
  config_from_env =
      let int = look conv.atoi lookup_env in
      let bool = look conv.parse_bool lookup_env in
      let duration : Text → Duration = λ k. duration_of (look conv.parse_duration lookup_env k) in
      let string : Text → Text = λ k. or_else (look_string lookup_env k) [] in
      record (empty_config fl) {
        url_workers = or_else (int (text "LINKERATOR_WORKERS")) (pos 0);
        parse_workers = or_else (int (text "LINKERATOR_PARSE_WORKERS")) (pos 0);
        per_host_rps = or_else (look conv.parse_float lookup_env (text "LINKERATOR_RATE")) nought;
        per_host_burst = or_else (int (text "LINKERATOR_BURST")) (pos 0);
        timeout = duration (text "LINKERATOR_TIMEOUT");
        retry_on_429 = bool (text "LINKERATOR_RETRY_ON_429");
        retry_count = int (text "LINKERATOR_RETRY_COUNT");
        connect_retries = int (text "LINKERATOR_CONNECT_RETRIES");
        backoff_max = duration (text "LINKERATOR_RETRY_MAX_WAIT");
        check_external = bool (text "LINKERATOR_CHECK_EXTERNAL");
        check_fragments = bool (text "LINKERATOR_CHECK_FRAGMENTS");
        mailto_check_mx = bool (text "LINKERATOR_MAILTO_CHECK_MX");
        project_base_url = string (text "LINKERATOR_BASE_URL");
        user_agent = string (text "LINKERATOR_USER_AGENT");
        github_token =
            or_else
              (first_of (look_string lookup_env (text "LINKERATOR_GITHUB_TOKEN"))
                (look_string lookup_env (text "GITHUB_TOKEN")))
              [];
        max_redirects = int (text "LINKERATOR_MAX_REDIRECTS");
        error_fails_run = bool (text "LINKERATOR_FAIL_ON_ERROR");
        cache = record {
          enabled = bool (text "LINKERATOR_CACHE");
          path = string (text "LINKERATOR_CACHE_PATH");
          ttl = duration (text "LINKERATOR_CACHE_TTL");
        };
      }

module _ (fl : Floats) (flags : Flags (fl.F)) where
  open fl use {F, nought}

  unfoldable pub config_from_flags : Config F
  config_from_flags =
      let int : Text → Option ℤ = λ k. given (flags.changed k) (flags.get_int k) in
      let bool : Text → Option Bool = λ k. given (flags.changed k) (flags.get_bool k) in
      let duration : Text → Duration =
        λ k. duration_of (given (flags.changed k) (flags.get_duration k)) in
      let string : Text → Text = λ k. if flags.changed k then flags.get_string k else [] in
      record (empty_config fl) {
        url_workers = or_else (int (text "workers")) (pos 0);
        parse_workers = or_else (int (text "parse-workers")) (pos 0);
        per_host_rps =
            if flags.changed (text "rate") then flags.get_float (text "rate") else nought;
        per_host_burst = or_else (int (text "burst")) (pos 0);
        timeout = duration (text "timeout");
        retry_on_429 = first_of (bool (text "retry-on-429")) (bool (text "retry"));
        retry_count = int (text "retry-count");
        connect_retries = int (text "connect-retries");
        backoff_max = duration (text "retry-max-wait");
        check_external = bool (text "check-external");
        check_fragments = bool (text "check-fragments");
        mailto_check_mx = bool (text "mailto-check-mx");
        project_base_url = string (text "project-base-url");
        user_agent = string (text "user-agent");
        github_token = string (text "github-token");
        max_redirects = int (text "max-redirects");
        error_fails_run = bool (text "fail-on-error");
        cache = record {
          enabled = bool (text "cache");
          path = string (text "cache-path");
          ttl = duration (text "cache-ttl");
        };
      }
