-- ===== src/Config.antt =====
-- internal/config/config.go: the configuration, its defaults and the merging of its layers. A nil
-- slice, map or pointer is `none`. A float64 is of the type `F`, which `Floats` gives. Reading and
-- parsing the file is not modelled.
pub mod Layers
pub mod Resolve
pub mod Durations
pub mod Fingerprint
use markdown_linkerator.Base.{
  ℕ, Bool, true, false, not, Option, none, some, List, [], ◌∷◌, ◌++◌, ◌==◌, if◌then◌else◌, Text,
  text, Map, insert, ℤ, pos, negsuc, ◌≡◌,
}

-- What the code uses of float64: two constants and the test against 0.
pub record Floats : Type 1 where
  pub F : Type 0
  pub nought : F
  pub one : F
  pub is_nought : F → Bool
  pub is_nought_nought : is_nought nought ≡ true
  pub is_nought_one : is_nought one ≡ false

-- duration.go: nanoseconds, and whether they were given.
pub record Duration : Type 0 where
  pub d : ℤ
  pub set : Bool

abbrev pub new_duration : ℤ → Duration
new_duration d = record { d = d; set = true }

abbrev pub unset_duration : Duration
unset_duration = record { d = pos 0; set = false }

-- `Duration.Or`
unfoldable pub duration_or : Duration → ℤ → ℤ
duration_or d def = if d.set then d.d else def

pub record ReplacementPattern : Type 0 where
  pub pattern : Text
  pub replacement : Text
  pub global : Bool

pub record HeaderRule : Type 0 where
  pub urls : List Text
  pub headers : Map Text

pub record HostLimit (F : Type 0) : Type 0 where
  pub rps : F
  pub burst : ℤ

pub record CacheConfig : Type 0 where
  pub enabled : Option Bool
  pub path : Text
  pub ttl : Duration

pub record Config (F : Type 0) : Type 0 where
  pub ignore_patterns : Option (List Text)
  pub replacement_patterns : Option (List ReplacementPattern)
  pub http_headers : Option (List HeaderRule)
  pub alive_status_codes : Option (List ℤ)
  pub timeout : Duration
  pub retry_on_429 : Option Bool
  pub retry_count : Option ℤ
  pub fallback_retry_delay : Duration
  pub ignore_disable : Bool
  pub project_base_url : Text
  pub per_host_rps : F
  pub per_host_burst : ℤ
  pub host_overrides : Option (Map (HostLimit F))
  pub url_workers : ℤ
  pub parse_workers : ℤ
  pub max_retries : ℤ
  pub connect_retries : Option ℤ
  pub backoff_max : Duration
  pub user_agent : Text
  pub max_redirects : Option ℤ
  pub mailto_check_mx : Option Bool
  pub error_fails_run : Option Bool
  pub check_external : Option Bool
  pub github_token : Text
  pub check_fragments : Option Bool
  pub cache : CacheConfig

abbrev pub default_user_agent : Text
default_user_agent = text "markdown-linkerator (+https://github.com/jhoblitt/markdown-linkerator)"

-- The layers' tests for "set": a pointer, slice or map that is not nil, a number that is not 0, a
-- text that is not empty.
abbrev pub over {ℓ} : {A : Type ℓ} → Option A → Option A → Option A
over none c = c
over (some s) c = some s

abbrev pub is_zero_int : ℤ → Bool
is_zero_int (pos n) = n == 0
is_zero_int (negsuc n) = false

abbrev pub over_int : ℤ → ℤ → ℤ
over_int s c = if is_zero_int s then c else s

abbrev pub over_text : Text → Text → Text
over_text [] c = c
over_text (x ∷ s) c = x ∷ s

abbrev pub over_duration : Duration → Duration → Duration
over_duration s c = if s.set then s else c

-- `for k, v := range src.HostOverrides { c.HostOverrides[k] = v }`
unfoldable pub insert_all {ℓ} : {V : Type ℓ} → Map V → Map V → Map V
insert_all [] m = m
insert_all ((k, v) ∷ src) m = insert_all src (insert k v m)

abbrev pub over_map {ℓ} : {V : Type ℓ} → Option (Map V) → Option (Map V) → Option (Map V)
over_map none c = c
over_map (some src) none = some (insert_all src [])
over_map (some src) (some m) = some (insert_all src m)

-- The retry limit: `retryCount` of the layer, else its `maxRetries` where that is not 0, else what
-- was there.
abbrev pub over_retry_count : ℤ → Option ℤ → Option ℤ → Option ℤ
over_retry_count max_retries retry_count c =
    over retry_count (if is_zero_int max_retries then c else some max_retries)

module _ (fl : Floats) where
  open fl use {F, nought, one, is_nought}

  -- The zero value.
  abbrev pub empty_config : Config F
  empty_config = record {
    ignore_patterns = none;
    replacement_patterns = none;
    http_headers = none;
    alive_status_codes = none;
    timeout = unset_duration;
    retry_on_429 = none;
    retry_count = none;
    fallback_retry_delay = unset_duration;
    ignore_disable = false;
    project_base_url = [];
    per_host_rps = nought;
    per_host_burst = pos 0;
    host_overrides = none;
    url_workers = pos 0;
    parse_workers = pos 0;
    max_retries = pos 0;
    connect_retries = none;
    backoff_max = unset_duration;
    user_agent = [];
    max_redirects = none;
    mailto_check_mx = none;
    error_fails_run = none;
    check_external = none;
    github_token = [];
    check_fragments = none;
    cache = record { enabled = none; path = []; ttl = unset_duration };
  }

  unfoldable pub defaults : Config F
  defaults = record empty_config {
    alive_status_codes = some (pos 200 ∷ []);
    timeout = new_duration (pos 10_000_000_000);
    retry_on_429 = some true;
    retry_count = some (pos 4);
    fallback_retry_delay = new_duration (pos 30_000_000_000);
    per_host_rps = one;
    per_host_burst = pos 2;
    url_workers = pos 10;
    parse_workers = pos 10;
    connect_retries = some (pos 3);
    backoff_max = new_duration (pos 120_000_000_000);
    user_agent = default_user_agent;
    max_redirects = some (pos 8);
    mailto_check_mx = some false;
    error_fails_run = some false;
    check_external = some true;
    check_fragments = some true;
    cache = record {
      enabled = some false;
      path = text ".linkerator-cache.json";
      ttl = new_duration (pos 86_400_000_000_000);
    };
  }

  unfoldable pub merge : Config F → Config F → Config F
  merge c src = record c {
    ignore_patterns = over src.ignore_patterns c.ignore_patterns;
    replacement_patterns = over src.replacement_patterns c.replacement_patterns;
    http_headers = over src.http_headers c.http_headers;
    alive_status_codes = over src.alive_status_codes c.alive_status_codes;
    timeout = over_duration src.timeout c.timeout;
    retry_on_429 = over src.retry_on_429 c.retry_on_429;
    retry_count = over_retry_count src.max_retries src.retry_count c.retry_count;
    fallback_retry_delay = over_duration src.fallback_retry_delay c.fallback_retry_delay;
    ignore_disable = if src.ignore_disable then true else c.ignore_disable;
    project_base_url = over_text src.project_base_url c.project_base_url;
    per_host_rps = if is_nought src.per_host_rps then c.per_host_rps else src.per_host_rps;
    per_host_burst = over_int src.per_host_burst c.per_host_burst;
    host_overrides = over_map src.host_overrides c.host_overrides;
    url_workers = over_int src.url_workers c.url_workers;
    parse_workers = over_int src.parse_workers c.parse_workers;
    connect_retries = over src.connect_retries c.connect_retries;
    backoff_max = over_duration src.backoff_max c.backoff_max;
    user_agent = over_text src.user_agent c.user_agent;
    max_redirects = over src.max_redirects c.max_redirects;
    mailto_check_mx = over src.mailto_check_mx c.mailto_check_mx;
    error_fails_run = over src.error_fails_run c.error_fails_run;
    check_external = over src.check_external c.check_external;
    check_fragments = over src.check_fragments c.check_fragments;
    github_token = over_text src.github_token c.github_token;
    cache = record {
      enabled = over src.cache.enabled c.cache.enabled;
      path = over_text src.cache.path c.cache.path;
      ttl = over_duration src.cache.ttl c.cache.ttl;
    };
  }
