-- ===== src/Config/Resolve.antt =====
-- internal/config/resolve.go: `Resolve`, which turns a configuration into the settings of a run.
-- regexp.Compile and os.Getenv are parameters.
pub mod Env
use markdown_linkerator.Base.{
  ℕ, zero, suc, Bool, true, false, not, Option, none, some, List, [], ◌∷◌, ◌++◌, if◌then◌else◌,
  or_else, Text, text, text_eq, Map, lookup, insert, ℤ, pos, ltb_ℤ, leb_ℤ, ◌&&◌, ◌||◌,
}
use markdown_linkerator.Config.{
  Floats, Config, HeaderRule, HostLimit, ReplacementPattern, duration_or, defaults, merge,
}
use markdown_linkerator.Config.Resolve.Env.{expand_env}

pub record ResolvedCache : Type 0 where
  pub enabled : Bool
  pub path : Text
  pub ttl : ℤ

pub record CompiledReplacement (R : Type 0) : Type 0 where
  pub re : R
  pub replacement : Text

-- `R` is the type of compiled patterns. The alive codes are the keys of the source's map.
pub record Resolved (F R : Type 0) : Type 0 where
  pub ignore_patterns : List R
  pub replacement_patterns : List (CompiledReplacement R)
  pub http_headers : List HeaderRule
  pub alive_status_codes : List ℤ
  pub timeout : ℤ
  pub retry_on_429 : Bool
  pub retry_count : ℤ
  pub fallback_retry_delay : ℤ
  pub ignore_disable : Bool
  pub project_base_url : Text
  pub per_host_rps : F
  pub per_host_burst : ℤ
  pub host_overrides : Option (Map (HostLimit F))
  pub url_workers : ℤ
  pub parse_workers : ℤ
  pub max_retries : ℤ
  pub connect_retries : ℤ
  pub backoff_max : ℤ
  pub user_agent : Text
  pub max_redirects : ℤ
  pub mailto_check_mx : Bool
  pub error_fails_run : Bool
  pub check_external : Bool
  pub check_fragments : Bool
  pub github_token : Text
  pub cache : ResolvedCache

-- `Bool` and `Int`.
abbrev pub bool_of : Option Bool → Bool
bool_of none = false
bool_of (some b) = b

abbrev pub int_of : Option ℤ → ℤ → ℤ
int_of none def = def
int_of (some n) def = n

unfoldable pub resolve_max_retries : Option ℤ → ℤ
resolve_max_retries none = pos 4
resolve_max_retries (some n) = if ltb_ℤ n (pos 0) then pos 0 else n

abbrev pub int_eq : ℤ → ℤ → Bool
int_eq a b = leb_ℤ a b && leb_ℤ b a

unfoldable pub has_code : ℤ → List ℤ → Bool
has_code c [] = false
has_code c (x ∷ xs) = int_eq x c || has_code c xs

unfoldable pub code_set : List ℤ → List ℤ
code_set [] = pos 200 ∷ []
code_set (c ∷ cs) = c ∷ cs

abbrev pub list_of {ℓ} : {A : Type ℓ} → Option (List A) → List A
list_of none = []
list_of (some l) = l

module _ (getenv : Text → Text) where
  expand_values : Map Text → Map Text
  expand_values [] = []
  expand_values ((k, v) ∷ m) = insert k (expand_env getenv v) (expand_values m)

  unfoldable pub expand_header_env : List HeaderRule → List HeaderRule
  unfolding expand_values
  expand_header_env [] = []
  expand_header_env (r ∷ rs) = record r { headers = expand_values r.headers } ∷ expand_header_env rs

module _ {R : Type 0} (compile : Text → Option R) where
  -- `none` where some pattern does not compile, which is the error of `Resolve`.
  unfoldable pub compile_all : List Text → Option (List R)
  compile_all [] = some []
  compile_all (p ∷ ps) =
      let rest = compile_all ps in
      elim (compile p) [
        | none ↦ none
        | some re ↦ elim rest [ none ↦ none | some res ↦ some (re ∷ res) ]
      ]

  unfoldable pub compile_replacements :
      (Text → Text) → List ReplacementPattern → Option (List (CompiledReplacement R))
  compile_replacements getenv [] = some []
  compile_replacements getenv (p ∷ ps) =
      let rest = compile_replacements getenv ps in
      elim (compile p.pattern) [
        | none ↦ none
        | some re ↦ elim rest [
          | none ↦ none
          | some res ↦
              some (record { re = re; replacement = expand_env getenv p.replacement } ∷ res)
        ]
      ]

pub data Outcome {ℓ} (A : Type ℓ) : Type ℓ where
  ok : A → Outcome A
  bad_ignore_pattern bad_replacement_pattern : Outcome A

module _ (fl : Floats) {R : Type 0} (compile : Text → Option R) (getenv : Text → Text) where
  open fl use {F}

  -- The settings but for the patterns.
  unfoldable pub settings : Config F → List R → List (CompiledReplacement R) → Resolved F R
  unfolding duration_or resolve_max_retries code_set
  settings d ignores replacements = record {
    ignore_patterns = ignores;
    replacement_patterns = replacements;
    http_headers = expand_header_env getenv (list_of d.http_headers);
    alive_status_codes = code_set (list_of d.alive_status_codes);
    timeout = duration_or d.timeout (pos 10_000_000_000);
    retry_on_429 = bool_of d.retry_on_429;
    retry_count = int_of d.retry_count (pos 4);
    fallback_retry_delay = duration_or d.fallback_retry_delay (pos 30_000_000_000);
    ignore_disable = d.ignore_disable;
    project_base_url = d.project_base_url;
    per_host_rps = d.per_host_rps;
    per_host_burst = d.per_host_burst;
    host_overrides = d.host_overrides;
    url_workers = d.url_workers;
    parse_workers = d.parse_workers;
    max_retries = resolve_max_retries d.retry_count;
    connect_retries = int_of d.connect_retries (pos 3);
    backoff_max = duration_or d.backoff_max (pos 120_000_000_000);
    user_agent = d.user_agent;
    max_redirects = int_of d.max_redirects (pos 8);
    mailto_check_mx = bool_of d.mailto_check_mx;
    error_fails_run = bool_of d.error_fails_run;
    check_external = bool_of d.check_external;
    check_fragments = bool_of d.check_fragments;
    github_token = d.github_token;
    cache = record {
      enabled = bool_of d.cache.enabled;
      path = d.cache.path;
      ttl = duration_or d.cache.ttl (pos 86_400_000_000_000);
    };
  }

  unfoldable pub resolve : Config F → Outcome (Resolved F R)
  unfolding settings merge defaults
  resolve c =
      let d = merge fl (defaults fl) c in
      elim (compile_all compile (list_of d.ignore_patterns)) [
        | none ↦ bad_ignore_pattern
        | some ignores ↦
            elim (compile_replacements compile getenv (list_of d.replacement_patterns)) [
              | none ↦ bad_replacement_pattern
              | some replacements ↦ ok (settings d ignores replacements)
            ]
      ]
