-- ===== src/Samples.antt =====
-- Small concrete values: a configuration, links and results.
use markdown_linkerator.Base.{
  ℕ, true, false, none, [], ◌∷◌, ◌==◌, ◌+◌, ◌≤◌, zero, suc, refl, arith, ltb, text, pos,
}
use markdown_linkerator.Model.{Target, Result, State, http, zero_result}
use markdown_linkerator.Config.{Floats, HeaderRule}
use markdown_linkerator.RateLimit.{Rates}
use markdown_linkerator.Config.Resolve.{Resolved}

-- A header rule for one site, and a token.
abbrev pub sample_rule : HeaderRule
sample_rule = record {
  urls = text "https://docs.example.org/api" ∷ [];
  headers = (text "X-Key", text "secret") ∷ [];
}

abbrev pub sample_config : Resolved ℕ ℕ
sample_config = record {
  ignore_patterns = [];
  replacement_patterns = [];
  http_headers = sample_rule ∷ [];
  alive_status_codes = pos 200 ∷ [];
  timeout = pos 10_000_000_000;
  retry_on_429 = true;
  retry_count = pos 2;
  fallback_retry_delay = pos 30_000_000_000;
  ignore_disable = false;
  project_base_url = [];
  per_host_rps = 2;
  per_host_burst = pos 4;
  host_overrides = none;
  url_workers = pos 4;
  parse_workers = pos 2;
  max_retries = pos 4;
  connect_retries = pos 1;
  backoff_max = pos 30_000_000_000;
  user_agent = text "agent";
  max_redirects = pos 10;
  mailto_check_mx = true;
  error_fails_run = false;
  check_external = true;
  check_fragments = true;
  github_token = text "token";
  cache = record { enabled = true; path = text "cache.json"; ttl = pos 1000 };
}

abbrev pub link_a : Target
link_a = record {
  raw = text "https://a.org/";
  url = text "https://a.org/";
  kind = http;
  source_file = text "README.md";
  line = 3;
  fragment = [];
}

abbrev pub link_b : Target
link_b = record link_a { line = 9 }

abbrev pub alive_a : Result
alive_a = record (zero_result link_a) { status_code = 200; host = text "a.org" }

abbrev pub dead_a : Result
dead_a = record (zero_result link_a) { state = State.dead; status_code = 404; host = text "a.org" }

unfoldable pub half : ℕ → ℕ
half zero = 0
half (suc zero) = 0
half (suc (suc n)) = suc (half n)

pub half-le : (n : ℕ) → half n ≤ n
unfolding half
half-le zero = omega arith
half-le (suc zero) = omega arith
half-le (suc (suc n)) = omega (arith, half-le n)

-- Rates as whole numbers, a limiter as its rate.
abbrev pub whole_rates : Rates
whole_rates = record {
  F = ℕ;
  less = ltb;
  nought = 0;
  abs_min_rps = 1;
  penalty_floor_rps = 1;
  half = half;
  eighth = λ n. half (half (half n));
  plus = λ a b. a + b;
  Limiter = ℕ;
  new_limiter = λ r b. r;
  limit = λ l. l;
  set_limit = λ l r. r;
  less_asymm = λ a b h. ground arith;
  not_less_trans = λ a b c h k. ground arith;
  abs_min_pos = refl;
  floor_nonneg = refl;
  eighth_nonneg = λ a h. ground arith;
  half_le = λ a h. ground (arith, half-le a);
  plus_le = λ a b h. ground arith;
  limit_new = λ r b. refl;
  limit_set = λ l r. refl;
}

abbrev pub whole : Floats
whole = record {
  F = ℕ;
  nought = 0;
  one = 1;
  is_nought = λ n. n == 0;
  is_nought_nought = refl;
  is_nought_one = refl;
}
