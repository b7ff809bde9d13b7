-- ===== src/Config/Layers.antt =====
-- internal/config: how the layers of the configuration stack.
use markdown_linkerator.Base.{
  ◌≡◌, refl, Bool, true, false, Option, none, some, [], ◌∷◌, arith, if◌then◌else◌, Text, ℤ, pos,
  ◌≤ℤ◌, ltb_ℤ,
}
use markdown_linkerator.Config.{
  Floats, Config, Duration, over, over_int, over_text, over_duration, over_retry_count, is_zero_int,
  defaults, merge,
}
use markdown_linkerator.Config.Resolve.{Resolved, ok, resolve, settings, resolve_max_retries}

over_assoc {ℓ} : {A : Type ℓ} (c b a : Option A) → over c (over b a) ≡ over (over c b) a
over_assoc none b a = refl
over_assoc (some c) b a = refl

over_text_assoc : (c b a : Text) → over_text c (over_text b a) ≡ over_text (over_text c b) a
over_text_assoc [] b a = refl
over_text_assoc (x ∷ c) b a = refl

over_int_assoc : (c b a : ℤ) → over_int c (over_int b a) ≡ over_int (over_int c b) a
over_int_assoc c b a = ground arith

over_duration_assoc :
    (c b a : Duration) → over_duration c (over_duration b a) ≡ over_duration (over_duration c b) a
over_duration_assoc c b a = ground arith

-- The two ways of stacking agree on the retry limit, though `maxRetries` itself is not merged.
over_retry_count_assoc :
    (m : ℤ) (c : Option ℤ) (n : ℤ) (b a : Option ℤ)
    → over_retry_count m c (over_retry_count n b a) ≡ over_retry_count n (over_retry_count m c b) a
over_retry_count_assoc m (some c) n b a = refl
over_retry_count_assoc m none n b a = ground arith

flag_assoc :
    (c b a : Bool)
    → (if c then true else if b then true else a) ≡ (if (if c then true else b) then true else a)
flag_assoc true b a = refl
flag_assoc false b a = refl

-- Every field but the per-host limits, which are merged key by key.
abbrev pub without_overrides : {F : Type 0} → Config F → Config F
without_overrides c = record c { host_overrides = none }

module _ (fl : Floats) where
  open fl use {F}

  rate_assoc :
      (c b a : F)
      → (if fl.is_nought c then (if fl.is_nought b then a else b) else c) ≡ (
          if fl.is_nought (if fl.is_nought c then b else c)
          then a
          else if fl.is_nought c
          then b
          else c)
  rate_assoc c b a = ground arith

  -- Stacking layers is associative: to merge two upper layers first and lay the result on a lower
  -- one gives the same configuration as to lay them on one by one, the per-host limits left out.
  pub merge_assoc :
      (a b c : Config F)
      → without_overrides (merge fl (merge fl a b) c)
        ≡ without_overrides (merge fl a (merge fl b c))
  unfolding merge
  merge_assoc a b c = λ i. record {
    ignore_patterns = over_assoc c.ignore_patterns b.ignore_patterns a.ignore_patterns i;
    replacement_patterns =
        over_assoc c.replacement_patterns b.replacement_patterns a.replacement_patterns i;
    http_headers = over_assoc c.http_headers b.http_headers a.http_headers i;
    alive_status_codes =
        over_assoc c.alive_status_codes b.alive_status_codes a.alive_status_codes i;
    timeout = over_duration_assoc c.timeout b.timeout a.timeout i;
    retry_on_429 = over_assoc c.retry_on_429 b.retry_on_429 a.retry_on_429 i;
    fallback_retry_delay =
        over_duration_assoc c.fallback_retry_delay b.fallback_retry_delay a.fallback_retry_delay i;
    project_base_url = over_text_assoc c.project_base_url b.project_base_url a.project_base_url i;
    per_host_burst = over_int_assoc c.per_host_burst b.per_host_burst a.per_host_burst i;
    url_workers = over_int_assoc c.url_workers b.url_workers a.url_workers i;
    parse_workers = over_int_assoc c.parse_workers b.parse_workers a.parse_workers i;
    connect_retries = over_assoc c.connect_retries b.connect_retries a.connect_retries i;
    backoff_max = over_duration_assoc c.backoff_max b.backoff_max a.backoff_max i;
    user_agent = over_text_assoc c.user_agent b.user_agent a.user_agent i;
    max_redirects = over_assoc c.max_redirects b.max_redirects a.max_redirects i;
    mailto_check_mx = over_assoc c.mailto_check_mx b.mailto_check_mx a.mailto_check_mx i;
    error_fails_run = over_assoc c.error_fails_run b.error_fails_run a.error_fails_run i;
    check_external = over_assoc c.check_external b.check_external a.check_external i;
    github_token = over_text_assoc c.github_token b.github_token a.github_token i;
    check_fragments = over_assoc c.check_fragments b.check_fragments a.check_fragments i;
    retry_count =
        over_retry_count_assoc c.max_retries c.retry_count b.max_retries b.retry_count a.retry_count
          i;
    ignore_disable = flag_assoc c.ignore_disable b.ignore_disable a.ignore_disable i;
    per_host_rps = rate_assoc c.per_host_rps b.per_host_rps a.per_host_rps i;
    host_overrides = none;
    max_retries = a.max_retries;
    cache = record {
      enabled = over_assoc c.cache.enabled b.cache.enabled a.cache.enabled i;
      path = over_text_assoc c.cache.path b.cache.path a.cache.path i;
      ttl = over_duration_assoc c.cache.ttl b.cache.ttl a.cache.ttl i;
    };
  }

  -- The upper layers give the retry limit: the topmost `retryCount` that is set, else the file's
  -- `maxRetries` where that is not 0, else 4; a negative limit counts as 0.
  abbrev pub retry_limit : Option ℤ → Option ℤ → Option ℤ → ℤ → ℤ
  retry_limit flags env file max_retries =
      let n : ℤ = elim (over flags (over env file)) [
        | some n ↦ n
        | none ↦ if is_zero_int max_retries then pos 4 else max_retries
      ] in
      if ltb_ℤ n (pos 0) then pos 0 else n

  module _ {R : Type 0} (compile : Text → Option R) (getenv : Text → Text) where
    resolve-max_retries :
        (c : Config F) (r : Resolved F R)
        → resolve fl compile getenv c ≡ ok r
        → r.max_retries ≡ resolve_max_retries (merge fl (defaults fl) c).retry_count
    unfolding resolve settings
    resolve-max_retries c r h = ground arith

    -- Where the environment and the flags set no `maxRetries`, which they never do, the retry limit
    -- of the run is the one that the precedence of the layers gives, and it is not negative.
    pub resolve-retry_limit :
        (file env flags : Config F) (r : Resolved F R)
        → env.max_retries ≡ pos 0
        → flags.max_retries ≡ pos 0
        → resolve fl compile getenv (merge fl (merge fl file env) flags) ≡ ok r
        → (r.max_retries
            ≡ retry_limit flags.retry_count env.retry_count file.retry_count file.max_retries)
          × (pos 0 ≤ℤ r.max_retries)
    unfolding merge defaults resolve_max_retries
    resolve-retry_limit file env flags r e f h =
        ground (arith, resolve-max_retries (merge fl (merge fl file env) flags) r h)
