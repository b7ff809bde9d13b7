-- ===== src/Cli/Precedence.antt =====
-- internal/cli/config.go: which layer gives a setting of the run.
use markdown_linkerator.Base.{
  ◌≡◌, refl, ap, ◌∙◌, Bool, true, false, Option, none, some, List, arith, or_else, ◌⊎◌, inl, inr,
  Text, text, ℤ, pos, Option-cases,
}
use markdown_linkerator.Config.{
  Floats, Config, Duration, duration_or, new_duration, over, over_duration, defaults, merge,
}
use markdown_linkerator.Config.Resolve.{
  Resolved, CompiledReplacement, Outcome, ok, bad_ignore_pattern, bad_replacement_pattern, resolve,
  settings, bool_of, int_of, compile_all, compile_replacements, list_of,
}
use markdown_linkerator.Cli.{
  Conversions, Flags, look, duration_of, given, first_of, config_from_env, config_from_flags,
  file_config, resolve_config, build_resolved, add_codes, alive_extra,
}

-- The flag where it is given, else the environment, else the file, else the default.
abbrev pub effective {ℓ} : {A : Type ℓ} → Option A → Option A → Option A → A → A
effective flag env file def = or_else (first_of flag (first_of env file)) def

-- A duration of the file, where it has one.
abbrev pub set_duration : Duration → Option ℤ
set_duration d = given d.set d.d

over_bool :
    (flag env file : Option Bool) (def : Bool)
    → bool_of (over (over flag (over env file)) (some def)) ≡ effective flag env file def
over_bool (some f) env file def = refl
over_bool none (some e) file def = refl
over_bool none none (some c) def = refl
over_bool none none none def = refl

over_count :
    (flag env file : Option ℤ) (def other : ℤ)
    → int_of (over (over flag (over env file)) (some def)) other ≡ effective flag env file def
over_count (some f) env file def other = refl
over_count none (some e) file def other = refl
over_count none none (some c) def other = refl
over_count none none none def other = refl

over_length :
    (flag env : Option ℤ) (file : Duration) (def other : ℤ)
    → duration_or
        (over_duration
          (over_duration (duration_of flag) (over_duration (duration_of env) file))
          (new_duration def))
        other
      ≡ effective flag env (set_duration file) def
unfolding duration_or
over_length (some f) env file def other = refl
over_length none (some e) file def other = refl
over_length none none file def other = ground arith

Outcome-cases {ℓ} :
    {A : Type ℓ} (o : Outcome A)
    → ((a : A) × (o ≡ ok a)) ⊎ ((o ≡ bad_ignore_pattern) ⊎ (o ≡ bad_replacement_pattern))
Outcome-cases (ok a) = inl (a, refl)
Outcome-cases bad_ignore_pattern = inr (inl refl)
Outcome-cases bad_replacement_pattern = inr (inr refl)

module _ (fl : Floats) {R : Type 0} (compile : Text → Option R) (getenv : Text → Text) where
  open fl use {F}

  pub resolve-settings :
      (c : Config F) (r : Resolved F R)
      → resolve fl compile getenv c ≡ ok r
      → (ignores : List R) × (replacements : List (CompiledReplacement R)) × (r
          ≡ settings fl compile getenv (merge fl (defaults fl) c) ignores replacements)
  unfolding resolve
  resolve-settings c r h =
      let d = merge fl (defaults fl) c in
      elim (Option-cases (compile_all compile (list_of d.ignore_patterns))) [
        | inl e ↦ absurd (ground arith)
        | inr (ignores, e) ↦
            elim (Option-cases
              (compile_replacements compile getenv (list_of d.replacement_patterns))) [
                | inl f ↦ absurd (ground arith)
                | inr (replacements, f) ↦ (ignores, replacements, ground arith)
              ]
      ]

-- The settings of a run `r` over a configuration file: each by its flag, its variable, the file and the
-- default, in this order.
abbrev pub EffectiveSettings :
    {F R : Type 0}
    → Conversions F
    → (Text → Option Text)
    → Flags F
    → Config F
    → Resolved F R
    → Type 0
EffectiveSettings conv lookup_env flags file r =
    let bool : Text → Option Bool = λ k. given (flags.changed k) (flags.get_bool k) in
    let int : Text → Option ℤ = λ k. given (flags.changed k) (flags.get_int k) in
    let duration : Text → Option ℤ = λ k. given (flags.changed k) (flags.get_duration k) in
    let env_bool = look conv.parse_bool lookup_env in
    let env_int = look conv.atoi lookup_env in
    let env_duration = look conv.parse_duration lookup_env in
    (r.check_external
      ≡ effective (bool (text "check-external")) (env_bool (text "LINKERATOR_CHECK_EXTERNAL"))
          file.check_external true)
    × (r.check_fragments
        ≡ effective (bool (text "check-fragments")) (env_bool (text "LINKERATOR_CHECK_FRAGMENTS"))
            file.check_fragments true)
    × (r.error_fails_run
        ≡ effective (bool (text "fail-on-error")) (env_bool (text "LINKERATOR_FAIL_ON_ERROR"))
            file.error_fails_run false)
    × (r.retry_on_429
        ≡ effective (first_of (bool (text "retry-on-429")) (bool (text "retry")))
            (env_bool (text "LINKERATOR_RETRY_ON_429")) file.retry_on_429 true)
    × (r.connect_retries
        ≡ effective (int (text "connect-retries")) (env_int (text "LINKERATOR_CONNECT_RETRIES"))
            file.connect_retries (pos 3))
    × (r.max_redirects
        ≡ effective (int (text "max-redirects")) (env_int (text "LINKERATOR_MAX_REDIRECTS"))
            file.max_redirects (pos 8))
    × (r.timeout
        ≡ effective (duration (text "timeout")) (env_duration (text "LINKERATOR_TIMEOUT"))
            (set_duration file.timeout) (pos 10_000_000_000))
    × (r.backoff_max
        ≡ effective (duration (text "retry-max-wait"))
            (env_duration (text "LINKERATOR_RETRY_MAX_WAIT")) (set_duration file.backoff_max)
            (pos 120_000_000_000))

module _ (fl : Floats) (conv : Conversions (fl.F)) (lookup_env : Text → Option Text)
    (flags : Flags (fl.F)) (exists : Text → Bool) (load_file : Text → Option (Config (fl.F)))
    {R : Type 0} (compile : Text → Option R) (getenv : Text → Text) where
  open fl use {F}

  -- The three layers, merged on each other.
  abbrev pub layered : Config F → Config F
  layered file =
      merge fl (merge fl file (config_from_env fl conv lookup_env)) (config_from_flags fl flags)

  abbrev pub with_extra_codes : Resolved F R → Resolved F R
  with_extra_codes q = record q {
    alive_status_codes = add_codes (alive_extra conv lookup_env flags) q.alive_status_codes;
  }

  pub build_resolved-resolve :
      (file : Config F) (r : Resolved F R)
      → file_config fl conv lookup_env flags exists load_file ≡ some file
      → build_resolved fl conv lookup_env flags exists load_file compile getenv ≡ some r
      → (q : Resolved F R) × (resolve fl compile getenv (layered file) ≡ ok q)
        × (r ≡ with_extra_codes q)
  unfolding build_resolved resolve_config
  build_resolved-resolve file r read built =
      elim (Outcome-cases (resolve fl compile getenv (layered file))) [
        | inl (q, e) ↦ (q, e, ground (arith, read))
        | inr e ↦ absurd (ground (arith, read))
      ]

  -- Eight settings of a run (whether external links and fragments are checked, whether errors fail the run,
  -- whether a 429 is retried, the connect retries, the redirects, the timeout and the longest wait between
  -- retries) are each that of the flag where the command line gives it, else that of the variable where that
  -- is set and can be read, else that of the configuration file, else the default.
  pub build_resolved-effective :
      (file : Config F) (r : Resolved F R)
      → file_config fl conv lookup_env flags exists load_file ≡ some file
      → build_resolved fl conv lookup_env flags exists load_file compile getenv ≡ some r
      → EffectiveSettings conv lookup_env flags file r
  unfolding settings merge defaults config_from_env config_from_flags
  build_resolved-effective file r read built =
      let built_from = build_resolved-resolve file r read built in
      let q = built_from.0 in
      let top = config_from_flags fl flags in
      let mid = config_from_env fl conv lookup_env in
      let s = resolve-settings fl compile getenv (layered file) q built_from.1 in
      let e : r
          ≡ with_extra_codes
              (settings fl compile getenv (merge fl (defaults fl) (layered file)) s.0 s.1) =
        built_from.2 ∙ ap with_extra_codes s.2 in
      (
        ap (λ x. x.check_external) e
            ∙ over_bool top.check_external mid.check_external file.check_external true,
        ap (λ x. x.check_fragments) e
            ∙ over_bool top.check_fragments mid.check_fragments file.check_fragments true,
        ap (λ x. x.error_fails_run) e
            ∙ over_bool top.error_fails_run mid.error_fails_run file.error_fails_run false,
        ap (λ x. x.retry_on_429) e
            ∙ over_bool top.retry_on_429 mid.retry_on_429 file.retry_on_429 true,
        ap (λ x. x.connect_retries) e
            ∙ over_count top.connect_retries mid.connect_retries file.connect_retries (pos 3)
                (pos 3),
        ap (λ x. x.max_redirects) e
            ∙ over_count top.max_redirects mid.max_redirects file.max_redirects (pos 8) (pos 8),
        ap (λ x. x.timeout) e
            ∙ over_length
                (given (flags.changed (text "timeout")) (flags.get_duration (text "timeout")))
                (look conv.parse_duration lookup_env (text "LINKERATOR_TIMEOUT")) file.timeout
                (pos 10_000_000_000) (pos 10_000_000_000),
        ap (λ x. x.backoff_max) e
            ∙ over_length
                (given (flags.changed (text "retry-max-wait"))
                  (flags.get_duration (text "retry-max-wait")))
                (look conv.parse_duration lookup_env (text "LINKERATOR_RETRY_MAX_WAIT"))
                file.backoff_max (pos 120_000_000_000) (pos 120_000_000_000),
      )
