-- ===== src/Cli/Registered.antt =====
-- internal/cli/cli.go: `registerFlags`, without the help texts and the shorthands.
use markdown_linkerator.Base.{
  ◌≡◌, refl, Bool, true, false, Option, some, [], ◌∷◌, Text, text, text_eq, Map, lookup, ℤ, pos,
}
use markdown_linkerator.Config.{Floats, defaults}

pub data FlagValue (F : Type 0) : Type 0 where
  string_flag : Text → FlagValue F
  int_flag : ℤ → FlagValue F
  float_flag : F → FlagValue F
  bool_flag : Bool → FlagValue F
  duration_flag : ℤ → FlagValue F

module _ (fl : Floats) where
  open fl use {F, one}

  -- Each flag with its default.
  unfoldable pub registered_flags : Map (FlagValue F)
  registered_flags =
      (text "config", string_flag [])
      ∷ (text "workers", int_flag (pos 10))
      ∷ (text "parse-workers", int_flag (pos 10))
      ∷ (text "rate", float_flag one)
      ∷ (text "burst", int_flag (pos 2))
      ∷ (text "timeout", duration_flag (pos 10_000_000_000))
      ∷ (text "max-time", duration_flag (pos 0))
      ∷ (text "retry-on-429", bool_flag true)
      ∷ (text "retry", bool_flag true)
      ∷ (text "retry-count", int_flag (pos 4))
      ∷ (text "connect-retries", int_flag (pos 3))
      ∷ (text "retry-max-wait", duration_flag (pos 120_000_000_000))
      ∷ (text "alive", string_flag [])
      ∷ (text "check-external", bool_flag true)
      ∷ (text "check-fragments", bool_flag true)
      ∷ (text "mailto-check-mx", bool_flag false)
      ∷ (text "project-base-url", string_flag [])
      ∷ (text "user-agent", string_flag [])
      ∷ (text "github-token", string_flag [])
      ∷ (text "max-redirects", int_flag (pos 8))
      ∷ (text "cache", bool_flag false)
      ∷ (text "cache-path", string_flag (text ".linkerator-cache.json"))
      ∷ (text "cache-ttl", duration_flag (pos 86_400_000_000_000))
      ∷ (text "fail-on-error", bool_flag false)
      ∷ (text "quiet", bool_flag false)
      ∷ (text "verbose", bool_flag false)
      ∷ (text "progress", bool_flag false)
      ∷ (text "format", string_flag (text "text"))
      ∷ (text "no-color", bool_flag false)
      ∷ (text "report-json", string_flag [])
      ∷ []

  abbrev registered : Text → Option (FlagValue F)
  registered name = lookup name registered_flags

  -- The defaults that the flags show are those that `Defaults` gives the settings.
  registered_flags-defaults :
      let d = defaults fl in
      (registered (text "workers") ≡ some (int_flag d.url_workers))
      × (registered (text "parse-workers") ≡ some (int_flag d.parse_workers))
      × (registered (text "rate") ≡ some (float_flag d.per_host_rps))
      × (registered (text "burst") ≡ some (int_flag d.per_host_burst))
      × (registered (text "timeout") ≡ some (duration_flag (d.timeout).d))
      × (registered (text "retry-max-wait") ≡ some (duration_flag (d.backoff_max).d))
      × (registered (text "cache-path") ≡ some (string_flag d.cache.path))
      × (registered (text "cache-ttl") ≡ some (duration_flag (d.cache.ttl).d))
  unfolding registered_flags lookup text_eq defaults
  registered_flags-defaults = (refl, refl, refl, refl, refl, refl, refl, refl)
