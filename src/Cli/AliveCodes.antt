-- ===== src/Cli/AliveCodes.antt =====
-- internal/cli/config.go: the extra alive codes, from the command line or the environment.
use markdown_linkerator.Base.{
  ◌≡◌, refl, ap, ◌∙◌, Bool, true, ◌||◌, Option, none, some, List, [], ◌∷◌, ◌++◌, arith, or_else,
  inl, inr, Text, ℤ, pos, eq_of_parts, Bool-cases,
}
use markdown_linkerator.Config.{Floats, Config, over, defaults, merge}
use markdown_linkerator.Config.Resolve.{Resolved, int_eq, has_code, code_set, list_of, settings}
use markdown_linkerator.Cli.{
  Conversions, Flags, config_from_env, config_from_flags, file_config, build_resolved, add_codes,
  alive_extra,
}
use markdown_linkerator.Cli.Precedence.{resolve-settings, build_resolved-resolve, layered}

int_eq_iff : (a b : ℤ) → int_eq a b ≡ true → a ≡ b
int_eq_iff a b h = eq_of_parts a b (ground arith)

has_code-append :
    (c : ℤ) (xs ys : List ℤ) → has_code c (xs ++ ys) ≡ (has_code c xs || has_code c ys)
unfolding has_code
has_code-append c [] ys = refl
has_code-append c (x ∷ xs) ys = ground (arith, has_code-append c xs ys)

has_code_same : (a b : ℤ) (xs : List ℤ) → int_eq a b ≡ true → has_code a xs ≡ has_code b xs
has_code_same a b xs h = ap (λ c. has_code c xs) (int_eq_iff a b h)

-- The extra codes are added to those that are there: none goes.
pub has_code-add_codes :
    (c : ℤ) (extra codes : List ℤ)
    → has_code c (add_codes extra codes) ≡ (has_code c codes || has_code c extra)
unfolding add_codes has_code
has_code-add_codes c [] codes = ground arith
has_code-add_codes c (x ∷ extra) codes = elim (Bool-cases (has_code x codes)) [
  | inl e ↦ ground (arith, has_code-add_codes c extra codes, has_code_same x c codes)
  | inr e ↦
      ground
        (arith, has_code-add_codes c extra (codes ++ (x ∷ [])), has_code-append c codes (x ∷ []))
]

-- The default list is that of a list without codes.
default_code_set :
    (file : Option (List ℤ))
    → code_set (list_of (over (over none (over none file)) (some (pos 200 ∷ []))))
      ≡ code_set (or_else file [])
unfolding code_set
default_code_set none = refl
default_code_set (some codes) = refl

module _ (fl : Floats) (conv : Conversions (fl.F)) (lookup_env : Text → Option Text)
    (flags : Flags (fl.F)) (exists : Text → Bool) (load_file : Text → Option (Config (fl.F)))
    {R : Type 0} (compile : Text → Option R) (getenv : Text → Text) where
  open fl use {F}

  -- The alive codes of a run are those of the configuration file, or 200 where it names none, together
  -- with the extra ones: an extra code never makes another code dead.
  pub build_resolved-has_code :
      (file : Config F) (r : Resolved F R) (code : ℤ)
      → file_config fl conv lookup_env flags exists load_file ≡ some file
      → build_resolved fl conv lookup_env flags exists load_file compile getenv ≡ some r
      → has_code code r.alive_status_codes ≡ (
          has_code code (code_set (or_else file.alive_status_codes []))
          || has_code code (alive_extra conv lookup_env flags))
  unfolding settings merge defaults config_from_env config_from_flags
  build_resolved-has_code file r code read built =
      let built_from =
        build_resolved-resolve fl conv lookup_env flags exists load_file compile getenv file r read
          built in
      let q = built_from.0 in
      let s =
        resolve-settings fl compile getenv
          (layered fl conv lookup_env flags exists load_file compile getenv file) q built_from.1 in
      ap (λ x. has_code code x.alive_status_codes) built_from.2
      ∙ has_code-add_codes code (alive_extra conv lookup_env flags) q.alive_status_codes
      ∙ ap (λ l. has_code code l || has_code code (alive_extra conv lookup_env flags))
          (ap (λ x. x.alive_status_codes) s.2 ∙ default_code_set file.alive_status_codes)
