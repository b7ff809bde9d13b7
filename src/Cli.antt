-- ===== src/Cli.antt =====
-- internal/cli/config.go: the environment, the flags and the layers of the configuration. os.LookupEnv,
-- os.Stat, strconv, time.ParseDuration and the flag set of cobra are parameters.
mod Registered
pub mod Precedence
pub mod AliveCodes
pub mod Main
mod Examples
mod Layers
unfoldable pub use Layers.*
use markdown_linkerator.Base.{
  ℕ, Bool, true, false, ◌&&◌, Option, none, some, List, [], ◌∷◌, ◌++◌, if◌then◌else◌, or_else, Text,
  text, split, ℤ, pos,
}
use markdown_linkerator.Model.Key.{trim_space, is_empty}
use markdown_linkerator.Config.{
  Floats, Config, Duration, new_duration, unset_duration, empty_config, merge,
}
use markdown_linkerator.Config.Resolve.{
  Resolved, Outcome, ok, bad_ignore_pattern, bad_replacement_pattern, resolve, has_code,
}

-- `boolValue` and `durationValue`: a flag that is given, else the environment, else the flag's default.
unfoldable pub bool_value :
    {F : Type 0} → Conversions F → (Text → Option Text) → Flags F → Text → Text → Bool
unfolding look
bool_value conv lookup_env flags flag env =
    if flags.changed flag
    then flags.get_bool flag
    else or_else (look conv.parse_bool lookup_env env) (flags.get_bool flag)

unfoldable pub duration_value :
    {F : Type 0} → Conversions F → (Text → Option Text) → Flags F → Text → Text → ℤ
unfolding look
duration_value conv lookup_env flags flag env =
    if flags.changed flag
    then flags.get_duration flag
    else or_else (look conv.parse_duration lookup_env env) (flags.get_duration flag)

unfoldable pub string_value :
    {F : Type 0} → (Text → Option Text) → Flags F → Text → Text → Text → Text
unfolding look_string
string_value lookup_env flags flag env def =
    let from_env : Option Text = if is_empty env then none else look_string lookup_env env in
    let value = flags.get_string flag in
    if flags.changed flag then value else or_else from_env (if is_empty value then def else value)

-- The first of the names that is there.
unfoldable pub first_existing : (Text → Bool) → List Text → Text
first_existing exists [] = []
first_existing exists (name ∷ names) =
    let rest = first_existing exists names in if exists name then name else rest

unfoldable pub auto_detect_config : (Text → Bool) → Text
unfolding first_existing
auto_detect_config exists = first_existing exists (
    text ".markdown-link-check.json"
    ∷ text "linkerator.yaml"
    ∷ text "linkerator.yml"
    ∷ text ".linkerator.yaml"
    ∷ [])

-- The parts of a list of codes that are numbers.
unfoldable pub csv_parts : (Text → Option ℤ) → List Text → List ℤ
unfolding trim_space
csv_parts atoi [] = []
csv_parts atoi (part ∷ parts) =
    let rest = csv_parts atoi parts in
    if is_empty (trim_space part)
    then rest
    else elim (atoi (trim_space part)) [ none ↦ rest | some n ↦ n ∷ rest ]

unfoldable pub csv_ints : (Text → Option ℤ) → Text → List ℤ
unfolding csv_parts
csv_ints atoi s = csv_parts atoi (split b',' s)

unfoldable pub alive_extra : {F : Type 0} → Conversions F → (Text → Option Text) → Flags F → List ℤ
unfolding csv_ints look_string
alive_extra conv lookup_env flags =
    if flags.changed (text "alive")
    then csv_ints conv.atoi (flags.get_string (text "alive"))
    else elim (look_string lookup_env (text "LINKERATOR_ALIVE_CODES")) [
      | some v ↦ csv_ints conv.atoi v
      | none ↦ []
    ]

-- `resolved.AliveStatusCodes[code] = true` for each of the codes.
unfoldable pub add_codes : List ℤ → List ℤ → List ℤ
unfolding has_code
add_codes [] codes = codes
add_codes (c ∷ cs) codes = add_codes cs (if has_code c codes then codes else codes ++ (c ∷ []))

-- `load_file` is `config.Load`: `none` where the file cannot be read or parsed.
module _ (fl : Floats) (conv : Conversions (fl.F)) (lookup_env : Text → Option Text)
    (flags : Flags (fl.F)) (exists : Text → Bool) (load_file : Text → Option (Config (fl.F))) where
  open fl use {F}

  unfoldable pub config_path : Text
  unfolding string_value auto_detect_config
  config_path =
      let path = string_value lookup_env flags (text "config") (text "LINKERATOR_CONFIG") [] in
      if is_empty path then auto_detect_config exists else path

  -- The lowest layer.
  unfoldable pub file_config : Option (Config F)
  unfolding config_path
  file_config = if is_empty config_path then some (empty_config fl) else load_file config_path

  unfoldable pub resolve_config : Option (Config F)
  unfolding file_config merge config_from_env config_from_flags
  resolve_config = elim file_config [
    | none ↦ none
    | some cfg ↦
        some (
          merge fl (merge fl cfg (config_from_env fl conv lookup_env)) (config_from_flags fl flags))
  ]

  -- `none` is an error of the configuration: a file that cannot be loaded, or a bad pattern.
  unfoldable pub build_resolved :
      {R : Type 0} → (Text → Option R) → (Text → Text) → Option (Resolved F R)
  unfolding resolve_config resolve add_codes alive_extra
  build_resolved compile getenv = elim resolve_config [
    | none ↦ none
    | some cfg ↦ elim (resolve fl compile getenv cfg) [
      | ok resolved ↦ some (record resolved {
        alive_status_codes =
            add_codes (alive_extra conv lookup_env flags) resolved.alive_status_codes;
      })
      | bad_ignore_pattern ↦ none
      | bad_replacement_pattern ↦ none
    ]
  ]
