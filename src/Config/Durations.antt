-- ===== src/Config/Durations.antt =====
-- internal/config/duration.go: the JSON form of a duration. strconv.ParseFloat with the conversion from
-- milliseconds, time.ParseDuration and Duration.String are parameters.
pub mod RoundTrip
mod Examples
use mathlib.Core.List.{reverse}
use markdown_linkerator.Base.{
  ℕ, Bool, true, false, ◌||◌, Option, none, some, List, [], ◌∷◌, ◌++◌, ◌==◌, if◌then◌else◌, Text,
  text, text_eq, ℤ,
}
use markdown_linkerator.Model.Key.{trim_space, is_empty}
use markdown_linkerator.Config.{Duration, new_duration}

-- 34 is the quotation mark.
unfoldable pub trim_left_quotes : Text → Text
trim_left_quotes [] = []
trim_left_quotes (c ∷ s) = let rest = trim_left_quotes s in if c == 34 then rest else c ∷ s

unfoldable pub trim_quotes : Text → Text
unfolding trim_left_quotes
trim_quotes s = reverse (trim_left_quotes (reverse (trim_left_quotes s)))

abbrev pub starts_quoted : Text → Bool
starts_quoted [] = false
starts_quoted (c ∷ s) = c == 34

abbrev pub set_to : Option ℤ → Option Duration
set_to none = none
set_to (some v) = some (new_duration v)

-- `strconv.Quote`, of the characters that a printed duration has.
abbrev pub quote : Text → Text
quote s = (34 ∷ s) ++ (34 ∷ [])

module _ (parse_millis parse_duration : Text → Option ℤ) where
  -- The text between the quotation marks, once trimmed.
  unfoldable pub unmarshal_text : Duration → Text → Option Duration
  unmarshal_text d str = if is_empty str then some d else elim (parse_duration str) [
    | some v ↦ some (new_duration v)
    | none ↦ set_to (parse_millis str)
  ]

  -- `UnmarshalJSON`, from the value that the receiver had; `none` is the error.
  unfoldable pub unmarshal_json : Duration → Text → Option Duration
  unfolding trim_space trim_quotes unmarshal_text text_eq
  unmarshal_json d b =
      let s = trim_space b in
      if text_eq s (text "null") || is_empty s
      then some d
      else if starts_quoted s
      then unmarshal_text d (trim_space (trim_quotes s))
      else set_to (parse_millis s)

unfoldable pub marshal_json : (ℤ → Text) → Duration → Text
marshal_json print d = if d.set then quote (print d.d) else text "null"
