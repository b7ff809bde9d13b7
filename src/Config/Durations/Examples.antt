-- ===== src/Config/Durations/Examples.antt =====
-- A duration that is printed as one letter for each nanosecond, between two others.
use markdown_linkerator.Base.{
  ℕ, zero, suc, ◌≡◌, refl, ap, false, Option, none, some, [], ◌∷◌, ◌++◌, ◌==◌, if◌then◌else◌, Text,
  text, count, has_char, ℤ, pos, negsuc,
}
use markdown_linkerator.Model.Key.{trim_space, is_empty}
use markdown_linkerator.Config.{new_duration, unset_duration}
use markdown_linkerator.Config.Durations.{unmarshal_json, marshal_json}
use markdown_linkerator.Config.Durations.RoundTrip.{
  Prints, trim_space-append, unmarshal_json-marshal_json,
}

marks : ℕ → Text
marks zero = text "s"
marks (suc n) = b'i' ∷ marks n

print : ℤ → Text
unfolding marks
print (pos n) = b'p' ∷ marks n
print (negsuc n) = b'n' ∷ marks n

abbrev units : Text → ℕ
units s = count (λ c. c == b'i') s

read_marks : Text → Option ℤ
read_marks [] = none
read_marks (c ∷ s) = some (if c == b'p' then pos (units s) else negsuc (units s))

abbrev no_millis : Text → Option ℤ
no_millis s = none

units-marks : (n : ℕ) → units (marks n) ≡ n
unfolding marks
units-marks zero = refl
units-marks (suc n) = ap suc (units-marks n)

marks_unquoted : (n : ℕ) → has_char 34 (marks n) ≡ false
unfolding marks has_char
marks_unquoted zero = refl
marks_unquoted (suc n) = marks_unquoted n

-- The letters before the last one.
letters : ℕ → Text
letters zero = []
letters (suc n) = b'i' ∷ letters n

marks-letters : (n : ℕ) → letters n ++ text "s" ≡ marks n
unfolding marks letters
marks-letters zero = refl
marks-letters (suc n) = ap (λ s. b'i' ∷ s) (marks-letters n)

read_marks-print : (v : ℤ) → read_marks (print v) ≡ some v
unfolding print read_marks
read_marks-print (pos n) = ap (λ k. some (pos k)) (units-marks n)
read_marks-print (negsuc n) = ap (λ k. some (negsuc k)) (units-marks n)

print_unquoted : (v : ℤ) → has_char 34 (print v) ≡ false
unfolding print has_char
print_unquoted (pos n) = marks_unquoted n
print_unquoted (negsuc n) = marks_unquoted n

print_trimmed : (v : ℤ) → trim_space (print v) ≡ print v
unfolding print
print_trimmed (pos n) = rw (← marks-letters n) (trim_space-append b'p' b's' (letters n) refl refl)
print_trimmed (negsuc n) =
    rw (← marks-letters n) (trim_space-append b'n' b's' (letters n) refl refl)

print_some_text : (v : ℤ) → is_empty (print v) ≡ false
unfolding print
print_some_text (pos n) = refl
print_some_text (negsuc n) = refl

print-Prints : Prints print read_marks
print-Prints = record {
  parses = read_marks-print;
  unquoted = print_unquoted;
  trimmed = print_trimmed;
  some_text = print_some_text;
}

unmarshal_json-marshal_json_example :
    unmarshal_json no_millis read_marks unset_duration (marshal_json print (new_duration (pos 3)))
    ≡ some (new_duration (pos 3))
unmarshal_json-marshal_json_example =
    unmarshal_json-marshal_json no_millis read_marks print print-Prints unset_duration
      (new_duration (pos 3))
