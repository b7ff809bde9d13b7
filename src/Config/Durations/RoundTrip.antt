-- ===== src/Config/Durations/RoundTrip.antt =====
-- internal/config/duration.go: a duration that is written and read again.
use mathlib.Core.List.{reverse, reverse-append, reverse-cons, reverse-reverse}
use markdown_linkerator.Base.{
  ℕ, ◌≡◌, refl, sym, ap, ◌∙◌, false, ◌||◌, Option, some, [], ◌∷◌, ◌++◌, arith, if◌then◌else◌, Text,
  text, text_eq, has_char, ℤ, inl, inr, Bool-cases,
}
use markdown_linkerator.Model.Key.{trim_space, trim_left_space, is_space, is_empty}
use markdown_linkerator.Config.{Duration, new_duration}
use markdown_linkerator.Config.Durations.{
  trim_left_quotes, trim_quotes, quote, unmarshal_text, unmarshal_json, marshal_json,
}

-- What time.ParseDuration and Duration.String promise: a printed duration is read as itself, and has no
-- quotation mark, no space around it and some character.
pub record Prints (print : ℤ → Text) (parse_duration : Text → Option ℤ) : Type 0 where
  pub parses : (v : ℤ) → parse_duration (print v) ≡ some v
  pub unquoted : (v : ℤ) → has_char 34 (print v) ≡ false
  pub trimmed : (v : ℤ) → trim_space (print v) ≡ print v
  pub some_text : (v : ℤ) → is_empty (print v) ≡ false

has_char-append : (x : ℕ) (s t : Text) → has_char x (s ++ t) ≡ (has_char x s || has_char x t)
unfolding has_char
has_char-append x [] t = refl
has_char-append x (c ∷ s) t = ground (arith, has_char-append x s t)

has_char-reverse : (x : ℕ) (s : Text) → has_char x (reverse s) ≡ has_char x s
unfolding has_char
has_char-reverse x [] = refl
has_char-reverse x (c ∷ s) =
    ap (has_char x) (reverse-cons c s)
    ∙ has_char-append x (reverse s) (c ∷ [])
    ∙ ground (arith, has_char-reverse x s)

trim_left_quotes_same : (s : Text) → has_char 34 s ≡ false → trim_left_quotes s ≡ s
unfolding trim_left_quotes has_char
trim_left_quotes_same [] h = refl
trim_left_quotes_same (c ∷ s) h = ground arith

reverse-last : (d : ℕ) (s : Text) → reverse (s ++ (d ∷ [])) ≡ d ∷ reverse s
reverse-last d s = reverse-append s (d ∷ [])

trim_left_quotes-cons : (s : Text) → trim_left_quotes (34 ∷ s) ≡ trim_left_quotes s
unfolding trim_left_quotes
trim_left_quotes-cons s = refl

trim_left_quotes-append :
    (c : ℕ) (s : Text)
    → has_char 34 (c ∷ s) ≡ false
    → trim_left_quotes ((c ∷ s) ++ (34 ∷ [])) ≡ (c ∷ s) ++ (34 ∷ [])
unfolding trim_left_quotes has_char
trim_left_quotes-append c s h = ground arith

trim_no_quotes : trim_quotes (quote []) ≡ []
unfolding trim_quotes trim_left_quotes
trim_no_quotes = refl

trim_quotes-quote : (s : Text) → has_char 34 s ≡ false → trim_quotes (quote s) ≡ s
unfolding trim_quotes
trim_quotes-quote [] h = trim_no_quotes
trim_quotes-quote (c ∷ s) h =
    ap (λ t. reverse (trim_left_quotes (reverse t)))
      (trim_left_quotes-cons ((c ∷ s) ++ (34 ∷ [])) ∙ trim_left_quotes-append c s h)
    ∙ ap (λ t. reverse (trim_left_quotes t)) (reverse-last 34 (c ∷ s))
    ∙ ap reverse (trim_left_quotes-cons (reverse (c ∷ s)))
    ∙ ap reverse (trim_left_quotes_same (reverse (c ∷ s)) (has_char-reverse 34 (c ∷ s) ∙ h))
    ∙ reverse-reverse (c ∷ s)

trim_left_space_same : (c : ℕ) (s : Text) → is_space c ≡ false → trim_left_space (c ∷ s) ≡ c ∷ s
unfolding trim_left_space
trim_left_space_same c s h = rw h refl

-- A text between two characters that are no spaces is trimmed already.
pub trim_space-append :
    (c d : ℕ) (s : Text)
    → is_space c ≡ false
    → is_space d ≡ false
    → trim_space ((c ∷ s) ++ (d ∷ [])) ≡ (c ∷ s) ++ (d ∷ [])
unfolding trim_space
trim_space-append c d s h k =
    ap (λ t. reverse (trim_left_space (reverse t))) (trim_left_space_same c (s ++ (d ∷ [])) h)
    ∙ ap (λ t. reverse (trim_left_space t)) (reverse-last d (c ∷ s))
    ∙ ap reverse (trim_left_space_same d (reverse (c ∷ s)) k ∙ sym (reverse-last d (c ∷ s)))
    ∙ reverse-reverse ((c ∷ s) ++ (d ∷ []))

module _ (parse_millis parse_duration : Text → Option ℤ) (print : ℤ → Text)
    (laws : Prints print parse_duration) where
  unmarshal_json_null :
      (d : Duration) → unmarshal_json parse_millis parse_duration d (text "null") ≡ some d
  unfolding unmarshal_json trim_space trim_left_space text_eq
  unmarshal_json_null d = refl

  unmarshal_json-quote :
      (d : Duration) (v : ℤ)
      → unmarshal_json parse_millis parse_duration d (quote (print v)) ≡ some (new_duration v)
  unfolding unmarshal_json unmarshal_text text_eq
  unmarshal_json-quote d v =
      rw
        (
          trim_space-append 34 34 (print v) refl refl,
          trim_quotes-quote (print v) (laws.unquoted v),
          laws.trimmed v,
          laws.some_text v,
          laws.parses v,
        )
        refl

  -- A duration that was set is read from its JSON form as it was, whatever the receiver held; one that was
  -- not set leaves the receiver as it is.
  pub unmarshal_json-marshal_json :
      (receiver d : Duration)
      → unmarshal_json parse_millis parse_duration receiver (marshal_json print d)
        ≡ some (if d.set then d else receiver)
  unfolding marshal_json
  unmarshal_json-marshal_json receiver d = elim (Bool-cases d.set) [
    | inl e ↦ rw e (unmarshal_json-quote receiver d.d)
    | inr e ↦ rw e (unmarshal_json_null receiver)
  ]
