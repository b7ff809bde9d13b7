-- ===== src/Extract/Slug/Examples.antt =====
-- Three headings, two of them alike; the numbers are printed as that many digits.
use markdown_linkerator.Base.{
  ℕ, zero, suc, ◌≡◌, refl, true, false, List, [], ◌∷◌, Text, text, All, after_last,
}
use markdown_linkerator.Extract.Slug.{number_slugs}
use markdown_linkerator.Extract.Slug.Repeats.{
  all_digits, ends_in_number, numbered, number_slugs-numbered,
}

marks : ℕ → Text
marks zero = []
marks (suc n) = b'1' ∷ marks n

marks_are_digits : (n : ℕ) → all_digits (marks n) ≡ true
unfolding marks all_digits
marks_are_digits zero = refl
marks_are_digits (suc n) = marks_are_digits n

abbrev headings : List Text
headings = text "intro" ∷ text "usage" ∷ text "intro" ∷ []

plain_headings : All (λ s. ends_in_number s ≡ false) headings
unfolding ends_in_number after_last
plain_headings = (refl, (refl, (refl, tt)))

number_slugs-numbered_example : number_slugs marks [] headings ≡ numbered marks [] headings
number_slugs-numbered_example = number_slugs-numbered marks headings marks_are_digits plain_headings
