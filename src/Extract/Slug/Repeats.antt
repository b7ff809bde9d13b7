-- ===== src/Extract/Slug/Repeats.antt =====
-- internal/extract/anchors.go: the numbers that repeated headings get.
use markdown_linkerator.Base.{
  ℕ, zero, suc, ◌≡◌, refl, sym, ap, ◌∙◌, Bool, true, false, ◌&&◌, Option, none, some, List, [], ◌∷◌,
  ◌++◌, leb, ◌⊎◌, inl, inr, arith, Text, Map, lookup, insert, All, count, text_eq, text_eq_iff,
  lookup-insert, after_last, Bool-cases,
}
use markdown_linkerator.Extract.Slug.{number_slugs, suffixed}

unfoldable pub all_digits : Text → Bool
all_digits [] = true
all_digits (c ∷ s) = leb b'0' c && leb c b'9' && all_digits s

-- Whether a slug ends in a dash and digits, so that it could be the numbered form of another.
unfoldable pub ends_in_number : Text → Bool
unfolding after_last all_digits
ends_in_number s = elim (after_last b'-' s) [ none ↦ false | some d ↦ all_digits d ]

-- The `k`-th repeat of a slug.
unfoldable pub nth_repeat : (ℕ → Text) → Text → ℕ → Text
nth_repeat itoa s zero = s
nth_repeat itoa s (suc k) = suffixed itoa s (suc k)

-- What the numbering is to give: each slug with the number of its occurrences before.
unfoldable pub numbered : (ℕ → Text) → List Text → List Text → List Text
unfolding nth_repeat
numbered itoa before [] = []
numbered itoa before (s ∷ sections) =
    nth_repeat itoa s (count (text_eq s) before) ∷ numbered itoa (s ∷ before) sections

digits_have_no_dash : (d : Text) → all_digits d ≡ true → after_last b'-' d ≡ none
unfolding all_digits after_last
digits_have_no_dash [] h = refl
digits_have_no_dash (c ∷ d) h = ground (arith, digits_have_no_dash d)

after_last-dash :
    (s d : Text) → after_last b'-' d ≡ none → after_last b'-' (s ++ (b'-' ∷ d)) ≡ some d
unfolding after_last
after_last-dash [] d h = ground arith
after_last-dash (c ∷ s) d h = ground (arith, after_last-dash s d)

suffixed-ends_in_number :
    (itoa : ℕ → Text) (s : Text) (n : ℕ)
    → all_digits (itoa n) ≡ true
    → ends_in_number (suffixed itoa s n) ≡ true
unfolding ends_in_number
suffixed-ends_in_number itoa s n h =
    ground (arith, after_last-dash s (itoa n), digits_have_no_dash (itoa n))

-- The counter that `seen` should have for a slug.
abbrev counter : ℕ → Option ℕ
counter zero = none
counter (suc k) = some k

abbrev CountsRepeats : List Text → Map ℕ → Type 0
CountsRepeats before seen =
    (s : Text) → ends_in_number s ≡ false → lookup s seen ≡ counter (count (text_eq s) before)

-- A name under which no plain slug stands may be registered.
register_other :
    (before : List Text) (seen : Map ℕ) (t : Text) (v : ℕ)
    → ends_in_number t ≡ true
    → CountsRepeats before seen
    → CountsRepeats before (insert t v seen)
register_other before seen t v h c s plain = elim (Bool-cases (text_eq t s)) [
  | inl e ↦ absurd (ground (arith, ap ends_in_number ((text_eq_iff t s).0 e)))
  | inr e ↦ ground (arith, lookup-insert t s v seen, c s plain)
]

-- The counter of a slug that occurs once more.
count_again :
    (before : List Text) (seen : Map ℕ) (x : Text)
    → CountsRepeats before seen
    → CountsRepeats (x ∷ before) (insert x (count (text_eq x) before) seen)
count_again before seen x c s plain = elim (Bool-cases (text_eq x s)) [
  | inl e ↦ ground (
    arith,
    text_eq_iff s x,
    ap (λ t. count (text_eq t) before) ((text_eq_iff x s).0 e),
    sym ((text_eq_iff x s).0 e),
    lookup-insert x s (count (text_eq x) before) seen,
  )
  | inr e ↦ ground (
    arith,
    text_eq_iff s x,
    text_eq_iff x s,
    lookup-insert x s (count (text_eq x) before) seen,
    c s plain,
  )
]

-- One round of the loop, from the number of earlier occurrences.
number_slugs_round :
    (itoa : ℕ → Text) (seen : Map ℕ) (x : Text) (sections : List Text) (k : ℕ)
    → lookup x seen ≡ counter k
    → (m : Map ℕ) × (number_slugs itoa seen (x ∷ sections)
        ≡ nth_repeat itoa x k ∷ number_slugs itoa m sections)
      × ((m ≡ insert x k seen) ⊎ (m ≡ insert (suffixed itoa x k) 0 (insert x k seen)))
unfolding number_slugs nth_repeat
number_slugs_round itoa seen x sections zero e = (insert x 0 seen, ground arith, inl refl)
number_slugs_round itoa seen x sections (suc k) e =
    let counted = insert x (suc k) seen in
    (insert (suffixed itoa x (suc k)) 0 counted, ground arith, inr refl)

number_slugs_from :
    (itoa : ℕ → Text) (before : List Text) (seen : Map ℕ) (sections : List Text)
    → ((n : ℕ) → all_digits (itoa n) ≡ true)
    → CountsRepeats before seen
    → All (λ s. ends_in_number s ≡ false) sections
    → number_slugs itoa seen sections ≡ numbered itoa before sections
unfolding number_slugs numbered
number_slugs_from itoa before seen [] digits c a = refl
number_slugs_from itoa before seen (x ∷ sections) digits c a =
    let k = count (text_eq x) before in
    let again = count_again before seen x c in
    let round = number_slugs_round itoa seen x sections k (c x a.0) in
    let m = round.0 in
    let counts : CountsRepeats (x ∷ before) m = elim (round.2) [
      | inl e ↦ rw e again
      | inr e ↦ rw e (
          register_other (x ∷ before) (insert x k seen) (suffixed itoa x k) 0
            (suffixed-ends_in_number itoa x k (digits k)) again)
    ] in
    round.1
    ∙ ap (λ t. nth_repeat itoa x k ∷ t)
        (number_slugs_from itoa (x ∷ before) m sections digits counts a.1)

-- Where no heading's own slug ends in a dash and digits, and `strconv.Itoa` prints digits, each
-- heading's anchor is its slug for the first heading with that slug, and its slug with `-k` for the
-- `k`-th repeat, in the order of the document.
pub number_slugs-numbered :
    (itoa : ℕ → Text) (sections : List Text)
    → ((n : ℕ) → all_digits (itoa n) ≡ true)
    → All (λ s. ends_in_number s ≡ false) sections
    → number_slugs itoa [] sections ≡ numbered itoa [] sections
unfolding lookup
number_slugs-numbered itoa sections digits a =
    number_slugs_from itoa [] [] sections digits (λ s plain. refl) a
