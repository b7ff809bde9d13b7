-- ===== src/Checker/Local/Domains.antt =====
-- internal/checker/checker.go: which addresses have a domain with an MX record, as `domainOf` and `hasMX` find.
use markdown_linkerator.Base.{
  ℕ, ◌≡◌, ◌≢◌, ◌↔◌, refl, ap, ◌∙◌, sym, inl, inr, true, false, Option, none, some, List, [], ◌∷◌,
  ◌++◌, arith, Text, has_char, after_last, Option-cases,
}
use markdown_linkerator.Checker.Local.{has_mx, domain_of}

-- What follows the last `@` of the address is a domain with MX records.
abbrev pub HasMx : (Text → Option (List Text)) → Text → Type 0
HasMx lookup_mx address =
    (user domain first : Text) × (more : List Text) × (address ≡ user ++ (b'@' ∷ domain))
    × (has_char b'@' domain ≡ false)
    × (domain ≢ [])
    × (lookup_mx domain ≡ some (first ∷ more))

after_last-none : (x : ℕ) (s : Text) → has_char x s ≡ false → after_last x s ≡ none
unfolding after_last has_char
after_last-none x [] h = refl
after_last-none x (c ∷ s) h = ground (arith, after_last-none x s)

after_last-append :
    (x : ℕ) (u d : Text) → has_char x d ≡ false → after_last x (u ++ (x ∷ d)) ≡ some d
unfolding after_last
after_last-append x [] d h = ground (arith, after_last-none x d h)
after_last-append x (c ∷ u) d h = ground (arith, after_last-append x u d h)

no_last : (x : ℕ) (s : Text) → after_last x s ≡ none → has_char x s ≡ false
unfolding after_last has_char
no_last x [] e = refl
no_last x (c ∷ s) e = ground (arith, no_last x s)

after_last_parts :
    (x : ℕ) (s d : Text)
    → after_last x s ≡ some d
    → (u : Text) × (s ≡ u ++ (x ∷ d)) × (has_char x d ≡ false)
unfolding after_last
after_last_parts x [] d e = absurd (ground arith)
after_last_parts x (c ∷ s) d e = elim (Option-cases (after_last x s)) [
  | inr (t, p) ↦
      let (u, parts, none_in) = after_last_parts x s d (ground arith) in
      (c ∷ u, ap (λ r. c ∷ r) parts, none_in)
  | inl p ↦ let same : s ≡ d = ground arith in ([], ground arith, rw (sym same) (no_last x s p))
]

has_records :
    (lookup_mx : Text → Option (List Text)) (d : Text)
    → has_mx lookup_mx d ≡ true
    → (d ≢ []) × (first : Text) × (more : List Text) × (lookup_mx d ≡ some (first ∷ more))
unfolding has_mx
has_records lookup_mx [] h = absurd (ground arith)
has_records lookup_mx (c ∷ d) h = elim (Option-cases (lookup_mx (c ∷ d))) [
  | inl e ↦ absurd (ground arith)
  | inr ([], e) ↦ absurd (ground arith)
  | inr (first ∷ more, e) ↦ ((λ x. cc), first, more, e)
]

records_count :
    (lookup_mx : Text → Option (List Text)) (d first : Text) (more : List Text)
    → d ≢ []
    → lookup_mx d ≡ some (first ∷ more)
    → has_mx lookup_mx d ≡ true
unfolding has_mx
records_count lookup_mx [] first more ne e = absurd (ne refl)
records_count lookup_mx (c ∷ d) first more ne e = ground arith

domain_of_last : (address d : Text) → after_last b'@' address ≡ some d → domain_of address ≡ d
unfolding domain_of
domain_of_last address d e = ground arith

no_domain : (address : Text) → after_last b'@' address ≡ none → domain_of address ≡ []
unfolding domain_of
no_domain address e = ground arith

-- The test of the MX records is that of the address's domain.
pub has_mx_iff :
    (lookup_mx : Text → Option (List Text)) (address : Text)
    → (has_mx lookup_mx (domain_of address) ≡ true) ↔ HasMx lookup_mx address
has_mx_iff lookup_mx address = (
  λ h. elim (Option-cases (after_last b'@' address)) [
    | inl e ↦ absurd ((has_records lookup_mx (domain_of address) h).0 (no_domain address e))
    | inr (d, e) ↦
        let (user, parts, last) = after_last_parts b'@' address d e in
        let (ne, first, more, found) =
          has_records lookup_mx d (ap (has_mx lookup_mx) (sym (domain_of_last address d e)) ∙ h) in
        (user, d, first, more, parts, last, ne, found)
  ],
  λ (user, d, first, more, parts, last, ne, found).
      let e : after_last b'@' address ≡ some d =
        ap (after_last b'@') parts ∙ after_last-append b'@' user d last in
      ap (has_mx lookup_mx) (domain_of_last address d e)
      ∙ records_count lookup_mx d first more ne found,
)
