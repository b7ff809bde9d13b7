-- ===== src/Checker/Local/Verdicts.antt =====
-- internal/checker/checker.go: what the checks that take no HTTP request conclude.
use markdown_linkerator.Base.{
  ◌≡◌, ◌↔◌, ◌∙◌, ap, sym, or_else, text, to_lower, join_rest, ◌++◌, refl, ◌⊎◌, inl, inr, Bool,
  false, Option, none, some, List, [], ◌∷◌, arith, All, Text, Bool-cases, Option-cases, Option,
}
use markdown_linkerator.Model.{Target, State}
use markdown_linkerator.Model.Key.{trim_space}
use markdown_linkerator.Config.Resolve.{Resolved}
use markdown_linkerator.Checker.Local.{recipients, refusal, first_refusal, check_mailto}
use markdown_linkerator.Checker.Local.Domains.{HasMx, has_mx_iff}
use markdown_linkerator.Checker.Local.Recipients.{IsPart, IsQuery, recipients_lem}

module _ (parse_address : Text → Option Text) (lookup_mx : Text → Option (List Text))
    (quote : Text → Text) where
  -- A recipient parses as an address, and where MX records are asked for, its domain has one.
  abbrev pub Reaches : Bool → Text → Type 0
  Reaches check_mx rcpt =
      (address : Text) × (parse_address (trim_space rcpt) ≡ some address)
      × ((check_mx ≡ false) ⊎ HasMx lookup_mx address)

  refusal_iff :
      (check_mx : Bool) (rcpt : Text)
      → (refusal parse_address lookup_mx quote check_mx (trim_space rcpt) ≡ none)
        ↔ Reaches check_mx rcpt
  unfolding refusal
  refusal_iff check_mx rcpt = elim (Option-cases (parse_address (trim_space rcpt))) [
    | inl n ↦ (λ e. absurd (ground arith), λ (a, p, w). absurd (ground arith))
    | inr (a, n) ↦
        let mx = has_mx_iff lookup_mx a in
        (
          λ e. (
            a,
            n,
            elim (Bool-cases check_mx) [ inl y ↦ inr (mx.0 (ground arith)) | inr f ↦ inl f ],
          ),
          λ (b, p, w).
              let same : a ≡ b = ap (λ o. or_else o []) (sym n ∙ p) in
              elim w [
                | inl f ↦ ground arith
                | inr h ↦ let found = mx.1 (rw same h) in ground arith
              ],
        )
  ]

  first_refusal_iff :
      (check_mx : Bool) (rs : List Text)
      → (first_refusal parse_address lookup_mx quote check_mx rs ≡ none) ↔ All (Reaches check_mx) rs
  unfolding first_refusal
  first_refusal_iff check_mx [] = (λ e. tt, λ u. refl)
  first_refusal_iff check_mx (r ∷ rs) =
      elim (Option-cases (refusal parse_address lookup_mx quote check_mx (trim_space r))) [
        | inl n ↦ (
          λ e. ((refusal_iff check_mx r).0 n, (first_refusal_iff check_mx rs).0 (ground arith)),
          λ (h, a). ground (arith, (first_refusal_iff check_mx rs).1 a),
        )
        | inr (d, n) ↦ (
          λ e. absurd (ground arith),
          λ (h, a). absurd (ground (arith, (refusal_iff check_mx r).1 h)),
        )
      ]

  alive_iff :
      {F R : Type 0} (t : Target) (cfg : Resolved F R)
      → ((check_mailto parse_address lookup_mx quote t cfg).state ≡ State.alive)
        ↔ All (Reaches cfg.mailto_check_mx) (recipients t.url)
  unfolding check_mailto
  alive_iff t cfg =
      elim (Option-cases
        (first_refusal parse_address lookup_mx quote cfg.mailto_check_mx (recipients t.url))) [
          | inl n ↦ (
            λ e. (first_refusal_iff cfg.mailto_check_mx (recipients t.url)).0 n,
            λ a. ground arith,
          )
          | inr (d, n) ↦ (
            λ e. absurd (ground arith),
            λ a.
                absurd
                  (ground (arith, (first_refusal_iff cfg.mailto_check_mx (recipients t.url)).1 a)),
          )
        ]

  -- A mailto link, in any letter case of the scheme, with its recipients separated by commas and, it may
  -- be, header fields after a question mark, is alive exactly when every one of the recipients parses as an
  -- address and, where MX records are asked for, has one for the domain, which follows its last `@`.
  pub check_mailto_iff :
      {F R : Type 0} (t : Target) (cfg : Resolved F R) (scheme first query : Text)
      (others : List Text)
      → to_lower scheme ≡ text "mailto:"
      → All IsPart (first ∷ others)
      → IsQuery query
      → t.url ≡ scheme ++ (join_rest 44 first others ++ query)
      → ((check_mailto parse_address lookup_mx quote t cfg).state ≡ State.alive)
        ↔ All (Reaches cfg.mailto_check_mx) (first ∷ others)
  check_mailto_iff t cfg scheme first query others is_mail parts q e =
      let found : recipients t.url ≡ first ∷ others =
        ap recipients e ∙ recipients_lem scheme first query others is_mail parts q in
      rw found at (alive_iff t cfg)
