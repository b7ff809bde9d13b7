-- ===== src/Checker/Local/Examples.antt =====
-- A mail link with two recipients, one of them with no MX record.
use markdown_linkerator.Base.{
  ◌≡◌, ◌↔◌, refl, inr, ◌++◌, to_lower, lower_code, has_char, join_rest, Option, some, List, [], ◌∷◌,
  All, Text, text,
}
use markdown_linkerator.Model.{Target, State, mailto}
use markdown_linkerator.Samples.{sample_config, link_a}
use markdown_linkerator.Checker.Local.{check_mailto}
use markdown_linkerator.Checker.Local.Recipients.{IsPart}
use markdown_linkerator.Checker.Local.Verdicts.{Reaches, check_mailto_iff}

abbrev mail : Target
mail = record link_a { url = text "MailTo:a@b.org,c?subject=x"; kind = mailto }

abbrev address : Text → Option Text
address t = some t

abbrev records : Text → Option (List Text)
records t = some (t ∷ [])

abbrev quote : Text → Text
quote t = t

is_mail : to_lower (text "MailTo:") ≡ text "mailto:"
unfolding to_lower lower_code
is_mail = refl

are_parts : All IsPart (text "a@b.org" ∷ text "c" ∷ [])
unfolding has_char
are_parts = ((refl, refl), ((refl, refl), tt))

spelled :
    mail.url
    ≡ text "MailTo:" ++ (join_rest 44 (text "a@b.org") (text "c" ∷ []) ++ text "?subject=x")
unfolding join_rest
spelled = refl

check_mailto_iff_example :
    ((check_mailto address records quote mail sample_config).state ≡ State.alive)
    ↔ All
        (Reaches address records quote sample_config.mailto_check_mx)
        (text "a@b.org" ∷ text "c" ∷ [])
check_mailto_iff_example =
    check_mailto_iff address records quote mail sample_config (text "MailTo:") (text "a@b.org")
      (text "?subject=x") (text "c" ∷ []) is_mail are_parts (inr (text "subject=x", refl)) spelled
