-- ===== src/Extract/Targets/Kinds.antt =====
-- internal/extract/extract.go: which kind of target `classify` makes of a destination.
use markdown_linkerator.Base.{
  ℕ, ◌≡◌, refl, ◌↔◌, Bool, true, false, ◌||◌, none, some, [], ◌∷◌, arith, inl, inr, Text, text,
  text_eq, has_prefix, to_lower, Option-cases,
}
use markdown_linkerator.Model.{Target}
use markdown_linkerator.Model.Kind.{http, hash_local, mailto}
use markdown_linkerator.Extract.Targets.{Paths, classify, classify_path}

-- The scheme of a destination in lower case, empty where it does not parse.
unfoldable pub scheme_of : Paths → Text → Text
unfolding to_lower
scheme_of paths dest = elim (paths.parse_url dest) [ none ↦ [] | some u ↦ to_lower u.scheme ]

abbrev pub is_web : Text → Bool
is_web scheme = text_eq scheme (text "http") || text_eq scheme (text "https")

-- What a target of a destination is to be.
abbrev pub HasKind : Paths → Text → Text → Text → ℕ → Target → Type 0
HasKind paths raw dest file line t =
    ((t.kind ≡ hash_local) ↔ (has_prefix dest (text "#") ≡ true))
    × ((t.kind ≡ http)
        ↔ ((has_prefix dest (text "#") ≡ false) × (is_web (scheme_of paths dest) ≡ true)))
    × ((t.kind ≡ mailto) ↔ (
        (has_prefix dest (text "#") ≡ false)
        × (text_eq (scheme_of paths dest) (text "mailto") ≡ true)))
    × (t.raw ≡ raw)
    × (t.source_file ≡ file)
    × (t.line ≡ line)

web_is_no_mail : (s : Text) → is_web s ≡ true → text_eq s (text "mailto") ≡ false
unfolding text_eq
web_is_no_mail [] h = refl
web_is_no_mail (c ∷ s) h = ground arith

module _ (paths : Paths) where
  -- A destination that begins with `#` is an anchor of its own file. Any other is a web link exactly
  -- when it parses with the scheme http or https in any letter case, a mail link when with mailto, and
  -- else a file. What the document says, the file and the line are kept in every case.
  pub classify_kind :
      (raw dest file dir : Text) (line : ℕ)
      → HasKind paths raw dest file line (classify paths raw dest file dir line)
  unfolding classify classify_path scheme_of
  classify_kind raw dest file dir line = elim (Option-cases (paths.parse_url dest)) [
    | inl e ↦ ground arith
    | inr (u, e) ↦ ground (arith, web_is_no_mail (to_lower u.scheme))
  ]
