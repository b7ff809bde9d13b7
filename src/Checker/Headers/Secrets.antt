-- ===== src/Checker/Headers/Secrets.antt =====
-- internal/checker/http.go: who gets to see the custom headers and the GitHub token.
use markdown_linkerator.Base.{
  ℕ, suc, ◌≡◌, ◌≢◌, ◌↔◌, refl, inl, inr, true, false, Option, none, some, List, [], ◌∷◌, arith,
  if◌then◌else◌, All, Text, text, text_eq_iff, Map, lookup, insert, remove, lookup-insert,
  lookup-remove, pos, Bool-cases, Option-cases, equal_fold, ◌≤ℤ◌,
}
use markdown_linkerator.Model.Key.{Url, is_empty}
use markdown_linkerator.Config.{HeaderRule}
use markdown_linkerator.Config.Resolve.{Resolved}
use markdown_linkerator.Checker.Headers.{
  is_github_host, path_within, same_origin, url_matches, any_url_matches, rule_matches, apply_rules,
  authorize, request_headers, delete_keys, delete_rules, check_redirect,
}

module _ (parse : Text → Option Url) (hostname : Url → Text) (canon : Text → Text) where
  -- A URL of the rule that has the target's scheme and host, in any letter case, and whose path the
  -- target's path lies at or under.
  pub data Covers (target : Url) : List Text → Type 0 where
    here :
        {u : Text} {us : List Text} (ru : Url)
        → parse u ≡ some ru
        → equal_fold ru.scheme target.scheme ≡ true
        → equal_fold ru.host target.host ≡ true
        → path_within target.path ru.path ≡ true
        → Covers target (u ∷ us)
    there : {u : Text} {us : List Text} → Covers target us → Covers target (u ∷ us)

  Covers-of_match :
      (us : List Text) (target : Url)
      → any_url_matches parse hostname canon us target ≡ true
      → Covers target us
  unfolding any_url_matches same_origin
  Covers-of_match [] target e = cc
  Covers-of_match (u ∷ us) target e =
      elim (Bool-cases (url_matches parse hostname canon u target)) [
        | inl m ↦ elim (Option-cases (parse u)) [
          | inl n ↦ absurd (ground arith)
          | inr (ru, n) ↦ here ru n (ground arith) (ground arith) (ground arith)
        ]
        | inr m ↦ there (Covers-of_match us target (ground arith))
      ]

  -- A header rule applies only to a target that parses and that one of the rule's URLs covers: a
  -- look-alike host or a path beside the rule's path gets none of its headers.
  pub rule_matches-Covers :
      (rule : HeaderRule) (target : Text)
      → rule_matches parse hostname canon rule target ≡ true
      → (tu : Url) × (parse target ≡ some tu) × Covers tu rule.urls
  unfolding rule_matches
  rule_matches-Covers rule target e = elim (Option-cases (parse target)) [
    | inl n ↦ absurd (ground arith)
    | inr (tu, n) ↦ (tu, n, Covers-of_match rule.urls tu (ground arith))
  ]

  apply_rules_unmatched :
      (rules : List HeaderRule) (url : Text) (h : Map Text)
      → All (λ r. rule_matches parse hostname canon r url ≡ false) rules
      → apply_rules parse hostname canon rules url h ≡ h
  unfolding apply_rules
  apply_rules_unmatched [] url h a = refl
  apply_rules_unmatched (r ∷ rs) url h a = ground (arith, apply_rules_unmatched rs url h a.1, a.0)

  -- A host that is not GitHub's gets no token.
  authorize_elsewhere :
      (token url : Text) (u : Url) (h : Map Text)
      → parse url ≡ some u
      → is_github_host (hostname u) ≡ false
      → authorize parse hostname canon token url h ≡ h
  unfolding authorize
  authorize_elsewhere token url u h p g = ground arith

  abbrev agent_header : Text → Map Text
  agent_header agent = if is_empty agent then [] else insert (canon (text "User-Agent")) agent []

  -- The User-Agent is no other header.
  initial_headers :
      (name agent : Text)
      → canon (text "User-Agent") ≢ name
      → lookup name (agent_header agent) ≡ none
  unfolding lookup
  initial_headers name agent ne = ground (
    arith,
    lookup-insert (canon (text "User-Agent")) name agent [],
    text_eq_iff (canon (text "User-Agent")) name,
  )

  -- A rule's headers, or those of one of the rules, name this canonical name.
  pub data Named (name : Text) : Map Text → Type 0 where
    first : {k v : Text} {m : Map Text} → canon k ≡ name → Named name ((k, v) ∷ m)
    later : {b : Text × Text} {m : Map Text} → Named name m → Named name (b ∷ m)

  pub data SetBy (name : Text) : List HeaderRule → Type 0 where
    by_first : {r : HeaderRule} {rs : List HeaderRule} → Named name r.headers → SetBy name (r ∷ rs)
    by_later : {r : HeaderRule} {rs : List HeaderRule} → SetBy name rs → SetBy name (r ∷ rs)

  module _ {F R : Type 0} (cfg : Resolved F R) where
    -- A request to a host that is not GitHub's, and that no header rule matches, carries no
    -- Authorization, whatever token is set, when the canonical names of User-Agent and Authorization
    -- differ.
    pub no_authorization :
        (url : Text) (u : Url)
        → parse url ≡ some u
        → is_github_host (hostname u) ≡ false
        → All (λ r. rule_matches parse hostname canon r url ≡ false) cfg.http_headers
        → canon (text "User-Agent") ≢ canon (text "Authorization")
        → lookup (canon (text "Authorization")) (request_headers parse hostname canon cfg url)
          ≡ none
    unfolding request_headers
    no_authorization url u p g a ne = ground (
      arith,
      apply_rules_unmatched cfg.http_headers url (agent_header cfg.user_agent) a,
      authorize_elsewhere cfg.github_token url u (agent_header cfg.user_agent) p g,
      initial_headers (canon (text "Authorization")) cfg.user_agent ne,
    )

    delete_keys-keeps :
        (name : Text) (m h : Map Text)
        → lookup name h ≡ none
        → lookup name (delete_keys parse hostname canon cfg m h) ≡ none
    unfolding delete_keys
    delete_keys-keeps name [] h e = e
    delete_keys-keeps name ((k, v) ∷ m) h e =
        delete_keys-keeps name m (remove (canon k) h)
          (ground (arith, lookup-remove (canon k) name h))

    delete_rules-keeps :
        (name : Text) (rs : List HeaderRule) (h : Map Text)
        → lookup name h ≡ none
        → lookup name (delete_rules parse hostname canon cfg rs h) ≡ none
    unfolding delete_rules
    delete_rules-keeps name [] h e = e
    delete_rules-keeps name (r ∷ rs) h e =
        delete_rules-keeps name rs _ (delete_keys-keeps name r.headers h e)

    delete_keys-Named :
        (name : Text) (m h : Map Text)
        → Named name m
        → lookup name (delete_keys parse hostname canon cfg m h) ≡ none
    unfolding delete_keys
    delete_keys-Named name [] h n = elim n [ ]
    delete_keys-Named name ((k, v) ∷ m) h (first e) =
        delete_keys-keeps name m (remove (canon k) h)
          (ground (arith, lookup-remove (canon k) name h, text_eq_iff (canon k) name))
    delete_keys-Named name ((k, v) ∷ m) h (later n) =
        delete_keys-Named name m (remove (canon k) h) n

    delete_rules-SetBy :
        (name : Text) (rs : List HeaderRule) (h : Map Text)
        → SetBy name rs
        → lookup name (delete_rules parse hostname canon cfg rs h) ≡ none
    unfolding delete_rules
    delete_rules-SetBy name [] h n = elim n [ ]
    delete_rules-SetBy name (r ∷ rs) h (by_first n) =
        delete_rules-keeps name rs _ (delete_keys-Named name r.headers h n)
    delete_rules-SetBy name (r ∷ rs) h (by_later s) = delete_rules-SetBy name rs _ s

    -- A redirect that is followed to another scheme or host, after a first request, carries none of
    -- the headers that a header rule names.
    pub redirect_strips :
        (via : ℕ) (next_url first_url : Url) (h kept : Map Text) (name : Text)
        → check_redirect parse hostname canon cfg (suc via) next_url first_url h ≡ some kept
        → same_origin next_url first_url ≡ false
        → SetBy name cfg.http_headers
        → lookup name kept ≡ none
    unfolding check_redirect
    redirect_strips via next_url first_url h kept name e o s =
        ground (arith, delete_rules-SetBy name cfg.http_headers h s)

    -- A redirect is followed exactly while the requests made are fewer than max_redirects.
    pub redirect_cap :
        (via : ℕ) (next_url first_url : Url) (h : Map Text)
        → check_redirect parse hostname canon cfg via next_url first_url h ≡ none
          ↔ (cfg.max_redirects ≤ℤ pos via)
    unfolding check_redirect
    redirect_cap via next_url first_url h = ground arith
