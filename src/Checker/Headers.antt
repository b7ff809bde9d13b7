-- ===== src/Checker/Headers.antt =====
-- internal/checker/http.go: which headers a request carries, and which a redirect loses. url.Parse
-- is the parameter `parse`, Hostname is `hostname`, and `canon` is the canonical form of a header's
-- name; the network's own redirect handling is left to net/http.
pub mod Secrets
mod Examples
use markdown_linkerator.Base.{
  ℕ, zero, suc, Bool, true, false, not, ◌&&◌, ◌||◌, Option, none, some, List, [], ◌∷◌, ◌++◌, leb,
  length, if◌then◌else◌, or_else, Text, text, text_eq, to_lower, equal_fold, has_prefix, has_suffix,
  trim_suffix, Map, lookup, insert, remove, ℤ, pos, leb_ℤ,
}
use markdown_linkerator.Model.Key.{Url, is_empty}
use markdown_linkerator.Config.{HeaderRule}
use markdown_linkerator.Config.Resolve.{Resolved}

unfoldable pub is_github_host : Text → Bool
is_github_host h =
    let host = to_lower h in
    text_eq host (text "github.com")
    || (has_suffix host (text ".github.com")
        || (text_eq host (text "githubusercontent.com")
            || has_suffix host (text ".githubusercontent.com")))

-- 47 is the slash.
unfoldable pub path_within : Text → Text → Bool
path_within p prefix =
    if is_empty prefix || text_eq prefix (text "/")
    then true
    else let base = trim_suffix prefix (text "/") in
      text_eq p base || has_prefix p (base ++ (47 ∷ []))

unfoldable pub same_origin : Url → Url → Bool
same_origin a b = equal_fold a.scheme b.scheme && equal_fold a.host b.host

module _ (parse : Text → Option Url) (hostname : Url → Text) (canon : Text → Text) where
  -- One URL of a rule, against the parsed target.
  url_matches : Text → Url → Bool
  url_matches u target = if is_empty u then false else elim (parse u) [
    | none ↦ false
    | some ru ↦ same_origin ru target && path_within target.path ru.path
  ]

  any_url_matches : List Text → Url → Bool
  unfolding url_matches
  any_url_matches [] target = false
  any_url_matches (u ∷ us) target = url_matches u target || any_url_matches us target

  unfoldable pub rule_matches : HeaderRule → Text → Bool
  unfolding any_url_matches
  rule_matches rule target = elim (parse target) [
    | none ↦ false
    | some tu ↦ any_url_matches rule.urls tu
  ]

  -- `req.Header.Set` for each entry of a rule.
  unfoldable pub set_all : Map Text → Map Text → Map Text
  set_all [] h = h
  set_all ((k, v) ∷ m) h = set_all m (insert (canon k) v h)

  -- The first rule that matches wins.
  unfoldable pub apply_rules : List HeaderRule → Text → Map Text → Map Text
  apply_rules [] url h = h
  apply_rules (r ∷ rs) url h =
      if rule_matches r url then set_all r.headers h else apply_rules rs url h

  abbrev pub header : Text → Map Text → Text
  header name h = or_else (lookup (canon name) h) []

  -- The token goes to a GitHub host that has no Authorization yet.
  unfoldable pub authorize : Text → Text → Map Text → Map Text
  authorize token url h =
      if not (is_empty token) && is_empty (header (text "Authorization") h)
      then elim (parse url) [
        | none ↦ h
        | some u ↦
            if is_github_host (hostname u)
            then insert (canon (text "Authorization")) (text "Bearer " ++ token) h
            else h
      ]
      else h

  module _ {F R : Type 0} (cfg : Resolved F R) where
    -- The headers that `do` gives a request.
    unfoldable pub request_headers : Text → Map Text
    request_headers url =
        let h : Map Text =
          if is_empty cfg.user_agent
          then []
          else insert (canon (text "User-Agent")) cfg.user_agent [] in
        authorize cfg.github_token url (apply_rules cfg.http_headers url h)

    unfoldable pub delete_keys : Map Text → Map Text → Map Text
    delete_keys [] h = h
    delete_keys ((k, v) ∷ m) h = delete_keys m (remove (canon k) h)

    unfoldable pub delete_rules : List HeaderRule → Map Text → Map Text
    unfolding delete_keys
    delete_rules [] h = h
    delete_rules (r ∷ rs) h = delete_rules rs (delete_keys r.headers h)

    -- `checkRedirect`, on the number of requests made, the next URL, the first URL and the headers;
    -- `none` is the redirect cap.
    unfoldable pub check_redirect : ℕ → Url → Url → Map Text → Option (Map Text)
    unfolding delete_rules
    check_redirect via next_url first_url h =
        if leb_ℤ cfg.max_redirects (pos via)
        then none
        else if leb 1 via && not (same_origin next_url first_url)
        then some (delete_rules cfg.http_headers h)
        else some h
