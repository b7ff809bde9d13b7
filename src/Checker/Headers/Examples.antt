-- ===== src/Checker/Headers/Examples.antt =====
-- Requests to the rule's site and to another, where the whole text of a URL is its host.
use markdown_linkerator.Base.{
  ◌≡◌, ◌≢◌, refl, false, Option, none, some, [], ◌∷◌, arith, Text, text, text_eq, to_lower,
  equal_fold, lower_code, Map, lookup, remove, before_suffix,
}
use markdown_linkerator.Samples.{sample_config, sample_rule}
use markdown_linkerator.Model.Key.{Url}
use markdown_linkerator.Checker.Headers.{
  is_github_host, path_within, same_origin, rule_matches, request_headers, check_redirect,
  delete_rules, delete_keys,
}
use markdown_linkerator.Checker.Headers.Secrets.{no_authorization, redirect_strips, by_first, first}

abbrev url_of : Text → Url
url_of t = record {
  scheme = text "https";
  opaque = [];
  user = [];
  host = t;
  path = [];
  raw_path = [];
  omit_host = false;
  force_query = false;
  raw_query = [];
  fragment = [];
  raw_fragment = [];
}

abbrev parse : Text → Option Url
parse t = some (url_of t)

abbrev hostname : Url → Text
hostname u = u.host

-- Names that are canonical already.
abbrev canon : Text → Text
canon t = t

abbrev docs : Text
docs = text "https://docs.example.org/api"

abbrev evil : Text
evil = text "evil.org"

evil_matches : rule_matches parse hostname canon sample_rule evil ≡ false
unfolding rule_matches same_origin path_within equal_fold to_lower lower_code text_eq
evil_matches = refl

evil_not_github : is_github_host evil ≡ false
unfolding is_github_host to_lower lower_code text_eq before_suffix
evil_not_github = refl

agent_is_other : text "User-Agent" ≢ text "Authorization"
agent_is_other e = ground arith

no_authorization_example :
    lookup (text "Authorization") (request_headers parse hostname canon sample_config evil) ≡ none
no_authorization_example =
    no_authorization parse hostname canon sample_config evil (url_of evil) refl evil_not_github
      (evil_matches, tt) agent_is_other

abbrev sent : Map Text
sent = (text "X-Key", text "secret") ∷ (text "User-Agent", text "agent") ∷ []

abbrev kept : Map Text
kept = (text "User-Agent", text "agent") ∷ []

evil_redirect :
    check_redirect parse hostname canon sample_config 1 (url_of evil) (url_of docs) sent ≡ some kept
unfolding check_redirect same_origin equal_fold to_lower lower_code text_eq delete_rules delete_keys
    remove
evil_redirect = refl

evil_is_foreign : same_origin (url_of evil) (url_of docs) ≡ false
unfolding same_origin equal_fold to_lower lower_code text_eq
evil_is_foreign = refl

redirect_strips_example : lookup (text "X-Key") kept ≡ none
redirect_strips_example =
    redirect_strips parse hostname canon sample_config 0 (url_of evil) (url_of docs) sent kept
      (text "X-Key") evil_redirect evil_is_foreign (by_first (first refl))
