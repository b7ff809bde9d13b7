-- ===== src/Config/Fingerprint.antt =====
-- internal/config/resolve.go: `CacheFingerprint`. SHA-256, in hexadecimal digits, and strconv.Itoa are
-- parameters.
use mathlib.Core.List.{append_assoc}
use markdown_linkerator.Base.{
  ◌≡◌, refl, Bool, true, false, not, List, [], ◌∷◌, ◌++◌, map, or_else, take, Text, text, text_lt,
  Map, lookup, sort_stable, ℤ, ltb_ℤ,
}
use markdown_linkerator.Model.Key.{is_empty}
use markdown_linkerator.Config.{HeaderRule}
use markdown_linkerator.Config.Resolve.{Resolved}

unfoldable pub join_words : List Text → Text
join_words [] = []
join_words (w ∷ []) = w
join_words (w ∷ v ∷ ws) = w ++ (32 ∷ join_words (v ∷ ws))

-- `%v` of a slice.
abbrev pub bracketed : List Text → Text
bracketed ws = (b'[' ∷ join_words ws) ++ text "]"

abbrev pub bool_text : Bool → Text
bool_text true = text "true"
bool_text false = text "false"

unfoldable pub header_texts : Map Text → List Text → Text
unfolding lookup
header_texts headers [] = []
header_texts headers (k ∷ ks) =
    (k ++ (text "=" ++ (or_else (lookup k headers) [] ++ text ";"))) ++ header_texts headers ks

abbrev pub keys_of : Map Text → List Text
keys_of m = map (λ (b : Text × Text). b.0) m

unfoldable pub rule_texts : List HeaderRule → Text
unfolding header_texts join_words sort_stable
rule_texts [] = []
rule_texts (rule ∷ rules) =
    (text "hdr"
      ++ (bracketed (sort_stable text_lt rule.urls)
          ++ (text ":" ++ header_texts rule.headers (sort_stable text_lt (keys_of rule.headers)))))
    ++ rule_texts rules

abbrev code_texts : (ℤ → Text) → List ℤ → Text
code_texts itoa codes = bracketed (map itoa (sort_stable ltb_ℤ codes))

module _ (itoa : ℤ → Text) {F R : Type 0} where
  -- What the digest is taken of.
  unfoldable pub policy_text : Resolved F R → Text
  unfolding rule_texts join_words sort_stable
  policy_text r =
      (text "alive=" ++ (code_texts itoa r.alive_status_codes ++ text ";ua="))
      ++ ((r.user_agent ++ (text ";base=" ++ r.project_base_url))
          ++ (text ";redir="
              ++ (itoa r.max_redirects
                  ++ (text ";mx="
                      ++ (bool_text r.mailto_check_mx
                          ++ (text ";gh="
                              ++ (bool_text (not (is_empty r.github_token))
                                  ++ (text ";" ++ rule_texts r.http_headers))))))))

  unfoldable pub cache_fingerprint : (Text → Text) → Resolved F R → Text
  unfolding policy_text take
  cache_fingerprint digest r = take 16 (digest (policy_text r))

  -- Only whether a token is set goes into the fingerprint: a cache survives a change of the token.
  pub cache_fingerprint_token :
      (digest : Text → Text) (r : Resolved F R) (token : Text)
      → is_empty token ≡ is_empty r.github_token
      → cache_fingerprint digest (record r { github_token = token }) ≡ cache_fingerprint digest r
  unfolding cache_fingerprint policy_text
  cache_fingerprint_token digest r token e = rw e refl

  -- The fields are not set apart: a user agent that holds `;base=` and another base URL give the
  -- fingerprint of a shorter user agent with a longer base URL.
  pub cache_fingerprint_same :
      (digest : Text → Text) (r : Resolved F R) (agent middle base : Text)
      → cache_fingerprint digest
          (record r { user_agent = agent ++ (text ";base=" ++ middle); project_base_url = base })
        ≡ cache_fingerprint digest
            (record r { user_agent = agent; project_base_url = middle ++ (text ";base=" ++ base) })
  unfolding cache_fingerprint policy_text
  cache_fingerprint_same digest r agent middle base =
      let same : (agent ++ (text ";base=" ++ middle)) ++ (text ";base=" ++ base)
          ≡ agent ++ (text ";base=" ++ (middle ++ (text ";base=" ++ base))) =
        append_assoc agent (text ";base=" ++ middle) (text ";base=" ++ base) in
      rw same refl
