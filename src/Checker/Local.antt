-- ===== src/Checker/Local.antt =====
-- internal/checker/checker.go: the checks that take no HTTP request. os.Stat, the regular expressions,
-- url.PathUnescape, net/mail and the resolver are parameters.
pub mod Domains
pub mod Recipients
pub mod Verdicts
mod Examples
use markdown_linkerator.Base.{
  ℕ, Bool, true, false, not, ◌&&◌, ◌||◌, Option, none, some, List, [], ◌∷◌, ◌++◌, ◌==◌,
  if◌then◌else◌, or_else, leb, length, take, drop, Text, text, text_eq, equal_fold, has_prefix,
  to_lower, mem_text, split_rest, split, before_char, after_last,
}
use markdown_linkerator.Model.{Target, Result, State, zero_result}
use markdown_linkerator.Model.Key.{is_empty, trim_space}
use markdown_linkerator.Config.Resolve.{Resolved}

-- `IsIgnored`, with a pattern's MatchString.
unfoldable pub is_ignored : {R : Type 0} → (R → Text → Bool) → Text → List R → Bool
is_ignored matches url [] = false
is_ignored matches url (re ∷ res) = matches re url || is_ignored matches url res

-- A result with a synthetic status.
abbrev pub verdict : Target → State → ℕ → Text → Result
verdict t s code d = record (zero_result t) { state = s; status_code = code; detail = d }

-- `stat` gives the error's message, none for a path that exists.
unfoldable pub check_file : (Text → Option Text) → Target → Result
check_file stat t = elim (stat t.url) [
  | some e ↦ verdict t State.dead 400 e
  | none ↦ verdict t State.alive 200 []
]

-- `strings.TrimPrefix(f, "#")`: 35 is the number sign.
abbrev pub trim_hash : Text → Text
trim_hash f = if has_prefix f (35 ∷ []) then drop 1 f else f

unfoldable pub check_hash : (Text → Option Text) → Target → List Text → Result
check_hash unescape t anchors =
    let frag : Text = or_else (unescape (trim_hash t.fragment)) (trim_hash t.fragment) in
    if mem_text frag anchors || mem_text (to_lower frag) anchors
    then verdict t State.alive 200 []
    else verdict t State.dead 404 []

unfoldable pub domain_of : Text → Text
domain_of addr = or_else (after_last 64 addr) []

-- `lookup_mx` gives the MX records, none for an error.
unfoldable pub has_mx : (Text → Option (List Text)) → Text → Bool
has_mx lookup_mx domain =
    if is_empty domain
    then false
    else elim (lookup_mx domain) [ none ↦ false | some mxs ↦ not (length mxs == 0) ]

-- 63 is the question mark, 44 the comma.
unfoldable pub recipients : Text → List Text
recipients url =
    let addr =
      if leb 7 (length url) && equal_fold (take 7 url) (text "mailto:") then drop 7 url else url in
    split 44 (before_char 63 addr)

module _ (parse_address : Text → Option Text) (lookup_mx : Text → Option (List Text))
    (quote : Text → Text) where
  -- Why a recipient, already trimmed, is refused.
  unfoldable pub refusal : Bool → Text → Option Text
  refusal check_mx rcpt = elim (parse_address rcpt) [
    | none ↦ some (text "invalid address " ++ quote rcpt)
    | some address ↦
        if check_mx && not (has_mx lookup_mx (domain_of address))
        then some (text "no MX records for " ++ domain_of address)
        else none
  ]

  unfoldable pub first_refusal : Bool → List Text → Option Text
  first_refusal check_mx [] = none
  first_refusal check_mx (r ∷ rs) = elim (refusal check_mx (trim_space r)) [
    | some d ↦ some d
    | none ↦ first_refusal check_mx rs
  ]

  unfoldable pub check_mailto : {F R : Type 0} → Target → Resolved F R → Result
  check_mailto t cfg = elim (first_refusal cfg.mailto_check_mx (recipients t.url)) [
    | some d ↦ verdict t State.dead 400 d
    | none ↦ verdict t State.alive 200 []
  ]
