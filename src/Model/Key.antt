-- ===== src/Model/Key.antt =====
-- internal/model/model.go: `NormalizeKey` and `stripDefaultPort`. url.Parse and URL.String are the
-- parameters `parse` and `render`.
mod Examples
use mathlib.Core.List.{reverse}
use markdown_linkerator.Base.{
  ℕ, ◌+◌, ◌≡◌, ◌≢◌, refl, sym, ◌∙◌, ap, ◌⊎◌, inl, inr, Bool, true, false, ◌&&◌, ◌||◌, not, Option,
  none, some, List, [], ◌∷◌, ◌++◌, arith, ◌==◌, leb, if◌then◌else◌, Text, text, text_eq,
  text_eq_iff, to_lower, to_lower_idem, has_suffix, trim_suffix, before_suffix,
  before_suffix-append, length, length-append, Bool-cases, Option-cases,
}

-- The fields of url.URL, which URL.String reads.
pub record Url : Type 0 where
  pub scheme : Text
  pub opaque : Text
  pub user : Text
  pub host : Text
  pub path : Text
  pub raw_path : Text
  pub omit_host : Bool
  pub force_query : Bool
  pub raw_query : Text
  pub fragment : Text
  pub raw_fragment : Text

abbrev pub is_space : ℕ → Bool
is_space c = c == 32 || (leb 9 c && leb c 13)

unfoldable pub trim_left_space : Text → Text
trim_left_space [] = []
trim_left_space (c ∷ s) = if is_space c then trim_left_space s else c ∷ s

-- strings.TrimSpace, for ASCII white space.
unfoldable pub trim_space : Text → Text
unfolding trim_left_space
trim_space s = reverse (trim_left_space (reverse (trim_left_space s)))

abbrev pub is_empty : Text → Bool
is_empty [] = true
is_empty (_ ∷ _) = false

unfoldable pub strip_default_port : Text → Text → Text
unfolding before_suffix
strip_default_port scheme host =
    if text_eq scheme (text "http") && has_suffix host (text ":80")
    then trim_suffix host (text ":80")
    else if text_eq scheme (text "https") && has_suffix host (text ":443")
    then trim_suffix host (text ":443")
    else host

-- The changes that `NormalizeKey` makes to the parsed URL.
unfoldable pub normalize_url : Url → Url
unfolding strip_default_port
normalize_url u =
    let scheme = to_lower u.scheme in
    let host = to_lower u.host in
    let stripped = strip_default_port scheme host in
    record u {
      scheme = scheme;
      host = if is_empty stripped then host else stripped;
      fragment = [];
      raw_fragment = [];
    }

module _ (parse : Text → Option Url) (render : Url → Text) where
  unfoldable pub normalize_key : Text → Text
  unfolding trim_space normalize_url
  normalize_key raw = elim (parse (trim_space raw)) [
    | none ↦ trim_space raw
    | some u ↦ if is_empty u.scheme then trim_space raw else render (normalize_url u)
  ]

-- The host `b` is the host `h` of a scheme without the scheme's default port, where it has that port.
pub data Bare (scheme : Text) : Text → Text → Type 0 where
  http_port : {b : Text} → scheme ≡ text "http" → b ≢ [] → Bare scheme (b ++ text ":80") b
  https_port : {b : Text} → scheme ≡ text "https" → b ≢ [] → Bare scheme (b ++ text ":443") b
  no_port :
      {h : Text}
      → ((b : Text) → scheme ≡ text "http" → b ≢ [] → h ≢ b ++ text ":80")
      → ((b : Text) → scheme ≡ text "https" → b ≢ [] → h ≢ b ++ text ":443")
      → Bare scheme h h

-- Two URLs address one resource: they differ at most in the case of scheme and host, in the default port,
-- and in the fragment.
pub record SameResource (u v : Url) : Type 0 where
  pub bare : Text
  pub scheme : to_lower u.scheme ≡ to_lower v.scheme
  pub host : Bare (to_lower u.scheme) (to_lower u.host) bare
  pub other_host : Bare (to_lower v.scheme) (to_lower v.host) bare
  pub opaque : u.opaque ≡ v.opaque
  pub user : u.user ≡ v.user
  pub path : u.path ≡ v.path
  pub raw_path : u.raw_path ≡ v.raw_path
  pub omit_host : u.omit_host ≡ v.omit_host
  pub force_query : u.force_query ≡ v.force_query
  pub raw_query : u.raw_query ≡ v.raw_query

is_empty_of_ne : (s : Text) → s ≢ [] → is_empty s ≡ false
is_empty_of_ne [] h = absurd (h refl)
is_empty_of_ne (c ∷ s) h = refl

is_empty-to_lower : (s : Text) → is_empty (to_lower s) ≡ is_empty s
unfolding to_lower
is_empty-to_lower [] = refl
is_empty-to_lower (c ∷ s) = refl

nil_of_empty : (s : Text) → is_empty s ≡ true → s ≡ []
nil_of_empty [] e = refl
nil_of_empty (c ∷ s) e = absurd (ground arith)

longer : (b s : Text) (c : ℕ) → text_eq (c ∷ (b ++ s)) s ≡ false
longer b s c = elim (Bool-cases (text_eq (c ∷ (b ++ s)) s)) [
  | inl e ↦
      absurd (omega (arith, ap length ((text_eq_iff (c ∷ (b ++ s)) s).0 e), length-append b s))
  | inr e ↦ e
]

pub before_suffix-add : (b s : Text) (d : ℕ) → before_suffix (b ++ (d ∷ s)) (d ∷ s) ≡ some b
unfolding before_suffix
before_suffix-add [] s d = ground (arith, text_eq_iff (d ∷ s) (d ∷ s))
before_suffix-add (c ∷ b) s d = ground (arith, longer b (d ∷ s) c, before_suffix-add b s d)

-- A host without the port is left as it is, unless nothing would stay of it.
kept_host :
    (scheme name h port : Text)
    → ((b : Text) → scheme ≡ name → b ≢ [] → h ≢ b ++ port)
    → ((text_eq scheme name && has_suffix h port) ≡ false) ⊎ (trim_suffix h port ≡ [])
kept_host scheme name h port none_of = elim (Option-cases (before_suffix h port)) [
  | inl e ↦ inl (ground arith)
  | inr ([], e) ↦ inr (ground arith)
  | inr (c ∷ b, e) ↦ elim (Bool-cases (text_eq scheme name)) [
    | inl n ↦ absurd (
        none_of (c ∷ b) ((text_eq_iff scheme name).0 n) (λ x. ground arith)
          (before_suffix-append h port (c ∷ b) e))
    | inr n ↦ inl (ground arith)
  ]
]

host-Bare :
    (scheme h b : Text)
    → Bare scheme h b
    → (if is_empty (strip_default_port scheme h) then h else strip_default_port scheme h) ≡ b
unfolding strip_default_port text_eq
host-Bare scheme _ b (http_port e ne) =
    rw e (ground (arith, before_suffix-add b (text "80") b':', is_empty_of_ne b ne))
host-Bare scheme _ b (https_port e ne) =
    rw e (ground (arith, before_suffix-add b (text "443") b':', is_empty_of_ne b ne))
host-Bare scheme h _ (no_port no_80 no_443) =
    elim (kept_host scheme (text "http") h (text ":80") no_80) [
      | inl x ↦ elim (kept_host scheme (text "https") h (text ":443") no_443) [
        | inl y ↦ ground arith
        | inr y ↦ ground arith
      ]
      | inr x ↦ elim (kept_host scheme (text "https") h (text ":443") no_443) [
        | inl y ↦ ground arith
        | inr y ↦ ground arith
      ]
    ]

-- The URL that stands for a resource.
abbrev pub canonical : Url → Text → Url
canonical u bare = record u {
  scheme = to_lower u.scheme;
  host = bare;
  fragment = [];
  raw_fragment = [];
}

same_canonical : (u v : Url) (s : SameResource u v) → canonical v s.bare ≡ canonical u s.bare
same_canonical u v s =
    cc (s.scheme, s.opaque, s.user, s.path, s.raw_path, s.omit_host, s.force_query, s.raw_query)

module _ (parse : Text → Option Url) (render : Url → Text) where
  normalize_key-canonical :
      (a bare : Text) (u : Url)
      → parse (trim_space a) ≡ some u
      → u.scheme ≢ []
      → Bare (to_lower u.scheme) (to_lower u.host) bare
      → normalize_key parse render a ≡ render (canonical u bare)
  unfolding normalize_key normalize_url
  normalize_key-canonical a bare u p ne b =
      ground
        (arith, is_empty_of_ne u.scheme ne, host-Bare (to_lower u.scheme) (to_lower u.host) bare b)

  -- Links that parse, with a scheme, to the same resource share one key, so one check serves them all:
  -- the text of the URL with scheme and host in lower case, without the default port of http or https
  -- that follows a name, and without the fragment, and all else as it was parsed.
  pub normalize_key-eq :
      (a b : Text) (u v : Url)
      → parse (trim_space a) ≡ some u
      → parse (trim_space b) ≡ some v
      → u.scheme ≢ []
      → (s : SameResource u v)
      → (normalize_key parse render a ≡ render (canonical u s.bare))
        × (normalize_key parse render b ≡ render (canonical u s.bare))
  normalize_key-eq a b u v p q ne s =
      let other : v.scheme ≢ [] = λ e. ne (
        nil_of_empty u.scheme (
          sym (is_empty-to_lower u.scheme)
          ∙ ap (λ t. is_empty t) s.scheme
          ∙ is_empty-to_lower v.scheme
          ∙ ap (λ t. is_empty t) e)) in
      (
        normalize_key-canonical a s.bare u p ne s.host,
        normalize_key-canonical b s.bare v q other s.other_host ∙ ap render (same_canonical u v s),
      )
