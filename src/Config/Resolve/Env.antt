-- ===== src/Config/Resolve/Env.antt =====
-- internal/config/resolve.go: `ExpandEnv`, the replacement of {{env.NAME}} by a variable's value.
use markdown_linkerator.Base.{
  ℕ, zero, suc, Bool, false, ◌&&◌, ◌||◌, Option, none, some, [], ◌∷◌, ◌++◌, length, leb, ◌==◌,
  if◌then◌else◌, Text, text,
}

abbrev pub is_name_start : ℕ → Bool
is_name_start c = (leb b'A' c && leb c b'Z') || ((leb b'a' c && leb c b'z') || c == b'_')

abbrev pub is_name_code : ℕ → Bool
is_name_code c = is_name_start c || (leb b'0' c && leb c b'9')

-- What stands behind a prefix.
unfoldable pub after_prefix : Text → Text → Option Text
after_prefix s [] = some s
after_prefix [] (p ∷ ps) = none
after_prefix (c ∷ s) (p ∷ ps) = if c == p then after_prefix s ps else none

-- The longest run of name characters, and what follows it.
unfoldable pub split_name : Text → Text × Text
split_name [] = ([], [])
split_name (c ∷ s) =
    let rest = split_name s in if is_name_code c then (c ∷ rest.0, rest.1) else ([], c ∷ s)

starts_name : Text → Bool
starts_name [] = false
starts_name (c ∷ s) = is_name_start c

-- A token at the front of the text: its name, and what follows the token.
unfoldable pub env_token : Text → Option (Text × Text)
unfolding after_prefix split_name starts_name
env_token s = elim (after_prefix s (text "{{env.")) [
  | none ↦ none
  | some r ↦
      if starts_name r
      then elim (after_prefix (split_name r).1 (text "}}")) [
        | none ↦ none
        | some behind ↦ some ((split_name r).0, behind)
      ]
      else none
]

module _ (getenv : Text → Text) where
  -- Leftmost matches first, none inside another. Each round drops a character, so the length of
  -- the text is fuel enough.
  expand_env_on : ℕ → Text → Text
  unfolding env_token
  expand_env_on zero s = s
  expand_env_on (suc fuel) [] = []
  expand_env_on (suc fuel) (c ∷ s) = elim (env_token (c ∷ s)) [
    | none ↦ c ∷ expand_env_on fuel s
    | some (name, behind) ↦ getenv name ++ expand_env_on fuel behind
  ]

  unfoldable pub expand_env : Text → Text
  unfolding expand_env_on
  expand_env s = expand_env_on (length s) s
