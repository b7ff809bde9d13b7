-- ===== src/Extract/Slug.antt =====
-- internal/extract/anchors.go: the slug of a heading and the numbering of repeated slugs. A text is its
-- list of runes here. Letter case, the classes of Unicode, the regular expression of an inline link and
-- `strconv.Itoa` are parameters.
pub mod Repeats
mod Examples
use markdown_linkerator.Base.{
  ℕ, ◌+◌, ◌-◌, Bool, true, false, ◌&&◌, ◌||◌, Option, none, some, List, [], ◌∷◌, ◌++◌, ◌==◌, leb,
  if◌then◌else◌, map, Text, Map, lookup, insert, take, drop, text,
}

pub record Runes : Type 0 where
  lower : ℕ → ℕ
  is_letter : ℕ → Bool
  is_number : ℕ → Bool

-- Where the first inline link and its text stand, `[begin, text begin, text end, end]`.
pub record LinkSpan : Type 0 where
  start : ℕ
  text_start : ℕ
  text_end : ℕ
  stop : ℕ

unfoldable pub slug_reduce_link : (Text → Option LinkSpan) → Text → Text
slug_reduce_link find_link s = elim (find_link s) [
  | none ↦ s
  | some loc ↦
      take (loc.start) s
      ++ take (loc.text_end - loc.text_start) (drop (loc.text_start) s)
      ++ drop (loc.stop) s
]

-- `\s` of Go's regular expressions.
abbrev is_regexp_space : ℕ → Bool
is_regexp_space c = c == 9 || c == 10 || c == 12 || c == 13 || c == 32

unfoldable pub drop_while : (ℕ → Bool) → Text → Text
drop_while p [] = []
drop_while p (c ∷ s) = let rest = drop_while p s in if p c then rest else c ∷ s

-- `^#+\s*`, replaced by nothing.
unfoldable pub strip_heading_mark : Text → Text
unfolding drop_while
strip_heading_mark [] = []
strip_heading_mark (c ∷ s) =
    if c == b'#' then drop_while is_regexp_space (drop_while (λ x. x == b'#') s) else c ∷ s

unfoldable pub is_slug_space : ℕ → Bool
is_slug_space c =
    c == 9
    || c == 10
    || c == 11
    || c == 12
    || c == 13
    || c == 32
    || c == 0x00a0
    || c == 0x1680
    || c == 0x2028
    || c == 0x2029
    || c == 0x202f
    || c == 0x205f
    || c == 0x3000
    || c == 0xfeff
    || (leb 0x2000 c && leb c 0x200a)

unfoldable pub slug_runes : Runes → Text → Text
unfolding is_slug_space
slug_runes runes [] = []
slug_runes runes (c ∷ s) =
    let rest = slug_runes runes s in
    if runes.is_letter c || runes.is_number c || c == b'_' || c == b'-'
    then c ∷ rest
    else if is_slug_space c
    then b'-' ∷ rest
    else rest

unfoldable pub slug : Runes → (Text → Option LinkSpan) → Text → Text
unfolding slug_reduce_link strip_heading_mark slug_runes
slug runes find_link heading =
    slug_runes runes (strip_heading_mark (map (runes.lower) (slug_reduce_link find_link heading)))

abbrev pub suffixed : (ℕ → Text) → Text → ℕ → Text
suffixed itoa section n = section ++ (b'-' ∷ itoa n)

-- The loop of `headingSlugs`, over the slugs of the lines; `seen` has a counter for every slug that was
-- given out.
unfoldable pub number_slugs : (ℕ → Text) → Map ℕ → List Text → List Text
unfolding lookup insert
number_slugs itoa seen [] = []
number_slugs itoa seen (section ∷ sections) = elim (lookup section seen) [
  | some n ↦
      let fresh = suffixed itoa section (n + 1) in
      let counted = insert section (n + 1) seen in
      fresh ∷ number_slugs itoa (insert fresh 0 counted) sections
  | none ↦ section ∷ number_slugs itoa (insert section 0 seen) sections
]

-- `headingSlugs`, from the heading lines that the regular expression finds.
unfoldable pub heading_slugs : Runes → (Text → Option LinkSpan) → (ℕ → Text) → List Text → List Text
unfolding slug number_slugs
heading_slugs runes find_link itoa lines = number_slugs itoa [] (map (slug runes find_link) lines)
