-- ===== src/Extract/Targets.antt =====
-- internal/extract/extract.go: `transform`, `classify`, `resolvePath`, `fileURLPath`, `projectBaseURL`
-- and `lineAt`; internal/config/resolve.go: `ExpandBaseURL`. net/url, path/filepath, os.Getwd and the
-- compiled patterns are parameters.
pub mod Walk
pub mod Kinds
pub mod Places
pub mod Firsts
pub mod Lines
mod Examples
use markdown_linkerator.Base.{
  ℕ, zero, suc, ◌+◌, Bool, true, false, ◌||◌, Option, none, some, List, [], ◌∷◌, ◌++◌, ◌==◌, ltb,
  if◌then◌else◌, length, count, take, drop, Text, text, text_eq, has_prefix, to_lower, replace_all,
  index_char, ℤ, pos_part,
}
use markdown_linkerator.Model.{Kind, Target}
use markdown_linkerator.Model.Kind.{http, file_rel, hash_local, mailto}
use markdown_linkerator.Model.Key.{Url, is_empty}
use markdown_linkerator.Config.Resolve.{CompiledReplacement}

-- `none` stands for the error of `url.PathUnescape` and of `filepath.Abs`.
pub record Paths : Type 0 where
  pub parse_url : Text → Option Url
  pub path_unescape : Text → Option Text
  pub is_abs : Text → Bool
  pub clean : Text → Text
  pub join : Text → Text → Text
  pub abs : Text → Option Text

unfoldable pub expand_base_url : Text → Text → Text
expand_base_url s base_url = replace_all (text "{{BASEURL}}") base_url s

unfoldable pub project_base_url : Text → Option Text → Text
project_base_url configured cwd =
    if is_empty configured
    then elim cwd [ some dir ↦ text "file://" ++ dir | none ↦ [] ]
    else configured

-- `replace re s with` is `re.ReplaceAllString(s, with)`.
unfoldable pub transform :
    {R : Type 0} → (R → Text → Text → Text) → List (CompiledReplacement R) → Text → Text → Text
unfolding expand_base_url
transform replace [] base_url dest = dest
transform replace (cr ∷ crs) base_url dest =
    transform replace crs base_url
      (replace (cr.re) dest (expand_base_url (cr.replacement) base_url))

unfoldable pub file_url_path : Url → Text
file_url_path u = if is_empty u.path then u.opaque else u.path

-- The offset is clamped to the text, and lines count from 1.
unfoldable pub line_at : Text → ℤ → ℕ
unfolding take
line_at src off =
    let from_start = pos_part off in
    let clamped = if ltb (length src) from_start then length src else from_start in
    1 + count (λ c. c == 10) (take clamped src)

-- What stands before and behind the first `#`.
unfoldable pub cut_fragment : Text → Text × Text
unfolding index_char take drop
cut_fragment dest = elim (index_char b'#' dest) [
  | some i ↦ (take i dest, drop (suc i) dest)
  | none ↦ (dest, [])
]

module _ (paths : Paths) where
  unfoldable pub resolve_path : Text → Text → Text
  resolve_path source_dir path_part =
      let p =
        if paths.is_abs path_part then paths.clean path_part else paths.join source_dir path_part in
      elim (paths.abs p) [ some a ↦ a | none ↦ p ]

  -- The name of a file as `resolvePath` gets it: decoded where it can be.
  unfoldable pub decoded : Text → Text
  decoded path_part = elim (paths.path_unescape path_part) [ some d ↦ d | none ↦ path_part ]

  -- The target of a link without a scheme that `classify` knows.
  unfoldable pub classify_path : Target → Text → Text → Target
  unfolding resolve_path cut_fragment decoded
  classify_path t source_dir dest =
      let cut = cut_fragment dest in
      record t { kind = file_rel; fragment = cut.1; url = resolve_path source_dir (decoded cut.0) }

  unfoldable pub classify : Text → Text → Text → Text → ℕ → Target
  unfolding classify_path file_url_path has_prefix to_lower text_eq drop
  classify raw_dest dest source_file source_dir line =
      let t : Target = record {
        raw = raw_dest;
        url = [];
        kind = http;
        source_file = source_file;
        line = line;
        fragment = [];
      } in
      if has_prefix dest (text "#")
      then record t { kind = hash_local; url = dest; fragment = drop 1 dest }
      else elim (paths.parse_url dest) [
        | none ↦ classify_path t source_dir dest
        | some u ↦
            let scheme = to_lower u.scheme in
            if text_eq scheme (text "http") || text_eq scheme (text "https")
            then record t { kind = http; url = dest }
            else if text_eq scheme (text "mailto")
            then record t { kind = mailto; url = dest }
            else if text_eq scheme (text "file")
            then record t { kind = file_rel; url = file_url_path u; fragment = u.fragment }
            else classify_path t source_dir dest
      ]
