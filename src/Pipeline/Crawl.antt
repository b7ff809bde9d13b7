-- ===== src/Pipeline/Crawl.antt =====
-- internal/pipeline/crawl.go: from the inputs of the command line to the sources of a run. A folder is
-- its tree; filepath's functions are parameters. The sources are sent in order: `room` is how many the
-- channel takes before the context is cancelled, `none` where it never is.
pub mod Folders
mod Examples
use mathlib.Core.List.{reverse}
use markdown_linkerator.Base.{
  ℕ, zero, suc, Bool, true, false, ◌&&◌, ◌||◌, Option, none, some, List, [], ◌∷◌, ◌++◌, ◌==◌,
  if◌then◌else◌, Text, text, text_eq, mem_text, has_prefix, has_char,
}
use markdown_linkerator.Model.Key.{is_empty}
use markdown_linkerator.Pipeline.Handle.{is_markdown}

pub record SrcItem : Type 0 where
  pub path : Text
  pub url : Text
  pub stdin : Bool

pub data CrawlError : Type 0 where
  context_done : CrawlError
  walk_failed : CrawlError
  bad_pattern : CrawlError
  no_such_input : Text → CrawlError

-- What was sent so far, how much room is left, and the error that ended the crawl.
pub record Crawl : Type 0 where
  pub sent : List SrcItem
  pub room : Option ℕ
  pub stop : Option CrawlError

mutual
  -- A file or a folder by its name; a folder that cannot be read gives an error to the walk.
  pub data Tree : Type 0 where
    file : Text → Tree
    folder : Text → Trees → Tree
    unreadable : Text → Tree

  pub data Trees : Type 0 where
    no_trees : Trees
    more : Tree → Trees → Trees

abbrev pub skip_dirs : List Text
skip_dirs = text ".git" ∷ text "node_modules" ∷ text "vendor" ∷ []

abbrev pub name_of : Tree → Text
name_of (file name) = name
name_of (folder name ts) = name
name_of (unreadable name) = name

-- A call of a walk's function on a file, with its path and name, or on an error.
pub data Visit : Type 0 where
  at_file : Text → Text → Visit
  at_error : Visit

unfoldable mutual
  unfolding mem_text

  -- `filepath.WalkDir` with a function that skips the folders named in `skipDirs`.
  pub visits : (Text → Text → Text) → Text → Tree → List Visit
  visits join path (file name) = at_file path name ∷ []
  visits join path (folder name ts) =
      let inside = visits_all join path ts in if mem_text name skip_dirs then [] else inside
  visits join path (unreadable name) = if mem_text name skip_dirs then [] else at_error ∷ []

  pub visits_all : (Text → Text → Text) → Text → Trees → List Visit
  visits_all join path no_trees = []
  visits_all join path (more t ts) =
      visits join (join path (name_of t)) t ++ visits_all join path ts

unfoldable pub is_url : Text → Bool
unfolding has_prefix
is_url s = has_prefix s (text "http://") || has_prefix s (text "https://")

abbrev pub halt : CrawlError → Crawl → Crawl
halt e c = record c { stop = some e }

-- `send`; nothing happens any more once the crawl has ended.
unfoldable pub send_item : Crawl → SrcItem → Crawl
send_item c item = elim (c.stop) [
  | some e ↦ c
  | none ↦ elim (c.room) [
    | none ↦ record c { sent = c.sent ++ (item ∷ []) }
    | some zero ↦ halt context_done c
    | some (suc n) ↦ record c { sent = c.sent ++ (item ∷ []); room = some n }
  ]
]

abbrev pub file_item : Text → SrcItem
file_item path = record { path = path; url = []; stdin = false }

unfoldable pub send_files : Crawl → List Text → Crawl
unfolding send_item
send_files c [] = c
send_files c (p ∷ ps) = send_files (send_item c (file_item p)) ps

-- The first error ends the crawl.
unfoldable pub end_with : CrawlError → Crawl → Crawl
end_with e c = elim (c.stop) [ some _ ↦ c | none ↦ halt e c ]

unfoldable pub walk_visits : Crawl → List Visit → Crawl
unfolding send_item end_with is_markdown
walk_visits c [] = c
walk_visits c (at_error ∷ vs) = end_with walk_failed c
walk_visits c (at_file path name ∷ vs) =
    walk_visits (if is_markdown name then send_item c (file_item path) else c) vs

unfoldable pub walk_markdown : (Text → Text → Text) → Crawl → Text → Tree → Crawl
unfolding visits walk_visits
walk_markdown join c root tree = walk_visits c (visits join root tree)

unfoldable pub trim_left_sep : Text → Text
trim_left_sep [] = []
trim_left_sep (c ∷ s) = let rest = trim_left_sep s in if c == b'/' then rest else c ∷ s

unfoldable pub trim_right_sep : Text → Text
unfolding trim_left_sep
trim_right_sep s = reverse (trim_left_sep (reverse s))

-- What stands before and behind the first `**`.
unfoldable pub cut_stars : Text → Option (Text × Text)
unfolding has_prefix
cut_stars [] = none
cut_stars (c ∷ s) =
    let rest = cut_stars s in
    if has_prefix (c ∷ s) (text "**")
    then some ([], elim s [ [] ↦ [] | _ ∷ tail ↦ tail ])
    else elim rest [ none ↦ none | some (before, tail) ↦ some (c ∷ before, tail) ]

-- os.Stat of an input.
pub data Stat : Type 0 where
  missing : Stat
  plain : Stat
  directory : Tree → Stat

-- path/filepath. `match` is `none` for a bad pattern, `rel` and `glob` for an error.
pub record FilePaths : Type 0 where
  pub stat : Text → Stat
  pub join : Text → Text → Text
  pub base : Text → Text
  pub rel : Text → Text → Option Text
  pub match : Text → Text → Option Bool
  pub glob : Text → Option (List Text)

-- The walk of `expandGlob`, `none` for its error.
unfoldable pub glob_visits : FilePaths → Text → Text → List Visit → Option (List Text)
unfolding has_char
glob_visits fp base tail [] = some []
glob_visits fp base tail (at_error ∷ vs) = none
glob_visits fp base tail (at_file path name ∷ vs) =
    let rest = glob_visits fp base tail vs in
    let relative : Text = elim (fp.rel base path) [ some r ↦ r | none ↦ fp.base path ] in
    let against = if has_char b'/' tail then relative else fp.base path in
    if is_empty tail
    then elim rest [ none ↦ none | some ps ↦ some (path ∷ ps) ]
    else elim (fp.match tail against) [
      | none ↦ none
      | some ok ↦ elim rest [ none ↦ none | some ps ↦ some (if ok then path ∷ ps else ps) ]
    ]

unfoldable pub expand_glob : FilePaths → Text → Option (List Text)
unfolding cut_stars trim_left_sep trim_right_sep glob_visits visits
expand_glob fp pattern = elim (cut_stars pattern) [
  | none ↦ fp.glob pattern
  | some (before, after) ↦
      let trimmed = trim_right_sep before in
      let base = if is_empty trimmed then text "." else trimmed in
      elim (fp.stat base) [
        | missing ↦ none
        | plain ↦ glob_visits fp base (trim_left_sep after) (at_file base (fp.base base) ∷ [])
        | directory tree ↦ glob_visits fp base (trim_left_sep after) (visits fp.join base tree)
      ]
]

unfoldable pub crawl_input : FilePaths → Crawl → Text → Crawl
unfolding is_url send_item walk_markdown expand_glob send_files end_with
crawl_input fp c input =
    if is_url input
    then send_item c (record { path = input; url = input; stdin = false })
    else elim (fp.stat input) [
      | directory tree ↦ walk_markdown fp.join c input tree
      | plain ↦ send_item c (file_item input)
      | missing ↦ elim (expand_glob fp input) [
        | none ↦ end_with bad_pattern c
        | some [] ↦ end_with (no_such_input input) c
        | some (p ∷ ps) ↦ send_files c (p ∷ ps)
      ]
    ]

unfoldable pub crawl_inputs : FilePaths → Crawl → List Text → Crawl
unfolding crawl_input
crawl_inputs fp c [] = c
crawl_inputs fp c (input ∷ inputs) = crawl_inputs fp (crawl_input fp c input) inputs

unfoldable pub crawl : FilePaths → Option ℕ → List Text → Crawl
unfolding send_item crawl_inputs
crawl fp room [] =
    send_item (record { sent = []; room = room; stop = none })
      (record { path = text "(stdin)"; url = []; stdin = true })
crawl fp room (input ∷ inputs) =
    crawl_inputs fp (record { sent = []; room = room; stop = none }) (input ∷ inputs)
