-- ===== src/Pipeline/Crawl/Folders.antt =====
-- internal/pipeline/crawl.go: which files of a folder are checked.
use markdown_linkerator.Base.{
  ◌≡◌, refl, ap, sym, ◌∙◌, Bool, true, false, not, ◌&&◌, ◌||◌, Option, none, some, List, [], ◌∷◌,
  ◌++◌, arith, if◌then◌else◌, Text, mem_text, inl, inr, Bool-cases, Option-cases,
}
use mathlib.Core.List.{append_assoc, append-nil}
use markdown_linkerator.Pipeline.Handle.{is_markdown}
use markdown_linkerator.Pipeline.Crawl.{
  SrcItem, Crawl, Tree, file, folder, unreadable, Trees, no_trees, more, Visit, at_file, at_error,
  skip_dirs, name_of, visits, visits_all, send_item, file_item, walk_visits, walk_markdown,
}

-- A file of a tree, with its path, its name and whether a skipped folder is above it.
pub record Listed : Type 0 where
  pub listed_path : Text
  pub listed_name : Text
  pub hidden : Bool

unfoldable mutual
  unfolding mem_text

  -- Every file of a tree.
  pub listing : (Text → Text → Text) → Bool → Text → Tree → List Listed
  listing join hidden path (file name) =
      record { listed_path = path; listed_name = name; hidden = hidden } ∷ []
  listing join hidden path (folder name ts) =
      listing_all join (hidden || mem_text name skip_dirs) path ts
  listing join hidden path (unreadable name) = []

  pub listing_all : (Text → Text → Text) → Bool → Text → Trees → List Listed
  listing_all join hidden path no_trees = []
  listing_all join hidden path (more t ts) =
      listing join hidden (join path (name_of t)) t ++ listing_all join hidden path ts

-- The sources among them.
unfoldable pub sources : List Listed → List SrcItem
unfolding is_markdown
sources [] = []
sources (l ∷ ls) =
    let rest = sources ls in
    if not l.hidden && is_markdown l.listed_name then file_item l.listed_path ∷ rest else rest

sources-append :
    (ls more_ls : List Listed) → sources (ls ++ more_ls) ≡ sources ls ++ sources more_ls
unfolding sources
sources-append [] ms = refl
sources-append (l ∷ ls) ms = ground (arith, sources-append ls ms)

unfoldable mutual
  -- Every folder of a tree can be read.
  pub readable : Tree → Bool
  readable (file name) = true
  readable (folder name ts) = readable_all ts
  readable (unreadable name) = false

  pub readable_all : Trees → Bool
  readable_all no_trees = true
  readable_all (more t ts) = readable t && readable_all ts

-- What a walk sends, unless it meets an error.
items : List Visit → Option (List SrcItem)
items [] = some []
items (at_error ∷ vs) = none
items (at_file path name ∷ vs) = elim (items vs) [
  | none ↦ none
  | some is ↦ some (if is_markdown name then file_item path ∷ is else is)
]

items-append :
    (vs ws : List Visit) (is js : List SrcItem)
    → items vs ≡ some is
    → items ws ≡ some js
    → items (vs ++ ws) ≡ some (is ++ js)
unfolding items
items-append [] ws is js e f = ground arith
items-append (at_error ∷ vs) ws is js e f = absurd (ground arith)
items-append (at_file path name ∷ vs) ws is js e f = elim (Option-cases (items vs)) [
  | inl n ↦ absurd (ground arith)
  | inr (rest, h) ↦ ground (arith, items-append vs ws rest js h f)
]

mutual
  unfolding listing sources

  hidden_sources :
      (join : Text → Text → Text) (path : Text) (t : Tree) → sources (listing join true path t) ≡ []
  hidden_sources join path (file name) = refl
  hidden_sources join path (folder name ts) = hidden_sources_all join path ts
  hidden_sources join path (unreadable name) = refl

  hidden_sources_all :
      (join : Text → Text → Text) (path : Text) (ts : Trees)
      → sources (listing_all join true path ts) ≡ []
  hidden_sources_all join path no_trees = refl
  hidden_sources_all join path (more t ts) = ground (
    arith,
    sources-append (listing join true (join path (name_of t)) t) (listing_all join true path ts),
    hidden_sources join (join path (name_of t)) t,
    hidden_sources_all join path ts,
  )

mutual
  unfolding listing sources visits readable items

  visits-items :
      (join : Text → Text → Text) (path : Text) (t : Tree)
      → readable t ≡ true
      → items (visits join path t) ≡ some (sources (listing join false path t))
  visits-items join path (file name) r = ground arith
  visits-items join path (folder name ts) r = elim (Bool-cases (mem_text name skip_dirs)) [
    | inl e ↦ ground (arith, hidden_sources_all join path ts)
    | inr e ↦ ground (arith, visits_all-items join path ts r)
  ]
  visits-items join path (unreadable name) r = absurd (ground arith)

  visits_all-items :
      (join : Text → Text → Text) (path : Text) (ts : Trees)
      → readable_all ts ≡ true
      → items (visits_all join path ts) ≡ some (sources (listing_all join false path ts))
  visits_all-items join path no_trees r = refl
  visits_all-items join path (more t ts) r =
      let below = join path (name_of t) in
      items-append (visits join below t) (visits_all join path ts)
        (sources (listing join false below t)) (sources (listing_all join false path ts))
        (visits-items join below t (ground arith)) (visits_all-items join path ts (ground arith))
      ∙ ap some (sym (sources-append (listing join false below t) (listing_all join false path ts)))

-- A crawl without an error or a limit.
abbrev pub going : List SrcItem → Crawl
going sent = record { sent = sent; room = none; stop = none }

walk_visits-items :
    (sent : List SrcItem) (vs : List Visit) (is : List SrcItem)
    → items vs ≡ some is
    → walk_visits (going sent) vs ≡ going (sent ++ is)
unfolding walk_visits items send_item
walk_visits-items sent [] is e = ground (arith, append-nil sent)
walk_visits-items sent (at_error ∷ vs) is e = absurd (ground arith)
walk_visits-items sent (at_file path name ∷ vs) is e = elim (Option-cases (items vs)) [
  | inl n ↦ absurd (ground arith)
  | inr (rest, h) ↦ elim (Bool-cases (is_markdown name)) [
    | inl y ↦ ground (
      arith,
      walk_visits-items (sent ++ (file_item path ∷ [])) vs rest h,
      append_assoc sent (file_item path ∷ []) rest,
    )
    | inr n ↦ ground (arith, walk_visits-items sent vs rest h)
  ]
]

-- A folder that can be read in full, and whose sources all find room in the channel, gives exactly its
-- Markdown files that stand under no folder named .git, node_modules or vendor, itself included, each
-- once and in the order of the folder.
pub walk_markdown-sources :
    (join : Text → Text → Text) (sent : List SrcItem) (root : Text) (tree : Tree)
    → readable tree ≡ true
    → walk_markdown join (going sent) root tree
      ≡ going (sent ++ sources (listing join false root tree))
unfolding walk_markdown
walk_markdown-sources join sent root tree r =
    walk_visits-items sent (visits join root tree) (sources (listing join false root tree))
      (visits-items join root tree r)
