-- ===== src/Pipeline/Crawl/Examples.antt =====
-- A folder with two files and a folder of dependencies.
use markdown_linkerator.Base.{◌≡◌, refl, true, false, [], ◌++◌, ◌∷◌, Text, text}
use markdown_linkerator.Pipeline.Crawl.{Tree, file, folder, no_trees, more, walk_markdown}
use markdown_linkerator.Pipeline.Crawl.Folders.{
  listing, sources, readable, going, walk_markdown-sources,
}

abbrev below : Text → Text → Text
below dir name = dir ++ (b'/' ∷ name)

abbrev docs : Tree
docs = folder (text "docs") (
    more (file (text "a.md")) (
      more (file (text "b.png"))
        (more (folder (text "vendor") (more (file (text "c.md")) no_trees)) no_trees)))

docs-readable : readable docs ≡ true
unfolding readable
docs-readable = refl

walk_markdown-sources_example :
    walk_markdown below (going []) (text "docs") docs
    ≡ going ([] ++ sources (listing below false (text "docs") docs))
walk_markdown-sources_example = walk_markdown-sources below [] (text "docs") docs docs-readable
