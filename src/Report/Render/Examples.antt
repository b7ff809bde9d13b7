-- ===== src/Report/Render/Examples.antt =====
-- The text report of a run with one link alive and one dead.
use markdown_linkerator.Base.{◌≡◌, true, false, List, [], ◌∷◌, if◌then◌else◌}
use markdown_linkerator.Model.{Result}
use markdown_linkerator.Samples.{alive_a, dead_a}
use markdown_linkerator.Report.{finish}
use markdown_linkerator.Report.Render.{render_text}
use markdown_linkerator.Report.Render.Listing.{listed, listed_dead, dead_only}
use markdown_linkerator.Report.Render.Complete.{to_list, render_text_complete}

abbrev two_links : List Result
two_links = alive_a ∷ dead_a ∷ []

render_text_complete_example :
    (listed (render_text true false (finish two_links [] false))
      ≡ to_list true (finish two_links [] false).results)
    × (listed_dead (render_text true false (finish two_links [] false))
        ≡ (if true then [] else dead_only (finish two_links [] false).results))
render_text_complete_example = render_text_complete two_links [] false true
