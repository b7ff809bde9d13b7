-- ===== src/Report/Render.antt =====
-- internal/report/report.go: the text report, `renderText` and what it calls; color.go: the palette;
-- internal/model/model.go: `Glyph`. A report is the list of its lines. How numbers and rates are printed is
-- a parameter.
pub mod Listing
pub mod Complete
mod Examples
use markdown_linkerator.Base.{
  ℕ, Bool, true, false, not, ◌&&◌, ◌||◌, Option, none, some, List, [], ◌∷◌, ◌++◌, ◌==◌, ltb,
  if◌then◌else◌, map, Text, text, ℤ,
}
use markdown_linkerator.Model.{Target, Result, State, alive, dead, ignored, error, other, is_dead}
use markdown_linkerator.RateLimit.{HostStat}
use markdown_linkerator.Report.{
  Summary, is_nil, machine_format, link_display, detail_text, reuse_tag, failures_only,
}
use markdown_linkerator.Report.Group.{group_by_file, file_of}

-- The lines of a report, before they are printed.
pub data Line : Type 0 where
  no_links : Line
  file_heading : Text → Line
  link_line : Result → Line
  blank : Line
  hosts_heading : Line
  host_line : HostStat → Line
  checked_line : ℕ → ℕ → ℕ → Line
  dead_heading : ℕ → Line
  dead_line : Result → Line

unfoldable pub file_lines : List (List Result) → Bool → List Line
unfolding failures_only
file_lines [] quiet = []
file_lines (g ∷ gs) quiet =
    let rest = file_lines gs quiet in
    elim (if quiet then failures_only g else g) [
      | [] ↦ rest
      | r ∷ rs ↦ file_heading (file_of r) ∷ link_line r ∷ map link_line rs ++ rest
    ]

-- `renderFileGroups`
unfoldable pub render_file_groups : Bool → List Result → List Line
unfolding file_lines group_by_file
render_file_groups quiet results = file_lines (group_by_file results) quiet

unfoldable pub render_hosts : List HostStat → List Line
render_hosts [] = []
render_hosts (h ∷ hs) = blank ∷ hosts_heading ∷ map host_line (h ∷ hs) ++ (blank ∷ [])

unfoldable pub dead_lines : List Result → List Line
dead_lines [] = []
dead_lines (r ∷ rs) =
    let rest = dead_lines rs in if is_dead r.state then dead_line r ∷ rest else rest

unfoldable pub render_dead_block : Summary → List Line
unfolding dead_lines
render_dead_block s = dead_heading s.dead ∷ dead_lines s.results

-- `streamed` says that live output was on and listed each link.
unfoldable pub render_text : Bool → Bool → Summary → List Line
unfolding render_file_groups render_hosts render_dead_block
render_text quiet streamed s =
    if s.total == 0
    then if quiet then [] else no_links ∷ []
    else (if streamed then [] else render_file_groups quiet s.results)
      ++ (if quiet
          then []
          else render_hosts s.hosts
            ++ (checked_line s.total s.cached s.reused
                ∷ (if ltb 0 s.dead then render_dead_block s else [])))

-- The two settings of `NewCollector`: whether there is live output, and whether it lists each link.
unfoldable pub live_on : Bool → Bool → Text → Bool
unfolding machine_format
live_on has_progress_out quiet format =
    has_progress_out && (not quiet && not (machine_format format))

-- `newPalette`: whether the output is coloured.
abbrev pub new_palette : Bool → Text → Bool
new_palette no_color env_no_color = if no_color || not (is_nil env_no_color) then false else true

-- 27 is the escape character.
unfoldable pub wrap : Bool → Text → Text → Text
wrap enabled code s =
    if not enabled || is_nil s then s else (27 ∷ b'[' ∷ code) ++ (b'm' ∷ s) ++ (27 ∷ text "[0m")

unfoldable pub glyph : State → Text
glyph alive = text "✓"
glyph dead = text "✖"
glyph ignored = text "/"
glyph error = text "⚠"
glyph (other n) = text "?"

unfoldable pub color_glyph : Bool → State → Text
unfolding wrap glyph
color_glyph p alive = wrap p (text "32") (glyph alive)
color_glyph p dead = wrap p (text "31") (glyph dead)
color_glyph p error = wrap p (text "33") (glyph error)
color_glyph p s = wrap p (text "90") (glyph s)

module _ (itoa : ℕ → Text) (rate : Option (ℕ × ℤ) → Text) (p verbose : Bool) where
  abbrev status_text : Result → Text
  status_text r = text " → Status: " ++ itoa r.status_code

  abbrev detail_suffix : Result → Text
  detail_suffix r = if is_nil (detail_text r) then [] else text " — " ++ detail_text r

  unfoldable pub render_link : Result → Text
  unfolding color_glyph link_display reuse_tag detail_text
  render_link r =
      text "  "
      ++ (color_glyph p r.state
          ++ (text " "
              ++ (link_display r.target
                  ++ (reuse_tag r ++ (if verbose then status_text r ++ detail_suffix r else [])))))

  -- `streamLine` of the live output.
  unfoldable pub stream_line : Result → Text
  unfolding color_glyph link_display reuse_tag detail_text
  stream_line r =
      text "  "
      ++ (color_glyph p r.state
          ++ (text " "
              ++ (link_display r.target ++ (status_text r ++ (reuse_tag r ++ detail_suffix r)))))

  abbrev counted : Text → ℕ → Text → Text
  counted before n after = if ltb 0 n then before ++ (itoa n ++ after) else []

  -- A line as it is printed.
  unfoldable pub line_text : Line → Text
  unfolding render_link wrap
  line_text no_links = text "No hyperlinks found!"
  line_text (file_heading f) = wrap p (text "36") (text "FILE: " ++ f)
  line_text (link_line r) = render_link r
  line_text blank = []
  line_text hosts_heading = wrap p (text "36") (text "Hosts:")
  line_text (host_line h) =
      text "  "
      ++ (h.host
          ++ (text "  "
              ++ (itoa h.requests
                  ++ (text " requests  "
                      ++ (rate h.observed
                          ++ (text " req/s  "
                              ++ (itoa h.retries
                                  ++ (text " retries  "
                                      ++ (itoa h.n429 ++ text " unresolved-429")))))))))
  line_text (checked_line total cached reused) =
      text "  "
      ++ (itoa total
          ++ (text " link(s) checked"
              ++ (counted (text " · ") cached (text " from cache")
                  ++ (counted (text " · ") reused (text " reused") ++ text "."))))
  line_text (dead_heading n) =
      wrap p (text "31") (text "ERROR: " ++ (itoa n ++ text " dead link(s) found!"))
  line_text (dead_line r) =
      text "  " ++ (color_glyph p r.state ++ (text " " ++ (link_display r.target ++ status_text r)))
