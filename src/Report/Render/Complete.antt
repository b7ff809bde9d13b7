-- ===== src/Report/Render/Complete.antt =====
-- internal/report/report.go: what the text report of a finished run lists.
use mathlib.Core.List.{flatten, append-nil}
use markdown_linkerator.Base.{
  ◌≡◌, refl, ap, ◌∙◌, Bool, true, false, List, [], ◌∷◌, ◌++◌, ◌==◌, ◌||◌, ltb, arith, if◌then◌else◌,
  inl, inr, length, count-perm, length-perm, Bool-cases,
}
use markdown_linkerator.Model.{State, Result, is_dead, is_error}
use markdown_linkerator.RateLimit.{HostStat}
use markdown_linkerator.Report.{Summary, failures_only, finish}
use markdown_linkerator.Report.Counts.{tally, finish_counts, finish-IsSorted}
use markdown_linkerator.Report.Group.{group_by_file, flatten-group_onto}
use markdown_linkerator.Report.Render.{
  Line, no_links, checked_line, render_file_groups, render_hosts, render_dead_block, render_text,
}
use markdown_linkerator.Report.Render.Listing.{
  listed, listed_dead, dead_only, shown, listed-append, listed_dead-append, render_hosts-listed,
  render_hosts-listed_dead, dead_lines-listed, dead_lines-listed_dead, file_lines-listed,
  file_lines-listed_dead,
}

flatten-group_by_file : (rs : List Result) → flatten (group_by_file rs) ≡ rs
unfolding group_by_file flatten
flatten-group_by_file rs = flatten-group_onto rs []

groups-listed :
    (quiet : Bool) (rs : List Result) → listed (render_file_groups quiet rs) ≡ shown quiet rs
unfolding render_file_groups
groups-listed quiet rs =
    file_lines-listed (group_by_file rs) quiet ∙ ap (shown quiet) (flatten-group_by_file rs)

groups-listed_dead :
    (quiet : Bool) (rs : List Result) → listed_dead (render_file_groups quiet rs) ≡ []
unfolding render_file_groups
groups-listed_dead quiet rs = file_lines-listed_dead (group_by_file rs) quiet

length-dead_only : (rs : List Result) → length (dead_only rs) ≡ tally is_dead rs
unfolding dead_only
length-dead_only [] = refl
length-dead_only (r ∷ rs) = ground (arith, length-dead_only rs)

-- A summary whose figures are those of its results.
abbrev pub Counted : Summary → Type 0
Counted s = (s.total ≡ length s.results) × (s.dead ≡ tally is_dead s.results)

finish-Counted : (rs : List Result) (hosts : List HostStat) (f : Bool) → Counted (finish rs hosts f)
finish-Counted rs hosts f =
    let p = (finish-IsSorted rs hosts f).0 in
    let c = finish_counts rs hosts f in
    (
      omega (arith, c.0, length-perm p),
      omega (arith, c.2, count-perm (λ (r : Result). is_dead r.state) p),
    )

none_listed : (rs : List Result) (quiet : Bool) → length rs ≡ 0 → shown quiet rs ≡ []
unfolding failures_only
none_listed [] true h = refl
none_listed [] false h = refl
none_listed (r ∷ rs) quiet h = absurd (omega arith)

none_dead : (rs : List Result) → tally is_dead rs ≡ 0 → dead_only rs ≡ []
unfolding dead_only
none_dead [] h = refl
none_dead (r ∷ rs) h = ground (arith, none_dead rs)

closing : Summary → List Line
unfolding render_hosts render_dead_block
closing s =
    render_hosts s.hosts
    ++ (checked_line s.total s.cached s.reused ∷ (if ltb 0 s.dead then render_dead_block s else []))

closing-listed : (s : Summary) → listed (closing s) ≡ []
unfolding closing listed render_dead_block
closing-listed s =
    let end : List Line = if ltb 0 s.dead then render_dead_block s else [] in
    listed-append (render_hosts s.hosts) (checked_line s.total s.cached s.reused ∷ end)
    ∙ ap (λ l. l ++ listed end) (render_hosts-listed s.hosts)
    ∙ ground (arith, dead_lines-listed s.results)

closing-listed_dead : (s : Summary) → Counted s → listed_dead (closing s) ≡ dead_only s.results
unfolding closing listed_dead render_dead_block
closing-listed_dead s c =
    let end : List Line = if ltb 0 s.dead then render_dead_block s else [] in
    listed_dead-append (render_hosts s.hosts) (checked_line s.total s.cached s.reused ∷ end)
    ∙ ap (λ l. l ++ listed_dead end) (render_hosts-listed_dead s.hosts)
    ∙ ground (arith, dead_lines-listed_dead s.results, none_dead s.results, c.1)

-- The lines of a report that has links.
lines_of : Bool → Summary → List Line
unfolding closing
lines_of quiet s = render_file_groups quiet s.results ++ (if quiet then [] else closing s)

lines_of-render_text :
    (quiet : Bool) (s : Summary)
    → (s.total == 0) ≡ false
    → render_text quiet false s ≡ lines_of quiet s
unfolding render_text lines_of closing
lines_of-render_text quiet s e = rw e refl

lines_of-listed : (quiet : Bool) (s : Summary) → listed (lines_of quiet s) ≡ shown quiet s.results
unfolding lines_of listed
lines_of-listed quiet s =
    let end : List Line = if quiet then [] else closing s in
    listed-append (render_file_groups quiet s.results) end
    ∙ ap (λ l. l ++ listed end) (groups-listed quiet s.results)
    ∙ ap (λ l. shown quiet s.results ++ l) (ground (arith, closing-listed s))
    ∙ append-nil (shown quiet s.results)

lines_of-listed_dead :
    (quiet : Bool) (s : Summary)
    → Counted s
    → listed_dead (lines_of quiet s) ≡ (if quiet then [] else dead_only s.results)
unfolding lines_of listed_dead
lines_of-listed_dead quiet s c =
    let end : List Line = if quiet then [] else closing s in
    listed_dead-append (render_file_groups quiet s.results) end
    ∙ ap (λ l. l ++ listed_dead end) (groups-listed_dead quiet s.results)
    ∙ ground (arith, closing-listed_dead s c)

no_lines_nothing :
    (quiet : Bool)
    → (listed (if quiet then [] else no_links ∷ []) ≡ shown quiet [])
      × (listed_dead (if quiet then [] else no_links ∷ []) ≡ (if quiet then [] else dead_only []))
unfolding listed listed_dead dead_only failures_only
no_lines_nothing true = (refl, refl)
no_lines_nothing false = (refl, refl)

-- A report without links lists none.
no_lines :
    (quiet : Bool) (s : Summary)
    → Counted s
    → (s.total == 0) ≡ true
    → (listed (render_text quiet false s) ≡ shown quiet s.results)
      × (listed_dead (render_text quiet false s) ≡ (if quiet then [] else dead_only s.results))
unfolding render_text listed listed_dead dead_only
no_lines quiet s c e =
    let nothing : s.results ≡ [] = none_listed s.results false (ground (arith, c.0)) in
    rw (e, nothing) (no_lines_nothing quiet)

-- A link that is dead or errored.
abbrev pub fails : State → Bool
fails State.alive = false
fails State.dead = true
fails State.ignored = false
fails State.error = true
fails (State.other n) = false

-- What a report is to list of some results, quiet or not.
unfoldable pub to_list : Bool → List Result → List Result
to_list quiet [] = []
to_list true (r ∷ rs) = if fails r.state then r ∷ to_list true rs else to_list true rs
to_list false (r ∷ rs) = r ∷ to_list false rs

is_failure-fails : (s : State) → (is_dead s || is_error s) ≡ fails s
is_failure-fails State.alive = refl
is_failure-fails State.dead = refl
is_failure-fails State.ignored = refl
is_failure-fails State.error = refl
is_failure-fails (State.other n) = refl

shown-to_list : (quiet : Bool) (rs : List Result) → shown quiet rs ≡ to_list quiet rs
unfolding to_list failures_only
shown-to_list true [] = refl
shown-to_list false [] = refl
shown-to_list true (r ∷ rs) = ground (arith, is_failure-fails r.state, shown-to_list true rs)
shown-to_list false (r ∷ rs) = ap (λ l. r ∷ l) (shown-to_list false rs)

-- Where the links were not listed live: not quiet, the report lists every link and, at its end, every
-- dead one; quiet, it lists the dead and errored links and no other. All stand in the order of the
-- finished results.
pub render_text_complete :
    (rs : List Result) (hosts : List HostStat) (f quiet : Bool)
    → let s = finish rs hosts f in
      (listed (render_text quiet false s) ≡ to_list quiet s.results)
      × (listed_dead (render_text quiet false s) ≡ (if quiet then [] else dead_only s.results))
render_text_complete rs hosts f quiet =
    let s = finish rs hosts f in
    let c = finish-Counted rs hosts f in
    elim (Bool-cases (s.total == 0)) [
      | inl e ↦
          let none_there = no_lines quiet s c e in
          (none_there.0 ∙ shown-to_list quiet s.results, none_there.1)
      | inr e ↦
          rw (lines_of-render_text quiet s e) (
            lines_of-listed quiet s ∙ shown-to_list quiet s.results,
            lines_of-listed_dead quiet s c,
          )
    ]
