-- ===== src/Report/Render/Listing.antt =====
-- internal/report/report.go: which links the text report lists.
use mathlib.Core.List.{flatten}
use markdown_linkerator.Base.{
  ◌≡◌, refl, ap, sym, ◌∙◌, Bool, true, false, List, [], ◌∷◌, ◌++◌, map, arith, if◌then◌else◌,
}
use markdown_linkerator.Model.{Result, is_dead}
use markdown_linkerator.RateLimit.{HostStat}
use markdown_linkerator.Report.{failures_only}
use markdown_linkerator.Report.Render.{
  Line, no_links, file_heading, link_line, blank, hosts_heading, host_line, checked_line,
  dead_heading, dead_line, file_lines, render_hosts, dead_lines,
}

-- The results that the lines of a report list, and those of its closing block.
unfoldable pub listed : List Line → List Result
listed [] = []
listed (link_line r ∷ ls) = r ∷ listed ls
listed (_ ∷ ls) = listed ls

unfoldable pub listed_dead : List Line → List Result
listed_dead [] = []
listed_dead (dead_line r ∷ ls) = r ∷ listed_dead ls
listed_dead (_ ∷ ls) = listed_dead ls

unfoldable pub dead_only : List Result → List Result
dead_only [] = []
dead_only (r ∷ rs) = let rest = dead_only rs in if is_dead r.state then r ∷ rest else rest

pub listed-append : (ls ms : List Line) → listed (ls ++ ms) ≡ listed ls ++ listed ms
unfolding listed
listed-append [] ms = refl
listed-append (link_line r ∷ ls) ms = ap (λ l. r ∷ l) (listed-append ls ms)
listed-append (no_links ∷ ls) ms = listed-append ls ms
listed-append (file_heading f ∷ ls) ms = listed-append ls ms
listed-append (blank ∷ ls) ms = listed-append ls ms
listed-append (hosts_heading ∷ ls) ms = listed-append ls ms
listed-append (host_line h ∷ ls) ms = listed-append ls ms
listed-append (checked_line t c u ∷ ls) ms = listed-append ls ms
listed-append (dead_heading n ∷ ls) ms = listed-append ls ms
listed-append (dead_line r ∷ ls) ms = listed-append ls ms

pub listed_dead-append :
    (ls ms : List Line) → listed_dead (ls ++ ms) ≡ listed_dead ls ++ listed_dead ms
unfolding listed_dead
listed_dead-append [] ms = refl
listed_dead-append (dead_line r ∷ ls) ms = ap (λ l. r ∷ l) (listed_dead-append ls ms)
listed_dead-append (no_links ∷ ls) ms = listed_dead-append ls ms
listed_dead-append (file_heading f ∷ ls) ms = listed_dead-append ls ms
listed_dead-append (blank ∷ ls) ms = listed_dead-append ls ms
listed_dead-append (hosts_heading ∷ ls) ms = listed_dead-append ls ms
listed_dead-append (host_line h ∷ ls) ms = listed_dead-append ls ms
listed_dead-append (checked_line t c u ∷ ls) ms = listed_dead-append ls ms
listed_dead-append (dead_heading n ∷ ls) ms = listed_dead-append ls ms
listed_dead-append (link_line r ∷ ls) ms = listed_dead-append ls ms

listed-links : (rs : List Result) → listed (map link_line rs) ≡ rs
unfolding listed
listed-links [] = refl
listed-links (r ∷ rs) = ap (λ l. r ∷ l) (listed-links rs)

listed_dead-links : (rs : List Result) → listed_dead (map link_line rs) ≡ []
unfolding listed_dead
listed_dead-links [] = refl
listed_dead-links (r ∷ rs) = listed_dead-links rs

no_host_listed : (hs : List HostStat) (ms : List Line) → listed (map host_line hs ++ ms) ≡ listed ms
unfolding listed
no_host_listed [] ms = refl
no_host_listed (h ∷ hs) ms = no_host_listed hs ms

no_host_dead :
    (hs : List HostStat) (ms : List Line) → listed_dead (map host_line hs ++ ms) ≡ listed_dead ms
unfolding listed_dead
no_host_dead [] ms = refl
no_host_dead (h ∷ hs) ms = no_host_dead hs ms

pub render_hosts-listed : (hs : List HostStat) → listed (render_hosts hs) ≡ []
unfolding listed render_hosts
render_hosts-listed [] = refl
render_hosts-listed (h ∷ hs) = no_host_listed hs (blank ∷ [])

pub render_hosts-listed_dead : (hs : List HostStat) → listed_dead (render_hosts hs) ≡ []
unfolding listed_dead render_hosts
render_hosts-listed_dead [] = refl
render_hosts-listed_dead (h ∷ hs) = no_host_dead hs (blank ∷ [])

pub dead_lines-listed : (rs : List Result) → listed (dead_lines rs) ≡ []
unfolding listed dead_lines
dead_lines-listed [] = refl
dead_lines-listed (r ∷ rs) = ground (arith, dead_lines-listed rs)

pub dead_lines-listed_dead : (rs : List Result) → listed_dead (dead_lines rs) ≡ dead_only rs
unfolding listed_dead dead_lines dead_only
dead_lines-listed_dead [] = refl
dead_lines-listed_dead (r ∷ rs) = ground (arith, dead_lines-listed_dead rs)

failures_only-append :
    (xs ys : List Result) → failures_only (xs ++ ys) ≡ failures_only xs ++ failures_only ys
unfolding failures_only
failures_only-append [] ys = refl
failures_only-append (x ∷ xs) ys = ground (arith, failures_only-append xs ys)

-- What a report lists of some results.
abbrev pub shown : Bool → List Result → List Result
shown quiet rs = if quiet then failures_only rs else rs

shown-append :
    (quiet : Bool) (xs ys : List Result) → shown quiet (xs ++ ys) ≡ shown quiet xs ++ shown quiet ys
shown-append true xs ys = failures_only-append xs ys
shown-append false xs ys = refl

-- A file's lines list what is shown of its group.
group_listed :
    (lines : List Result) (rest : List Line)
    → listed (elim lines [
      | [] ↦ rest
      | r ∷ rs ↦ file_heading (r.target.source_file) ∷ link_line r ∷ map link_line rs ++ rest
    ])
      ≡ lines ++ listed rest
unfolding listed
group_listed [] rest = refl
group_listed (r ∷ rs) rest =
    ap (λ l. r ∷ l)
      (listed-append (map link_line rs) rest ∙ ap (λ l. l ++ listed rest) (listed-links rs))

group_listed_dead :
    (lines : List Result) (rest : List Line)
    → listed_dead (elim lines [
      | [] ↦ rest
      | r ∷ rs ↦ file_heading (r.target.source_file) ∷ link_line r ∷ map link_line rs ++ rest
    ])
      ≡ listed_dead rest
unfolding listed_dead
group_listed_dead [] rest = refl
group_listed_dead (r ∷ rs) rest =
    listed_dead-append (map link_line rs) rest
    ∙ ap (λ l. l ++ listed_dead rest) (listed_dead-links rs)

pub file_lines-listed :
    (gs : List (List Result)) (quiet : Bool)
    → listed (file_lines gs quiet) ≡ shown quiet (flatten gs)
unfolding file_lines listed flatten
file_lines-listed [] true = refl
file_lines-listed [] false = refl
file_lines-listed (g ∷ gs) quiet =
    group_listed (shown quiet g) (file_lines gs quiet)
    ∙ ap (λ l. shown quiet g ++ l) (file_lines-listed gs quiet)
    ∙ sym (shown-append quiet g (flatten gs))

pub file_lines-listed_dead :
    (gs : List (List Result)) (quiet : Bool) → listed_dead (file_lines gs quiet) ≡ []
unfolding file_lines listed_dead
file_lines-listed_dead [] quiet = refl
file_lines-listed_dead (g ∷ gs) quiet =
    group_listed_dead (shown quiet g) (file_lines gs quiet) ∙ file_lines-listed_dead gs quiet
