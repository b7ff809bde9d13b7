-- ===== src/Report/Heartbeat/Names.antt =====
-- internal/report/progress.go: what a heartbeat names.
use markdown_linkerator.Base.{
  ◌≡◌, refl, Bool, not, ◌&&◌, List, [], ◌∷◌, ◌++◌, arith, if◌then◌else◌, Text, ℤ, ◌-ℤ◌, ltb_ℤ,
}
use markdown_linkerator.Report.Gauge.{ActiveCheck, Snapshot}
use markdown_linkerator.Report.Heartbeat.{
  LiveProgress, BeatLine, waiting_line, backlog_lines, waiting_lines, heartbeat, heartbeat_interval,
  active_age_threshold,
}

-- The URLs that the lines say are waited on.
unfoldable pub waited_on : List BeatLine → List Text
waited_on [] = []
waited_on (waiting_line url age note ∷ ls) = url ∷ waited_on ls
waited_on (_ ∷ ls) = waited_on ls

-- The URLs of the checks that have been running for three seconds or more.
unfoldable pub long_running : (ℤ → ℤ) → ℤ → List (Text × ActiveCheck) → List Text
long_running round now [] = []
long_running round now ((url, a) ∷ checks) =
    let rest = long_running round now checks in
    if ltb_ℤ (round (now -ℤ a.since)) active_age_threshold then rest else url ∷ rest

waiting_lines-waited_on :
    (round : ℤ → ℤ) (now : ℤ) (checks : List (Text × ActiveCheck))
    → waited_on (waiting_lines round now checks) ≡ long_running round now checks
unfolding waiting_lines waited_on long_running
waiting_lines-waited_on round now [] = refl
waiting_lines-waited_on round now ((url, a) ∷ checks) =
    ground (arith, waiting_lines-waited_on round now checks)

backlog-waited_on :
    (s : Snapshot) (ls : List BeatLine) → waited_on (backlog_lines s ++ ls) ≡ waited_on ls
unfolding backlog_lines waited_on
backlog-waited_on s ls = ground arith

-- A heartbeat that is not due, nor forced, prints nothing and leaves the clock. Any other names exactly
-- the checks that have been running for three seconds or more, oldest first, and sets the clock.
pub heartbeat-waited_on :
    (round : ℤ → ℤ) (l : LiveProgress) (force : Bool) (now : ℤ)
    → let quiet = not force && ltb_ℤ (now -ℤ l.last) heartbeat_interval in
      let out = heartbeat round l force now in
      (out.0 ≡ (if quiet then l else record l { last = now }))
      × (waited_on out.1 ≡ (if quiet then [] else long_running round now l.snapshot.active_list))
unfolding heartbeat waited_on
heartbeat-waited_on round l force now =
    let checks = l.snapshot.active_list in
    ground (
      arith,
      backlog-waited_on l.snapshot (waiting_lines round now checks),
      waiting_lines-waited_on round now checks,
    )
