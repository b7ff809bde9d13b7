-- ===== src/Report/Heartbeat.antt =====
-- internal/report/progress.go: `heartbeat`; internal/report/report.go: `Add` with its live output. The lines
-- are values; `Duration.Round` to seconds is a parameter.
pub mod Names
use markdown_linkerator.Base.{
  ℕ, ◌+◌, ◌-◌, Bool, true, false, not, ◌&&◌, ◌||◌, Option, none, some, List, [], ◌∷◌, ◌++◌, ◌==◌,
  ltb, if◌then◌else◌, length, take, Text, ℤ, pos, ◌-ℤ◌, ltb_ℤ,
}
use markdown_linkerator.Model.{Result, is_dead}
use markdown_linkerator.Report.Gauge.{Gauges, ActiveCheck, Snapshot, update_gauges}

-- The fields of liveProgress, with what `updateGauges` last put into it.
pub record LiveProgress : Type 0 where
  pub start : ℤ
  pub last : ℤ
  pub checked : ℕ
  pub dead : ℕ
  pub snapshot : Snapshot

pub data BeatLine : Type 0 where
  -- Checked, in flight, dead, and the time since the start.
  counts_line : ℕ → ℤ → ℕ → ℤ → BeatLine
  -- The hosts shown, and how many more there are.
  backlog_line : List (Text × ℕ) → ℕ → BeatLine
  -- The URL that is waited on, its age, and its note.
  waiting_line : Text → ℤ → Text → BeatLine
  -- A link as it is done.
  streamed_line : Result → BeatLine

abbrev pub heartbeat_interval : ℤ
heartbeat_interval = pos 750_000_000

abbrev pub active_age_threshold : ℤ
active_age_threshold = pos 3_000_000_000

abbrev pub top_n : ℕ
top_n = 6

unfoldable pub backlog_lines : Snapshot → List BeatLine
unfolding take
backlog_lines s =
    let hosts = length s.host_backlog in
    let shown = if ltb top_n hosts then top_n else hosts in
    if ltb_ℤ (pos 0) s.inflight && ltb 0 hosts
    then backlog_line (take shown s.host_backlog) (hosts - shown) ∷ []
    else []

module _ (round : ℤ → ℤ) where
  unfoldable pub waiting_lines : ℤ → List (Text × ActiveCheck) → List BeatLine
  waiting_lines now [] = []
  waiting_lines now ((url, a) ∷ checks) =
      let rest = waiting_lines now checks in
      let age = round (now -ℤ a.since) in
      if ltb_ℤ age active_age_threshold then rest else waiting_line url age a.note ∷ rest

  unfoldable pub heartbeat : LiveProgress → Bool → ℤ → LiveProgress × List BeatLine
  unfolding backlog_lines waiting_lines
  heartbeat l force now =
      if not force && ltb_ℤ (now -ℤ l.last) heartbeat_interval then (l, []) else (
        record l { last = now },
        counts_line l.checked l.snapshot.inflight l.dead (round (now -ℤ l.start))
            ∷ (backlog_lines l.snapshot ++ waiting_lines now l.snapshot.active_list),
      )

  -- `Add`: the counters always move; the lines and the gauges only with live output.
  unfoldable pub add_live :
      Bool → Bool → LiveProgress → Gauges → Result → ℤ → LiveProgress × List BeatLine
  unfolding heartbeat update_gauges
  add_live live streaming l g r now =
      let seen = record l {
        checked = l.checked + 1;
        dead = if is_dead r.state then l.dead + 1 else l.dead;
      } in
      let gauged = record seen { snapshot = update_gauges g } in
      if not live
      then (seen, [])
      else if streaming
      then (gauged, streamed_line r ∷ [])
      else heartbeat gauged false now
