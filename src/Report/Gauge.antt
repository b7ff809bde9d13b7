-- ===== src/Report/Gauge.antt =====
-- internal/report/report.go: the gauges of the progress line. `hostInflight` counts the checks of
-- each host that are sent and not finished.
use markdown_linkerator.Base.{
  ℕ, ◌+◌, ◌-◌, ◌<◌, ◌≡◌, refl, Bool, not, none, some, List, [], ◌∷◌, arith, leb, ltb, ◌==◌,
  if◌then◌else◌, or_else, Text, text_eq, text_eq_iff, text_lt, Map, lookup, insert, remove,
  lookup-insert, lookup-remove, ℤ, ltb_ℤ, sub_ℕ, sort_stable,
}

pub record ActiveCheck : Type 0 where
  pub since : ℤ
  pub note : Text

pub record Gauges : Type 0 where
  pub enqueued : ℕ
  pub net_done : ℕ
  pub active : Map ActiveCheck
  pub host_inflight : Map ℕ

abbrev pub no_gauges : Gauges
no_gauges = record { enqueued = 0; net_done = 0; active = []; host_inflight = [] }

-- A missing key reads as 0.
abbrev pub inflight_of : Text → Map ℕ → ℕ
inflight_of h m = or_else (lookup h m) 0

unfoldable pub net_enqueue : Gauges → Text → Gauges
net_enqueue g host = record g {
  enqueued = g.enqueued + 1;
  host_inflight = insert host (inflight_of host g.host_inflight + 1) g.host_inflight;
}

unfoldable pub net_start : Gauges → Text → ℤ → Gauges
net_start g url now = record g { active = insert url (record { since = now; note = [] }) g.active }

unfoldable pub net_status : Gauges → Text → Text → Gauges
net_status g url note = elim (lookup url g.active) [
  | none ↦ g
  | some a ↦ record g { active = insert url (record a { note = note }) g.active }
]

-- The count falls by one, and goes when it is no longer positive.
unfoldable pub net_complete : Gauges → Text → Text → Gauges
net_complete g url host =
    let n = inflight_of host g.host_inflight in
    record g {
      net_done = g.net_done + 1;
      active = remove url g.active;
      host_inflight =
          if leb n 1 then remove host g.host_inflight else insert host (n - 1) g.host_inflight;
    }

-- What `updateGauges` hands to the heartbeat.
pub record Snapshot : Type 0 where
  pub inflight : ℤ
  pub active_list : List (Text × ActiveCheck)
  pub host_backlog : List (Text × ℕ)

abbrev pub since_less : Text × ActiveCheck → Text × ActiveCheck → Bool
since_less (u, a) (v, b) = ltb_ℤ a.since b.since

abbrev pub busier : Text × ℕ → Text × ℕ → Bool
busier (h, n) (k, m) = if not (n == m) then ltb m n else text_lt h k

unfoldable pub update_gauges : Gauges → Snapshot
unfolding sort_stable
update_gauges g = record {
  inflight = sub_ℕ g.enqueued g.net_done;
  active_list = sort_stable since_less g.active;
  host_backlog = sort_stable busier g.host_inflight;
}

-- A call of one of the methods.
pub data Call : Type 0 where
  enqueue : Text → Call
  start : Text → ℤ → Call
  status : Text → Text → Call
  done : Text → Text → Call

unfoldable pub run_call : Gauges → Call → Gauges
unfolding net_enqueue net_start net_status net_complete
run_call g (enqueue host) = net_enqueue g host
run_call g (start url now) = net_start g url now
run_call g (status url note) = net_status g url note
run_call g (done url host) = net_complete g url host

unfoldable pub run_calls : Gauges → List Call → Gauges
run_calls g [] = g
run_calls g (c ∷ cs) = run_calls (run_call g c) cs

-- How many checks of the host the calls send, and how many they finish.
abbrev pub sent : Text → List Call → ℕ
sent h [] = 0
sent h (enqueue host ∷ cs) = (if text_eq host h then 1 else 0) + sent h cs
sent h (_ ∷ cs) = sent h cs

abbrev pub finished : Text → List Call → ℕ
finished h [] = 0
finished h (done url host ∷ cs) = (if text_eq host h then 1 else 0) + finished h cs
finished h (_ ∷ cs) = finished h cs

-- No check is finished that was not sent before.
abbrev pub IsBalanced : Gauges → List Call → Type 0
IsBalanced g [] = Unit {0}
IsBalanced g (done url host ∷ cs) =
    (0 < inflight_of host g.host_inflight) × IsBalanced (net_complete g url host) cs
IsBalanced g (enqueue host ∷ cs) = IsBalanced (net_enqueue g host) cs
IsBalanced g (start url now ∷ cs) = IsBalanced (net_start g url now) cs
IsBalanced g (status url note ∷ cs) = IsBalanced (net_status g url note) cs

module _ (h : Text) where
  enqueue_inflight :
      (g : Gauges) (host : Text)
      → inflight_of h (net_enqueue g host).host_inflight
        ≡ inflight_of h g.host_inflight + (if text_eq host h then 1 else 0)
  unfolding net_enqueue
  enqueue_inflight g host = ground (
    arith,
    text_eq_iff host h,
    lookup-insert host h (inflight_of host g.host_inflight + 1) g.host_inflight,
  )

  complete_inflight :
      (g : Gauges) (url host : Text)
      → 0 < inflight_of host g.host_inflight
      → inflight_of h (net_complete g url host).host_inflight + (if text_eq host h then 1 else 0)
        ≡ inflight_of h g.host_inflight
  unfolding net_complete
  complete_inflight g url host pos = ground (
    arith,
    text_eq_iff host h,
    lookup-remove host h g.host_inflight,
    lookup-insert host h (inflight_of host g.host_inflight - 1) g.host_inflight,
  )

  status_inflight :
      (g : Gauges) (url note : Text)
      → inflight_of h (net_status g url note).host_inflight ≡ inflight_of h g.host_inflight
  unfolding net_status
  status_inflight g url note = ground arith

  -- The backlog shown for a host is exactly the checks sent for it less those finished, in every
  -- order of calls in which no check is finished before it is sent.
  pub inflight-sent :
      (cs : List Call) (g : Gauges)
      → IsBalanced g cs
      → inflight_of h (run_calls g cs).host_inflight + finished h cs
        ≡ inflight_of h g.host_inflight + sent h cs
  unfolding run_calls run_call net_start
  inflight-sent [] g b = refl
  inflight-sent (enqueue host ∷ cs) g b =
      omega (arith, inflight-sent cs (net_enqueue g host) b, enqueue_inflight g host)
  inflight-sent (start url now ∷ cs) g b = inflight-sent cs (net_start g url now) b
  inflight-sent (status url note ∷ cs) g b =
      omega (arith, inflight-sent cs (net_status g url note) b, status_inflight g url note)
  inflight-sent (done url host ∷ cs) g b =
      omega
        (arith, inflight-sent cs (net_complete g url host) b.1, complete_inflight g url host b.0)
