-- ===== src/Report/Examples.antt =====
-- The report of three results, and the gauges over a short run.
use mathlib.Core.List.{Perm}
use markdown_linkerator.Base.{
  ◌+◌, ◌≡◌, refl, true, false, ◌++◌, List, [], ◌∷◌, arith, length, count, text, IsSorted, pos,
  lookup, insert, text_eq,
}
use markdown_linkerator.Model.{Result}
use markdown_linkerator.Samples.{alive_a, dead_a, link_b}
use markdown_linkerator.Report.{finish, result_less, target_less}
use markdown_linkerator.Report.Counts.{finish-IsSorted}
use markdown_linkerator.Report.Wire.{to_wire, to_wire_counts, in_state}
use markdown_linkerator.Report.Ticker.{
  Output, report, Ticker, rendered, new_ticker, start_progress, stop_progress, write, starts, adds,
  ticks, returns, stops, waited, renders, Reach, here, next, is_report, report_is_last,
}
use markdown_linkerator.Report.Gauge.{
  Call, enqueue, start, done, no_gauges, run_calls, sent, finished, inflight_of, inflight-sent,
  IsBalanced, net_start, net_enqueue,
}

abbrev delivered : List Result
delivered = record alive_a { target = link_b } ∷ dead_a ∷ alive_a ∷ []

finish-IsSorted_example :
    Perm (finish delivered [] false).results delivered
    × IsSorted result_less (finish delivered [] false).results
finish-IsSorted_example = finish-IsSorted delivered [] false

to_wire_counts_example :
    let w = to_wire (finish delivered [] false) in
    (w.total ≡ length w.results)
    × (w.alive ≡ count (in_state (text "alive")) w.results)
    × (w.dead ≡ count (in_state (text "dead")) w.results)
    × (w.ignored ≡ count (in_state (text "ignored")) w.results)
    × (w.errored ≡ count (in_state (text "error")) w.results)
to_wire_counts_example = to_wire_counts delivered [] false

abbrev in_order_of_line : List Result
in_order_of_line = alive_a ∷ record alive_a { target = link_b } ∷ []

in_order_of_line-IsSorted : IsSorted result_less in_order_of_line
unfolding target_less text_eq
in_order_of_line-IsSorted = ((refl, tt), (tt, tt))

abbrev calls : List Call
calls =
    enqueue (text "h")
    ∷ enqueue (text "h")
    ∷ start (text "u") (pos 3)
    ∷ done (text "u") (text "h")
    ∷ []

calls-IsBalanced : IsBalanced no_gauges calls
unfolding lookup insert net_start net_enqueue text_eq
calls-IsBalanced = (omega arith, tt)

inflight-sent_example :
    inflight_of (text "h") (run_calls no_gauges calls).host_inflight + finished (text "h") calls
    ≡ inflight_of (text "h") no_gauges.host_inflight + sent (text "h") calls
inflight-sent_example = inflight-sent (text "h") calls no_gauges calls-IsBalanced

-- The ticker fires once more while `Finish` waits for it.
last_beat : (c : Ticker) × Reach (new_ticker true) c × (c.phase ≡ rendered)
unfolding start_progress stop_progress write
last_beat = (
  _,
  next
      (next
        (next
          (next (next (next (next here (starts refl refl)) (adds refl)) (stops refl)) (ticks refl))
          (returns refl refl))
        (waited refl refl))
      (renders refl),
  refl,
)

report_is_last_example :
    (last_beat.0.ticking ≡ false)
    × ((lines : List Output) × (last_beat.0.written ≡ lines ++ (report ∷ []))
        × (count is_report lines ≡ 0))
report_is_last_example = report_is_last true last_beat.1 last_beat.2
