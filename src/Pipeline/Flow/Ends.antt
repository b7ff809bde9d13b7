-- ===== src/Pipeline/Flow/Ends.antt =====
-- internal/pipeline/pipeline.go: a run has no endless sequence of steps.
use markdown_linkerator.Base.{
  ℕ, ◌+◌, ◌*◌, ◌≡◌, ◌≤◌, ◌<◌, refl, ap, Bool, true, false, ◌||◌, Option, none, some, List, [], ◌∷◌,
  arith, if◌then◌else◌, length, length-append, Text, lookup, or_else, weight,
}
use markdown_linkerator.Model.{Target, CheckJob}
use markdown_linkerator.Pipeline.Dedup.{Begun, hit, queued, found, add_begin}
use markdown_linkerator.Pipeline.Pacer.{Pacer, new_pacer, enqueue, close, turn, leave, release}
use markdown_linkerator.Pipeline.Pacer.Hosts.{dispatch, close_all}
use markdown_linkerator.Pipeline.Pacer.Drain.{in_hand}
use markdown_linkerator.Pipeline.Flow.{
  Work, Flow, Stage, idle, between, sending, Executor, checking, stored, Opened, refused, parsed,
  opened_worker, open_worker, begun_stage, begin_target, in_context,
}
use markdown_linkerator.Pipeline.Flow.Steps.{
  CrawlStep, sends_file, ends_crawl, stops_crawl, ParseStep, receives_source, opens, reports,
  begins, finishes, sends_job, drops_job, leaves, closes_jobs, PaceStep, dispatches, closes_pacers,
  takes, exits, gives_up, starves, releases, closes_ready, ExecStep, receives_job, executes, stores,
  completes, Step, crawls, parses, paces, works, cancels, Reach, here, next,
}
use markdown_linkerator.Pipeline.Flow.Tally.{
  Weights, tally, crawl_made, crawl_spent, parse_made, parse_spent, pace_made, pace_spent,
  exec_made, exec_spent, CrawlStep-tally, ParseStep-tally, PaceStep-tally, ExecStep-tally,
}

abbrev pub steps_at : Stage → ℕ
steps_at idle = 0
steps_at (between key t) = 1
steps_at (sending j) = 9

abbrev pub to_do : Bool → ℕ
to_do b = if b then 0 else 1

abbrev pub pacer_steps : Pacer → ℕ
pacer_steps p = 6 * length p.q + 5 * length (in_hand p.hand) + to_do p.exited

abbrev pub exec_steps : Executor → ℕ
exec_steps (checking j) = 2
exec_steps (stored j res) = 1

pub close-pacer_steps : (p : Pacer) → pacer_steps (close p) ≡ pacer_steps p
unfolding close
close-pacer_steps p = refl

-- How many steps each thing in flight can still cause, at most.
abbrev pub step_weights : Work → Weights
step_weights w = record {
  crawl = λ src. 4 + 10 * length (opened_worker (w.open_source src)).left;
  file = λ src. 3 + 10 * length (opened_worker (w.open_source src)).left;
  held_source = λ src. 2 + 10 * length (opened_worker (w.open_source src)).left;
  worker = λ wk. 1 + 10 * length wk.left + steps_at wk.stage;
  queued = λ j. 8;
  pacer = pacer_steps;
  ready = λ j. 4;
  held_job = λ j. 3;
  executor = exec_steps;
  pacer_close = close-pacer_steps;
}

-- What each stage has still to close, and the cancellation.
abbrev pub to_close : Flow → ℕ
to_close f =
    to_do f.files_closed
    + to_do f.jobs_closed
    + to_do f.pacing.closing
    + to_do f.ready_closed
    + to_do f.cancelled

abbrev pub potential : Work → Flow → ℕ
potential w f = tally (step_weights w) f + to_close f

opened_stage : (o : Opened) → steps_at (opened_worker o).stage ≡ 0
opened_stage (refused r) = refl
opened_stage (parsed ts anchors) = refl

begun_steps : (key : Text) (t : Target) (b : Begun) → steps_at (begun_stage key t b) ≤ 9
begun_steps key t (hit r) = omega arith
begun_steps key t (queued j) = omega arith
begun_steps key t found = omega arith

takes_steps :
    (f : Flow) (p : Pacer) (j : CheckJob) (q : List CheckJob)
    → p.hand ≡ none
    → p.q ≡ j ∷ q
    → f.cancelled ≡ false
    → pacer_steps (turn (in_context f p)) < pacer_steps p
unfolding turn leave
takes_steps f p j q h l c = ground arith

exits_steps :
    (f : Flow) (p : Pacer)
    → p.exited ≡ false
    → p.q ≡ []
    → p.done ≡ true
    → f.cancelled ≡ false
    → pacer_steps (turn (in_context f p)) < pacer_steps p
unfolding turn leave
exits_steps f p x l d c = ground arith

gives_up_steps :
    (f : Flow) (p : Pacer) → p.exited ≡ false → pacer_steps (leave (in_context f p)) < pacer_steps p
unfolding leave
gives_up_steps f p x = ground arith

releases_steps :
    (p : Pacer) (j : CheckJob) → p.hand ≡ some j → pacer_steps (release p j) + 5 ≡ pacer_steps p
unfolding release
releases_steps p j h = ground arith

weight-enqueue_steps :
    (o : Option Pacer) (j : CheckJob)
    → pacer_steps (enqueue (or_else o new_pacer) j) ≤ weight pacer_steps o + 7
unfolding enqueue
weight-enqueue_steps none j = omega arith
weight-enqueue_steps (some p) j = omega (arith, length-append p.q (j ∷ []))

closed_to_do : (b : Bool) → b ≡ false → to_do b ≡ 1
closed_to_do b e = ground arith

or_to_do : (b c : Bool) → to_do (b || c) ≤ to_do b
or_to_do b c = ground arith

module _ (w : Work) where
  crawl_falls :
      {f f' : Flow} (s : CrawlStep w f f')
      → crawl_made (step_weights w) w s + to_close f'
        < crawl_spent (step_weights w) w s + to_close f
  crawl_falls (sends_file src rest o e r) = omega arith
  crawl_falls {f} (ends_crawl o e) =
      omega (arith, closed_to_do f.files_closed o, or_to_do f.cancelled f.fatal)
  crawl_falls {f} (stops_crawl o d) = omega (arith, closed_to_do f.files_closed o)

  parse_falls :
      {f f' : Flow} (s : ParseStep w f f')
      → parse_made (step_weights w) w s + to_close f'
        < parse_spent (step_weights w) w s + to_close f
  unfolding open_worker begin_target
  parse_falls (receives_source src rest e n) = omega arith
  parse_falls (opens src e r) = omega (arith, opened_stage (w.open_source src))
  parse_falls (reports before behind wk t ts seen r e i l o) = omega (arith, ap length l)
  parse_falls {f} (begins before behind wk t ts now e i l o) = omega (
    arith,
    ap length l,
    ap steps_at i,
    begun_steps (w.key_of t) t (add_begin w.host_of f.dedup (w.key_of t) t now).1,
  )
  parse_falls (finishes before behind wk key t d emit e i o) = omega (arith, ap steps_at i)
  parse_falls (sends_job before behind wk j e i r) = omega (arith, ap steps_at i)
  parse_falls (drops_job before behind wk j e i c) = omega (arith, ap steps_at i)
  parse_falls (leaves before behind wk e i l) = omega (arith, ap steps_at i, ap length l)
  parse_falls {f} (closes_jobs o c e s n) = omega (arith, closed_to_do f.jobs_closed o)

  pace_falls :
      {f f' : Flow} (s : PaceStep w f f')
      → pace_made (step_weights w) w s + to_close f' < pace_spent (step_weights w) w s + to_close f
  unfolding dispatch close_all
  pace_falls {f} (dispatches j rest c e) =
      omega (arith, weight-enqueue_steps (lookup j.host f.pacing.pacers) j)
  pace_falls {f} (closes_pacers c d e) = omega (arith, closed_to_do f.pacing.closing c)
  pace_falls {f} (takes before behind host p j q e x h c l) =
      omega (arith, takes_steps f p j q h l c)
  pace_falls {f} (exits before behind host p e x h c l d) = omega (arith, exits_steps f p x l d c)
  pace_falls {f} (gives_up before behind host p e x c) = omega (arith, gives_up_steps f p x)
  pace_falls {f} (starves before behind host p j e x i c) = omega (arith, gives_up_steps f p x)
  pace_falls (releases before behind host p j e x h r) = omega (arith, releases_steps p j h)
  pace_falls {f} (closes_ready r c a) = omega (arith, closed_to_do f.ready_closed r)

  exec_falls :
      {f f' : Flow} (s : ExecStep w f f')
      → exec_made (step_weights w) w s + to_close f' < exec_spent (step_weights w) w s + to_close f
  exec_falls (receives_job j rest e n) = omega arith
  exec_falls (executes j e r) = omega arith
  exec_falls (stores before behind j client now e) = omega arith
  exec_falls (completes before behind j res d occs e g) = omega arith

  pub Step-potential : {f f' : Flow} → Step w f f' → potential w f' < potential w f
  Step-potential (crawls s) = omega (arith, CrawlStep-tally (step_weights w) w s, crawl_falls s)
  Step-potential (parses s) = omega (arith, ParseStep-tally (step_weights w) w s, parse_falls s)
  Step-potential (paces s) = omega (arith, PaceStep-tally (step_weights w) w s, pace_falls s)
  Step-potential (works s) = omega (arith, ExecStep-tally (step_weights w) w s, exec_falls s)
  Step-potential {f} (cancels o e) = rw e (omega (arith, closed_to_do f.cancelled o))

  -- How many steps a run took.
  abbrev pub steps : {f g : Flow} → Reach w f g → ℕ
  steps here = 0
  steps (next r s) = steps r + 1

  -- However the goroutines interleave, a run from any state takes at most as many steps as the state's
  -- potential, cancelled or not: no stage can go on for ever.
  pub steps-le-potential : {f g : Flow} (r : Reach w f g) → steps r + potential w g ≤ potential w f
  steps-le-potential here = omega arith
  steps-le-potential (next r s) = omega (arith, steps-le-potential r, Step-potential s)
