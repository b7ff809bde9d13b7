-- ===== src/Pipeline/Flow/InFlight.antt =====
-- internal/pipeline/pipeline.go: the jobs of a run that is not cancelled. A URL without its result has a job on
-- the way.
use markdown_linkerator.Base.{
  ℕ, ◌+◌, ◌≡◌, ◌≤◌, refl, ap, ◌⊎◌, inl, inr, true, false, Option, none, some, List, [], ◌∷◌, arith,
  if◌then◌else◌, Text, text_eq, text_eq_iff, lookup, lookup-insert, sum_of, sum_of-append, weight,
  or_else, ℤ, Option-cases, Bool-cases,
}
use markdown_linkerator.Model.{Target, Result, CheckJob, zero_result}
use markdown_linkerator.Cache
use markdown_linkerator.Pipeline.Dedup.{
  Dedup, UrlState, add_begin, add_finish, complete, finish_on, result_from_cache, zero_target,
}
use markdown_linkerator.Pipeline.Crawl.{SrcItem}
use markdown_linkerator.Pipeline.Dedup.Settled.{add_finish_seen, complete_seen}
use markdown_linkerator.Pipeline.Pacer.{Pacer, new_pacer, enqueue, close, turn, leave, release}
use markdown_linkerator.Pipeline.Pacer.Drain.{in_hand}
use markdown_linkerator.Pipeline.Flow.{
  Work, Flow, Stage, idle, between, sending, Executor, checking, stored, Opened, refused, parsed,
  opened_worker, open_worker, begun_stage, begin_target, in_context,
}
use markdown_linkerator.Pipeline.Flow.Steps.{
  CrawlStep, sends_file, ends_crawl, stops_crawl, ParseStep, receives_source, opens, reports,
  begins, finishes, sends_job, drops_job, leaves, closes_jobs, PaceStep, dispatches, closes_pacers,
  takes, exits, gives_up, starves, releases, closes_ready, ExecStep, receives_job, executes, stores,
  completes, Step, crawls, parses, paces, works, cancels,
}
use markdown_linkerator.Pipeline.Flow.Tally.{
  Weights, tally, crawl_made, crawl_spent, parse_made, parse_spent, pace_made, pace_spent,
  exec_made, exec_spent, CrawlStep-tally, ParseStep-tally, PaceStep-tally, ExecStep-tally,
}

-- Whether a URL is in the table and has no result yet.
abbrev pub pending_in : Option UrlState → ℕ
pending_in none = 0
pending_in (some st) = if st.done then 0 else 1

abbrev pub pending : Text → Dedup → ℕ
pending k d = pending_in (lookup k d.seen)

abbrev pub is_for : Text → CheckJob → ℕ
is_for k j = if text_eq j.key k then 1 else 0

abbrev pub carried : Text → Stage → ℕ
carried k idle = 0
carried k (between key t) = 0
carried k (sending j) = is_for k j

abbrev pub executed : Executor → CheckJob
executed (checking j) = j
executed (stored j res) = j

abbrev pub pacer_jobs : Text → Pacer → ℕ
pacer_jobs k p = sum_of (is_for k) (in_hand p.hand) + sum_of (is_for k) p.q

pub close-pacer_jobs : (k : Text) (p : Pacer) → pacer_jobs k (close p) ≡ pacer_jobs k p
unfolding close
close-pacer_jobs k p = refl

-- The jobs for one URL.
abbrev pub job_weights : Text → Weights
job_weights k = record {
  crawl = λ src. 0;
  file = λ src. 0;
  held_source = λ src. 0;
  worker = λ wk. carried k wk.stage;
  queued = is_for k;
  pacer = pacer_jobs k;
  ready = is_for k;
  held_job = is_for k;
  executor = λ x. is_for k (executed x);
  pacer_close = close-pacer_jobs k;
}

abbrev pub HasJob : Text → Flow → Type 0
HasJob k f = pending k f.dedup ≤ tally (job_weights k) f

module _ (k : Text) where
  begun_pending :
      (host_of : Text → Text) (d : Dedup) (key : Text) (t : Target) (now : ℤ)
      → pending k (add_begin host_of d key t now).0
        ≤ pending k d + carried k (begun_stage key t (add_begin host_of d key t now).1)
  unfolding add_begin
  begun_pending host_of d key t now = elim (Option-cases (lookup key d.seen)) [
    | inr (st, e) ↦ ground arith
    | inl e ↦ elim (Option-cases (Cache.get d.cache key now)) [
      | inr (ent, g) ↦ ground (
        arith,
        lookup-insert key k
            (record { done = true; result = result_from_cache host_of t ent; occs = [] }) d.seen,
      )
      | inl g ↦ ground (
        arith,
        lookup-insert key k
            (record { done = false; result = zero_result zero_target; occs = t ∷ [] }) d.seen,
      )
    ]
  ]

  finish_pending :
      (d d' : Dedup) (key : Text) (t : Target) (emit : List Result)
      → add_finish d key t ≡ some (d', emit)
      → pending k d' ≡ pending k d
  unfolding finish_on
  finish_pending d d' key t emit e =
      let (st, n, s) = add_finish_seen d d' key t emit e in
      ground (arith, lookup-insert key k (finish_on st t).0 d.seen, text_eq_iff key k)

  -- Its own URL has a result now, and the others are as they were.
  complete_pending :
      (d d' : Dedup) (j : CheckJob) (res : Result) (occs : List Target)
      → complete d j.key res ≡ some (d', occs)
      → (pending k d' ≡ 0) ⊎ (pending k d' + is_for k j ≡ pending k d)
  complete_pending d d' j res occs e =
      let s = complete_seen d d' j.key res occs e in
      let at = lookup-insert j.key k (record { done = true; result = res; occs = [] }) d.seen in
      elim (Bool-cases (text_eq j.key k)) [
        | inl same ↦ inl (ground (arith, at))
        | inr other ↦ inr (ground (arith, at))
      ]

  pub weight-enqueue :
      (o : Option Pacer) (j : CheckJob)
      → pacer_jobs k (enqueue (or_else o new_pacer) j) ≡ weight (pacer_jobs k) o + is_for k j
  unfolding enqueue
  weight-enqueue none j = omega arith
  weight-enqueue (some p) j = omega (arith, sum_of-append (is_for k) p.q (j ∷ []))

  pub takes_jobs :
      (f : Flow) (p : Pacer) (j : CheckJob) (q : List CheckJob)
      → p.hand ≡ none
      → p.q ≡ j ∷ q
      → f.cancelled ≡ false
      → pacer_jobs k (turn (in_context f p)) ≡ pacer_jobs k p
  unfolding turn leave
  takes_jobs f p j q h l c = ground arith

  pub exits_jobs :
      (f : Flow) (p : Pacer)
      → p.q ≡ []
      → p.done ≡ true
      → f.cancelled ≡ false
      → pacer_jobs k (turn (in_context f p)) ≡ pacer_jobs k p
  unfolding turn leave
  exits_jobs f p l d c = ground arith

  pub opened_jobs : (o : Opened) → carried k (opened_worker o).stage ≡ 0
  opened_jobs (refused r) = refl
  opened_jobs (parsed ts anchors) = refl

module _ (w : Work) (k : Text) where
  crawl_balance :
      {f f' : Flow} (s : CrawlStep w f f')
      → pending k f'.dedup + crawl_spent (job_weights k) w s
        ≤ pending k f.dedup + crawl_made (job_weights k) w s
  crawl_balance (sends_file src rest o e r) = omega arith
  crawl_balance (ends_crawl o e) = omega arith
  crawl_balance {f} (stops_crawl o d) = omega (arith, no_jobs f.to_crawl)
    where
      no_jobs : (srcs : List SrcItem) → sum_of (λ (src : SrcItem). 0) srcs ≡ 0
      no_jobs [] = omega arith
      no_jobs (src ∷ srcs) = omega (arith, no_jobs srcs)

  parse_balance :
      {f f' : Flow} (s : ParseStep w f f')
      → f'.cancelled ≡ false
      → pending k f'.dedup + parse_spent (job_weights k) w s
        ≤ pending k f.dedup + parse_made (job_weights k) w s
  unfolding open_worker begin_target
  parse_balance (receives_source src rest e n) c = omega arith
  parse_balance (opens src e r) c = omega (arith, opened_jobs k (w.open_source src))
  parse_balance (reports before behind wk t ts seen r e i l o) c = omega arith
  parse_balance {f} (begins before behind wk t ts now e i l o) c =
      omega (arith, ap (carried k) i, begun_pending k w.host_of f.dedup (w.key_of t) t now)
  parse_balance {f} (finishes before behind wk key t d emit e i o) c =
      omega (arith, ap (carried k) i, finish_pending k f.dedup d key t emit o)
  parse_balance (sends_job before behind wk j e i r) c = omega (arith, ap (carried k) i)
  parse_balance (drops_job before behind wk j e i d) c = absurd (ground arith)
  parse_balance (leaves before behind wk e i l) c = omega (arith, ap (carried k) i)
  parse_balance (closes_jobs o d e s n) c = omega arith

  pace_balance :
      {f f' : Flow} (s : PaceStep w f f')
      → pending k f'.dedup + pace_spent (job_weights k) w s
        ≤ pending k f.dedup + pace_made (job_weights k) w s
  unfolding leave release
  pace_balance {f} (dispatches j rest c e) =
      omega (arith, weight-enqueue k (lookup j.host f.pacing.pacers) j)
  pace_balance (closes_pacers c d e) = omega arith
  pace_balance {f} (takes before behind host p j q e x h c l) =
      omega (arith, takes_jobs k f p j q h l c)
  pace_balance {f} (exits before behind host p e x h c l d) = omega (arith, exits_jobs k f p l d c)
  pace_balance (gives_up before behind host p e x c) = omega arith
  pace_balance (starves before behind host p j e x i c) = omega arith
  pace_balance (releases before behind host p j e x h r) =
      omega (arith, ap (λ o. sum_of (is_for k) (in_hand o)) h)
  pace_balance (closes_ready r c a) = omega arith

  exec_balance :
      {f f' : Flow} (s : ExecStep w f f')
      → (pending k f'.dedup ≡ 0)
        ⊎ (pending k f'.dedup + exec_spent (job_weights k) w s
            ≤ pending k f.dedup + exec_made (job_weights k) w s)
  exec_balance (receives_job j rest e n) = inr (omega arith)
  exec_balance (executes j e r) = inr (omega arith)
  exec_balance (stores before behind j client now e) = inr (omega arith)
  exec_balance {f} (completes before behind j res d occs e g) =
      elim (complete_pending k f.dedup d j res occs g) [ inl z ↦ inl z | inr o ↦ inr (omega arith) ]

  pub Step-HasJob : {f f' : Flow} → Step w f f' → f'.cancelled ≡ false → HasJob k f → HasJob k f'
  Step-HasJob (crawls s) c h = omega (arith, CrawlStep-tally (job_weights k) w s, crawl_balance s)
  Step-HasJob (parses s) c h = omega (arith, ParseStep-tally (job_weights k) w s, parse_balance s c)
  Step-HasJob (paces s) c h = omega (arith, PaceStep-tally (job_weights k) w s, pace_balance s)
  Step-HasJob (works s) c h = omega (arith, ExecStep-tally (job_weights k) w s, exec_balance s)
  Step-HasJob (cancels o e) c h = absurd (ground arith)
