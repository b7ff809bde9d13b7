-- ===== src/Pipeline/Flow/Closing.antt =====
-- internal/pipeline/pipeline.go: the ends of the stages. A stage closes its channel once all that could still
-- send on it has ended.
pub mod Pacers
use markdown_linkerator.Base.{
  ◌≡◌, ◌≢◌, ◌∙◌, refl, sym, ap, inl, inr, Bool, true, false, none, List, [], ◌∷◌, ◌++◌, arith,
  All-middle, All-replace, or_else, Text, lookup, AllValues, insert-AllValues, lookup-AllValues,
  Bool-cases, Option-cases,
}
use markdown_linkerator.Model.{CheckJob}
use markdown_linkerator.Pipeline.Pacer.{Pacer, new_pacer, enqueue, close, turn, leave, release}
use markdown_linkerator.Pipeline.Pacer.Hosts.{dispatch, close_each, close_all}
use markdown_linkerator.Pipeline.Flow.{
  Work, Flow, Worker, open_worker, begin_target, in_context, set_at,
}
use markdown_linkerator.Pipeline.Flow.Steps.{
  CrawlStep, sends_file, ends_crawl, stops_crawl, ParseStep, receives_source, opens, reports,
  begins, finishes, sends_job, drops_job, leaves, closes_jobs, PaceStep, dispatches, closes_pacers,
  takes, exits, gives_up, starves, releases, closes_ready, ExecStep, receives_job, executes, stores,
  completes, Step, crawls, parses, paces, works, cancels,
}

-- A pacer that has returned was closed and had sent all.
abbrev pub IsCalm : Pacer → Type 0
IsCalm p = p.exited ≡ true → (p.done ≡ true) × (p.q ≡ []) × (p.hand ≡ none)

pub record IsOrderly (f : Flow) : Type 0 where
  pub crawl_end : f.files_closed ≡ true → f.to_crawl ≡ []
  pub parse_end :
      f.jobs_closed ≡ true
      → (f.files_closed ≡ true) × (f.files ≡ []) × (f.source ≡ none) × (f.workers ≡ [])
  pub pace_end : f.pacing.closing ≡ true → (f.jobs_closed ≡ true) × (f.jobs ≡ [])
  pub ready_end :
      f.ready_closed ≡ true
      → (f.pacing.closing ≡ true) × AllValues (λ (p : Pacer). p.exited ≡ true) f.pacing.pacers
  pub closing_all : AllValues (λ (p : Pacer). p.done ≡ f.pacing.closing) f.pacing.pacers
  pub calm : f.cancelled ≡ false → f.starved ≡ false → AllValues IsCalm f.pacing.pacers

append_ne_nil {ℓ} : {A : Type ℓ} (xs : List A) (y : A) (ys : List A) → xs ++ (y ∷ ys) ≢ []
append_ne_nil [] y ys e = cc
append_ne_nil (x ∷ xs) y ys e = cc

abbrev false_of : (b : Bool) → (b ≡ true → ⊥) → b ≡ false
false_of b h = elim (Bool-cases b) [ inl e ↦ absurd (h e) | inr e ↦ e ]

-- A run that still parses: all that comes later is open.
still_parsing :
    (f f' : Flow)
    → IsOrderly f
    → f.jobs_closed ≡ false
    → f'.jobs_closed ≡ f.jobs_closed
    → f'.files_closed ≡ f.files_closed
    → f'.to_crawl ≡ f.to_crawl
    → f'.pacing ≡ f.pacing
    → f'.ready_closed ≡ f.ready_closed
    → f'.cancelled ≡ f.cancelled
    → f'.starved ≡ f.starved
    → IsOrderly f'
still_parsing f f' o open_jobs j c t p r x y = record {
  crawl_end = λ e. ground (arith, o.crawl_end);
  parse_end = λ e. absurd (ground arith);
  pace_end = λ e. absurd (ground (arith, (o.pace_end (sym (ap (λ y. y.closing) p) ∙ e)).0));
  ready_end = λ e. absurd (ground (arith, (o.pace_end (o.ready_end (sym r ∙ e)).0).0));
  closing_all = rw p o.closing_all;
  calm = λ e n. rw p (o.calm (sym x ∙ e) (sym y ∙ n));
}

working :
    (f : Flow) (before behind : List Worker) (wk : Worker)
    → IsOrderly f
    → f.workers ≡ before ++ (wk ∷ behind)
    → f.jobs_closed ≡ false
working f before behind wk o e =
    false_of f.jobs_closed (λ j. append_ne_nil before wk behind (sym e ∙ (o.parse_end j).3))

module _ (w : Work) where
  pub CrawlStep-IsOrderly : {f f' : Flow} → CrawlStep w f f' → IsOrderly f → IsOrderly f'
  CrawlStep-IsOrderly (sends_file src rest u e r) o = record {
    crawl_end = λ x. absurd (ground arith);
    parse_end = λ j. absurd (ground (arith, (o.parse_end j).0));
    pace_end = o.pace_end;
    ready_end = o.ready_end;
    closing_all = o.closing_all;
    calm = o.calm;
  }
  CrawlStep-IsOrderly {f} (ends_crawl u e) o = record {
    crawl_end = λ x. e;
    parse_end = λ j. absurd (ground (arith, (o.parse_end j).0));
    pace_end = o.pace_end;
    ready_end = o.ready_end;
    closing_all = o.closing_all;
    calm = λ c. o.calm (ground arith);
  }
  CrawlStep-IsOrderly (stops_crawl u d) o = record {
    crawl_end = λ x. refl;
    parse_end = λ j. absurd (ground (arith, (o.parse_end j).0));
    pace_end = o.pace_end;
    ready_end = o.ready_end;
    closing_all = o.closing_all;
    calm = o.calm;
  }

  pub ParseStep-IsOrderly : {f f' : Flow} → ParseStep w f f' → IsOrderly f → IsOrderly f'
  unfolding open_worker begin_target
  ParseStep-IsOrderly {f} (receives_source src rest e n) o =
      let u = false_of f.jobs_closed (λ j. ground (arith, (o.parse_end j).1)) in
      still_parsing f _ o u refl refl refl refl refl refl refl
  ParseStep-IsOrderly {f} (opens src e r) o =
      let u = false_of f.jobs_closed (λ j. ground (arith, (o.parse_end j).2)) in
      still_parsing f _ o u refl refl refl refl refl refl refl
  ParseStep-IsOrderly {f} (reports before behind wk t ts seen r e i l x) o =
      still_parsing f _ o (working f before behind wk o e) refl refl refl refl refl refl refl
  ParseStep-IsOrderly {f} (begins before behind wk t ts now e i l x) o =
      still_parsing f _ o (working f before behind wk o e) refl refl refl refl refl refl refl
  ParseStep-IsOrderly {f} (finishes before behind wk key t d emit e i x) o =
      still_parsing f _ o (working f before behind wk o e) refl refl refl refl refl refl refl
  ParseStep-IsOrderly {f} (sends_job before behind wk j e i r) o =
      still_parsing f _ o (working f before behind wk o e) refl refl refl refl refl refl refl
  ParseStep-IsOrderly {f} (drops_job before behind wk j e i d) o =
      still_parsing f _ o (working f before behind wk o e) refl refl refl refl refl refl refl
  ParseStep-IsOrderly {f} (leaves before behind wk e i l) o =
      still_parsing f _ o (working f before behind wk o e) refl refl refl refl refl refl refl
  ParseStep-IsOrderly {f} (closes_jobs u d e s n) o = record {
    crawl_end = o.crawl_end;
    parse_end = λ j. (d, e, s, n);
    pace_end = λ c. absurd (ground (arith, (o.pace_end c).0));
    ready_end = o.ready_end;
    closing_all = o.closing_all;
    calm = o.calm;
  }
