-- ===== src/Pipeline/Flow/Closing/Pacers.antt =====
-- internal/pipeline/pipeline.go: the ends of the stages, as the pacers and the executions go on.
use markdown_linkerator.Base.{
  ◌≡◌, ◌∙◌, refl, sym, inl, inr, true, false, none, List, [], ◌∷◌, ◌++◌, arith, All-middle,
  All-replace, or_else, Text, lookup, AllValues, insert-AllValues, lookup-AllValues, Option-cases,
}
use markdown_linkerator.Model.{CheckJob}
use markdown_linkerator.Pipeline.Pacer.{Pacer, new_pacer, enqueue, close, turn, leave, release}
use markdown_linkerator.Pipeline.Pacer.Hosts.{dispatch, close_each, close_all}
use markdown_linkerator.Pipeline.Flow.{Work, Flow, in_context, set_at}
use markdown_linkerator.Pipeline.Flow.Steps.{
  PaceStep, dispatches, closes_pacers, takes, exits, gives_up, starves, releases, closes_ready,
  ExecStep, receives_job, executes, stores, completes, Step, crawls, parses, paces, works, cancels,
}
use markdown_linkerator.Pipeline.Flow.Closing.{
  IsCalm, IsOrderly, CrawlStep-IsOrderly, ParseStep-IsOrderly,
}

-- The pacers after one of them has moved.
moved {ℓ} :
    (P : Pacer → Type ℓ) (ps before behind : List (Text × Pacer)) (host : Text) (p p' : Pacer)
    → ps ≡ before ++ ((host, p) ∷ behind)
    → (P p → P p')
    → AllValues P ps
    → AllValues P (before ++ ((host, p') ∷ behind))
moved P ps before behind host p p' e h a =
    let all = rw e at a in
    All-replace _ before (host, p) (host, p') behind all
      (h (All-middle _ before (host, p) behind all))

-- Not all pacers have returned.
still_in :
    {ps : List (Text × Pacer)} (before behind : List (Text × Pacer)) (host : Text) (p : Pacer)
    → ps ≡ before ++ ((host, p) ∷ behind)
    → p.exited ≡ false
    → AllValues (λ (x : Pacer). x.exited ≡ true) ps
    → ⊥
still_in before behind host p e x a =
    let y = All-middle _ before (host, p) behind (rw e at a) in absurd (ground arith)

-- A pacer that has not returned moves: those that have are all the others.
moved-IsOrderly :
    (f : Flow) (before behind : List (Text × Pacer)) (host : Text) (p p' : Pacer)
    → IsOrderly f
    → f.pacing.pacers ≡ before ++ ((host, p) ∷ behind)
    → p.exited ≡ false
    → p'.done ≡ p.done
    → (f.cancelled ≡ false → (p.done ≡ f.pacing.closing) → IsCalm p')
    → IsOrderly (set_at f before host p' behind)
moved-IsOrderly f before behind host p p' o e x d c = record {
  crawl_end = o.crawl_end;
  parse_end = o.parse_end;
  pace_end = o.pace_end;
  ready_end = λ r. absurd (still_in before behind host p e x (o.ready_end r).1);
  closing_all = moved _ f.pacing.pacers before behind host p p' e (λ y. d ∙ y) o.closing_all;
  calm = λ n m.
      moved IsCalm f.pacing.pacers before behind host p p' e
        (λ _. c n (All-middle _ before (host, p) behind (rw e at o.closing_all))) (o.calm n m);
}

moved_calm_end :
    (f : Flow) (p : Pacer)
    → p.q ≡ []
    → p.hand ≡ none
    → p.done ≡ true
    → f.cancelled ≡ false
    → IsCalm (turn (in_context f p))
unfolding turn leave
moved_calm_end f p q h d c = λ x. (ground arith, ground arith, ground arith)

moved_calm_take :
    (f : Flow) (p : Pacer) (j : CheckJob) (q : List CheckJob)
    → p.exited ≡ false
    → p.q ≡ j ∷ q
    → f.cancelled ≡ false
    → IsCalm (turn (in_context f p))
unfolding turn leave
moved_calm_take f p j q e l c = λ x. absurd (ground arith)

turn-done : (f : Flow) (p : Pacer) → (turn (in_context f p)).done ≡ p.done
unfolding turn leave
turn-done f p = ground arith

-- Enqueueing leaves a pacer open, and wakes none that has returned.
enqueue_calm : (p : Pacer) (j : CheckJob) → p.done ≡ false → IsCalm p → IsCalm (enqueue p j)
unfolding enqueue
enqueue_calm p j d c = λ x. absurd (ground (arith, (c x).0))

new_or {ℓ} :
    (P : Pacer → Type ℓ) (host : Text) (ps : List (Text × Pacer))
    → P new_pacer
    → AllValues P ps
    → P (or_else (lookup host ps) new_pacer)
new_or P host ps n a = elim (Option-cases (lookup host ps)) [
  | inl e ↦ rw e n
  | inr (p, e) ↦ rw e (lookup-AllValues P host ps a e)
]

close_each-done :
    (ps : List (Text × Pacer)) → AllValues (λ (p : Pacer). p.done ≡ true) (close_each ps)
unfolding close_each close
close_each-done [] = tt
close_each-done ((host, p) ∷ ps) = (refl, close_each-done ps)

close_each-IsCalm :
    (ps : List (Text × Pacer)) → AllValues IsCalm ps → AllValues IsCalm (close_each ps)
unfolding close_each close
close_each-IsCalm [] a = tt
close_each-IsCalm ((host, p) ∷ ps) a =
    ((λ x. (refl, (a.0 x).1, (a.0 x).2)), close_each-IsCalm ps a.1)

module _ (w : Work) where
  PaceStep-IsOrderly : {f f' : Flow} → PaceStep w f f' → IsOrderly f → IsOrderly f'
  unfolding dispatch close_all
  PaceStep-IsOrderly {f} (dispatches j rest c e) o =
      let p = or_else (lookup j.host f.pacing.pacers) new_pacer in
      let open_one : p.done ≡ f.pacing.closing =
        new_or (λ x. x.done ≡ f.pacing.closing) j.host f.pacing.pacers (sym c) o.closing_all in
      record {
        crawl_end = o.crawl_end;
        parse_end = o.parse_end;
        pace_end = λ x. absurd (ground arith);
        ready_end = λ r. absurd (ground (arith, (o.ready_end r).0));
        closing_all =
            insert-AllValues _ j.host (enqueue p j) f.pacing.pacers (unfold enqueue in open_one)
              o.closing_all;
        calm = λ n m.
            insert-AllValues IsCalm j.host (enqueue p j) f.pacing.pacers
              (enqueue_calm p j (open_one ∙ c)
                (new_or IsCalm j.host f.pacing.pacers (λ x. absurd (ground arith)) (o.calm n m)))
              (o.calm n m);
      }
  PaceStep-IsOrderly {f} (closes_pacers c d e) o = record {
    crawl_end = o.crawl_end;
    parse_end = o.parse_end;
    pace_end = λ x. (d, e);
    ready_end = λ r. absurd (ground (arith, (o.ready_end r).0));
    closing_all = close_each-done f.pacing.pacers;
    calm = λ n m. close_each-IsCalm f.pacing.pacers (o.calm n m);
  }
  PaceStep-IsOrderly {f} (takes before behind host p j q e x h c l) o =
      moved-IsOrderly f before behind host p (turn (in_context f p)) o e x (turn-done f p)
        (λ n _. moved_calm_take f p j q x l c)
  PaceStep-IsOrderly {f} (exits before behind host p e x h c l d) o =
      moved-IsOrderly f before behind host p (turn (in_context f p)) o e x (turn-done f p)
        (λ n _. moved_calm_end f p l h d c)
  PaceStep-IsOrderly {f} (gives_up before behind host p e x c) o =
      moved-IsOrderly f before behind host p (leave (in_context f p)) o e x (unfold leave in refl)
        (λ n _. absurd (ground arith))
  PaceStep-IsOrderly {f} (starves before behind host p j e x h d) o =
      let p' = leave (in_context f p) in
      record {
        crawl_end = o.crawl_end;
        parse_end = o.parse_end;
        pace_end = o.pace_end;
        ready_end = λ r. absurd (still_in before behind host p e x (o.ready_end r).1);
        closing_all =
            moved _ f.pacing.pacers before behind host p p' e (λ y. unfold leave in y)
              o.closing_all;
        calm = λ n m. absurd (ground arith);
      }
  PaceStep-IsOrderly {f} (releases before behind host p j e x h r) o =
      let m =
        moved-IsOrderly f before behind host p (release p j) o e x (unfold release in refl)
          (λ n _ y. absurd (unfold release in ground arith)) in
      record {
        crawl_end = m.crawl_end;
        parse_end = m.parse_end;
        pace_end = m.pace_end;
        ready_end = m.ready_end;
        closing_all = m.closing_all;
        calm = m.calm;
      }
  PaceStep-IsOrderly (closes_ready r c a) o = record {
    crawl_end = o.crawl_end;
    parse_end = o.parse_end;
    pace_end = o.pace_end;
    ready_end = λ x. (c, a);
    closing_all = o.closing_all;
    calm = o.calm;
  }

  -- An execution touches nothing that the stages' ends depend on.
  beside :
      (f f' : Flow)
      → IsOrderly f
      → f' ≡ record f {
        ready = f'.ready;
        job = f'.job;
        executors = f'.executors;
        dedup = f'.dedup;
        results = f'.results;
      }
      → IsOrderly f'
  beside f f' o e = rw e record {
    crawl_end = o.crawl_end;
    parse_end = o.parse_end;
    pace_end = o.pace_end;
    ready_end = o.ready_end;
    closing_all = o.closing_all;
    calm = o.calm;
  }

  ExecStep-IsOrderly : {f f' : Flow} → ExecStep w f f' → IsOrderly f → IsOrderly f'
  ExecStep-IsOrderly {f} (receives_job j rest e n) o = beside f _ o refl
  ExecStep-IsOrderly {f} (executes j e r) o = beside f _ o refl
  ExecStep-IsOrderly {f} (stores before behind j client now e) o = beside f _ o refl
  ExecStep-IsOrderly {f} (completes before behind j res d occs e g) o = beside f _ o refl

  cancelled-IsOrderly :
      (f : Flow) → IsOrderly f → IsOrderly (record f { cancelled = true; interrupted = true })
  cancelled-IsOrderly f o = record {
    crawl_end = o.crawl_end;
    parse_end = o.parse_end;
    pace_end = o.pace_end;
    ready_end = o.ready_end;
    closing_all = o.closing_all;
    calm = λ n m. absurd (ground arith);
  }

  pub Step-IsOrderly : {f f' : Flow} → Step w f f' → IsOrderly f → IsOrderly f'
  Step-IsOrderly (crawls s) o = CrawlStep-IsOrderly w s o
  Step-IsOrderly (parses s) o = ParseStep-IsOrderly w s o
  Step-IsOrderly (paces s) o = PaceStep-IsOrderly s o
  Step-IsOrderly (works s) o = ExecStep-IsOrderly s o
  Step-IsOrderly {f} (cancels u e) o = rw e (cancelled-IsOrderly f o)
