-- ===== src/Pipeline/Flow/Table.antt =====
-- internal/pipeline/pipeline.go: the table of URLs during a run. A URL stands in it once, and one that is done
-- keeps no occurrences.
use markdown_linkerator.Base.{
  ◌≡◌, refl, inl, inr, some, List, Text, lookup, AllValues, insert-AllValues, lookup-AllValues,
  IsUnique, insert-IsUnique, ℤ, Option-cases,
}
use markdown_linkerator.Model.{Target, Result}
use markdown_linkerator.Cache
use markdown_linkerator.Pipeline.Dedup.{Dedup, add_begin, add_finish, complete}
use markdown_linkerator.Pipeline.Dedup.Settled.{
  IsDrained, add_finish_seen, complete_seen, begin-IsDrained, finish_on-IsDrained,
}
use markdown_linkerator.Pipeline.Flow.{Work, Flow, open_worker, begin_target}
use markdown_linkerator.Pipeline.Flow.Steps.{
  CrawlStep, sends_file, ends_crawl, stops_crawl, ParseStep, receives_source, opens, reports,
  begins, finishes, sends_job, drops_job, leaves, closes_jobs, PaceStep, dispatches, closes_pacers,
  takes, exits, gives_up, starves, releases, closes_ready, ExecStep, receives_job, executes, stores,
  completes, Step, crawls, parses, paces, works, cancels,
}

pub record IsTidy (d : Dedup) : Type 0 where
  pub drained : AllValues IsDrained d.seen
  pub unique : IsUnique d.seen

begin-IsUnique :
    (host_of : Text → Text) (d : Dedup) (key : Text) (t : Target) (now : ℤ)
    → IsUnique d.seen
    → IsUnique (add_begin host_of d key t now).0.seen
unfolding add_begin
begin-IsUnique host_of d key t now u = elim (Option-cases (lookup key d.seen)) [
  | inr (st, e) ↦ rw (e, add_begin) u
  | inl e ↦ elim (Option-cases (Cache.get d.cache key now)) [
    | inr (ent, g) ↦ rw (e, g, add_begin) (insert-IsUnique key _ d.seen u)
    | inl g ↦ rw (e, g, add_begin) (insert-IsUnique key _ d.seen u)
  ]
]

finish-IsTidy :
    (host_of : Text → Text) (d d' : Dedup) (key : Text) (t : Target) (emit : List Result)
    → add_finish d key t ≡ some (d', emit)
    → IsTidy d
    → IsTidy d'
finish-IsTidy host_of d d' key t emit e h =
    let (st, n, s) = add_finish_seen d d' key t emit e in
    record {
      drained = rw s (
          insert-AllValues IsDrained key _ d.seen
            (finish_on-IsDrained host_of st t (lookup-AllValues IsDrained key d.seen h.drained n))
            h.drained);
      unique = rw s (insert-IsUnique key _ d.seen h.unique);
    }

complete-IsTidy :
    (d d' : Dedup) (key : Text) (res : Result) (occs : List Target)
    → complete d key res ≡ some (d', occs)
    → IsTidy d
    → IsTidy d'
complete-IsTidy d d' key res occs e h = record {
  drained =
      rw (complete_seen d d' key res occs e)
        (insert-AllValues IsDrained key _ d.seen (λ _. refl) h.drained);
  unique = rw (complete_seen d d' key res occs e) (insert-IsUnique key _ d.seen h.unique);
}

module _ (w : Work) where
  ParseStep-IsTidy : {f f' : Flow} → ParseStep w f f' → IsTidy f.dedup → IsTidy f'.dedup
  unfolding open_worker begin_target
  ParseStep-IsTidy (receives_source src rest e n) h = h
  ParseStep-IsTidy (opens src e r) h = h
  ParseStep-IsTidy (reports before behind wk t ts seen r e i l o) h = h
  ParseStep-IsTidy {f} (begins before behind wk t ts now e i l o) h = record {
    drained = begin-IsDrained w.host_of f.dedup (w.key_of t) t now h.drained;
    unique = begin-IsUnique w.host_of f.dedup (w.key_of t) t now h.unique;
  }
  ParseStep-IsTidy {f} (finishes before behind wk key t d emit e i o) h =
      finish-IsTidy w.host_of f.dedup d key t emit o h
  ParseStep-IsTidy (sends_job before behind wk j e i r) h = h
  ParseStep-IsTidy (drops_job before behind wk j e i d) h = h
  ParseStep-IsTidy (leaves before behind wk e i l) h = h
  ParseStep-IsTidy (closes_jobs o d e s n) h = h

  ExecStep-IsTidy : {f f' : Flow} → ExecStep w f f' → IsTidy f.dedup → IsTidy f'.dedup
  ExecStep-IsTidy (receives_job j rest e n) h = h
  ExecStep-IsTidy (executes j e r) h = h
  ExecStep-IsTidy (stores before behind j client now e) h = record {
    drained = h.drained;
    unique = h.unique;
  }
  ExecStep-IsTidy {f} (completes before behind j res d occs e g) h =
      complete-IsTidy f.dedup d j.key res occs g h

  CrawlStep-dedup : {f f' : Flow} → CrawlStep w f f' → f'.dedup ≡ f.dedup
  CrawlStep-dedup (sends_file src rest o e r) = refl
  CrawlStep-dedup (ends_crawl o e) = refl
  CrawlStep-dedup (stops_crawl o d) = refl

  PaceStep-dedup : {f f' : Flow} → PaceStep w f f' → f'.dedup ≡ f.dedup
  PaceStep-dedup (dispatches j rest c e) = refl
  PaceStep-dedup (closes_pacers c d e) = refl
  PaceStep-dedup (takes before behind host x j q e y h c l) = refl
  PaceStep-dedup (exits before behind host x e y h c l d) = refl
  PaceStep-dedup (gives_up before behind host x e y c) = refl
  PaceStep-dedup (starves before behind host x j e y i c) = refl
  PaceStep-dedup (releases before behind host x j e y h r) = refl
  PaceStep-dedup (closes_ready r c a) = refl

  pub Step-IsTidy : {f f' : Flow} → Step w f f' → IsTidy f.dedup → IsTidy f'.dedup
  Step-IsTidy (crawls s) h = rw (CrawlStep-dedup s) h
  Step-IsTidy (parses s) h = ParseStep-IsTidy s h
  Step-IsTidy (paces s) h = rw (PaceStep-dedup s) h
  Step-IsTidy (works s) h = ExecStep-IsTidy s h
  Step-IsTidy (cancels o e) h = rw e h
