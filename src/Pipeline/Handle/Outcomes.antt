-- ===== src/Pipeline/Handle/Outcomes.antt =====
-- internal/pipeline/pipeline.go: what a target and a job add to a run.
use markdown_linkerator.Base.{
  ◌≡◌, ◌≢◌, refl, ◌⊎◌, inl, inr, Bool, true, false, ◌||◌, Option, some, List, [], ◌∷◌, ◌++◌, arith,
  Text, text, Map, ℤ, Bool-cases,
}
use markdown_linkerator.Model.{Kind, Target, Result, State, http, file_rel, hash_local, mailto}
use markdown_linkerator.Config.Resolve.{Resolved}
use markdown_linkerator.RateLimit.{Rates, HostState}
use markdown_linkerator.Checker.Local.{is_ignored, check_hash, check_file, check_mailto, verdict}
use markdown_linkerator.Pipeline.Dedup.{Dedup}
use markdown_linkerator.Pipeline.Handle.{
  Run, add_results, file_anchors, check_file_target, judge_anchors, handle_http, handle_target,
}

pub check_hash-target :
    (unescape : Text → Option Text) (t : Target) (anchors : List Text)
    → (check_hash unescape t anchors).target ≡ t
unfolding check_hash
check_hash-target unescape t anchors = ground arith

pub check_file-target : (stat : Text → Option Text) (t : Target) → (check_file stat t).target ≡ t
unfolding check_file
check_file-target stat t = ground arith

pub check_mailto-target :
    {F R : Type 0} (parse_address : Text → Option Text) (lookup_mx : Text → Option (List Text))
    (quote : Text → Text) (t : Target) (cfg : Resolved F R)
    → (check_mailto parse_address lookup_mx quote t cfg).target ≡ t
unfolding check_mailto
check_mailto-target parse_address lookup_mx quote t cfg = ground arith

judge_anchors-target :
    {F R : Type 0} (read_anchors : Text → Option (List Text)) (cfg : Resolved F R)
    (stat unescape : Text → Option Text) (t : Target) (read : Option (List Text))
    → (judge_anchors read_anchors cfg stat unescape t read).target ≡ t
unfolding judge_anchors
judge_anchors-target read_anchors cfg stat unescape t read =
    ground (arith, check_file-target stat t)

pub check_file_target-target :
    {F R : Type 0} (read_anchors : Text → Option (List Text)) (cfg : Resolved F R)
    (stat unescape : Text → Option Text) (seen : Map (List Text)) (t : Target)
    → (check_file_target read_anchors cfg stat unescape seen t).1.target ≡ t
unfolding check_file_target
check_file_target-target read_anchors cfg stat unescape seen t = ground (
  arith,
  check_file-target stat t,
  judge_anchors-target read_anchors cfg stat unescape t (file_anchors read_anchors seen t.url).1,
)

module _ (m : Rates) {R : Type 0} (cfg : Resolved m.F R) (host_of : Text → Text) where
  open m use {F, Limiter}

  kind_cases : (k : Kind) → (k ≡ http) ⊎ ((k ≡ file_rel) ⊎ ((k ≡ hash_local) ⊎ (k ≡ mailto)))
  kind_cases http = inl refl
  kind_cases file_rel = inr (inl refl)
  kind_cases hash_local = inr (inr (inl refl))
  kind_cases mailto = inr (inr (inr refl))

  module _ (matches : R → Text → Bool) (stat unescape : Text → Option Text)
      (read_anchors lookup_mx : Text → Option (List Text)) (parse_address : Text → Option Text)
      (quote normalize_key : Text → Text) where
    -- One result for the target, and no request.
    abbrev pub Settles :
        Run (HostState F Limiter) → Target → Option (Run (HostState F Limiter)) → Type 0
    Settles run t o =
        (run' : Run (HostState F Limiter)) × (r : Result) × (o ≡ some run')
        × (run'.results ≡ run.results ++ (r ∷ []))
        × (r.target ≡ t)
        × (run'.dedup ≡ run.dedup)
        × (run'.jobs ≡ run.jobs)

    settle :
        (run : Run (HostState F Limiter)) (t : Target) (o : Option (Run (HostState F Limiter)))
        (c : Map (List Text)) (r : Result)
        → o ≡ some (record (add_results run (r ∷ [])) { anchor_cache = c })
        → r.target ≡ t
        → Settles run t o
    unfolding add_results
    settle run t o c r e h =
        (record (add_results run (r ∷ [])) { anchor_cache = c }, r, e, refl, h, refl, refl)

    -- A target that is ignored by its raw text or by its URL, is no http link, or is one while external checks are off, gets
    -- exactly one result of its own at once, and leads to no job.
    pub handle_target_offline :
        (sends : Bool) (anchors : List Text) (now : ℤ) (run : Run (HostState F Limiter))
        (t : Target)
        → ((is_ignored matches t.raw cfg.ignore_patterns ≡ true)
            ⊎ (is_ignored matches t.url cfg.ignore_patterns ≡ true))
          ⊎ ((t.kind ≢ http) ⊎ (cfg.check_external ≡ false))
        → Settles run t (
            handle_target m cfg host_of matches stat unescape read_anchors lookup_mx parse_address
              quote normalize_key sends anchors now run t)
    unfolding handle_target handle_http add_results
    handle_target_offline sends anchors now run t h =
        elim (Bool-cases (
          is_ignored matches t.raw cfg.ignore_patterns
          || is_ignored matches t.url cfg.ignore_patterns)) [
            | inl i ↦
                settle run t _ run.anchor_cache (verdict t State.ignored 0 []) (ground arith) refl
            | inr i ↦ elim (kind_cases t.kind) [
              | inl k ↦
                  settle run t _ run.anchor_cache
                    (verdict t State.ignored 0 (text "external checks disabled")) (ground arith)
                    refl
              | inr (inl k) ↦
                  let c = check_file_target read_anchors cfg stat unescape run.anchor_cache t in
                  settle run t _ c.0 c.1 (ground arith)
                    (check_file_target-target read_anchors cfg stat unescape run.anchor_cache t)
              | inr (inr (inl k)) ↦
                  settle run t _ run.anchor_cache (check_hash unescape t anchors) (ground arith)
                    (check_hash-target unescape t anchors)
              | inr (inr (inr k)) ↦
                  settle run t _ run.anchor_cache (check_mailto parse_address lookup_mx quote t cfg)
                    (ground arith) (check_mailto-target parse_address lookup_mx quote t cfg)
            ]
          ]
