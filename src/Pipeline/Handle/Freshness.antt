-- ===== src/Pipeline/Handle/Freshness.antt =====
-- internal/pipeline/pipeline.go: the anchors that a run remembers.
use markdown_linkerator.Base.{
  All, ◌≡◌, inl, inr, Option, some, List, [], ◌∷◌, arith, Text, Map, lookup, insert, text_eq,
  text_eq_iff, Option-cases, Bool-cases,
}
use markdown_linkerator.Model.{Target}
use markdown_linkerator.Config.Resolve.{Resolved}
use markdown_linkerator.Pipeline.Handle.{file_anchors, check_file_target, needs_anchors}

module _ (read_anchors : Text → Option (List Text)) where
  -- What the cache of anchors holds was read from the file.
  abbrev pub IsFresh : Map (List Text) → Type 0
  IsFresh = All (λ (b : Text × List Text). read_anchors b.0 ≡ some b.1)

  lookup_fresh :
      (seen : Map (List Text)) (path : Text) (a : List Text)
      → IsFresh seen
      → lookup path seen ≡ some a
      → read_anchors path ≡ some a
  unfolding lookup
  lookup_fresh [] path a f e = absurd (ground arith)
  lookup_fresh ((j, b) ∷ seen) path a f e = elim (Bool-cases (text_eq j path)) [
    | inl y ↦ ground (arith, text_eq_iff j path, f.0)
    | inr y ↦ lookup_fresh seen path a f.1 (ground arith)
  ]

  insert-IsFresh :
      (seen : Map (List Text)) (path : Text) (a : List Text)
      → IsFresh seen
      → read_anchors path ≡ some a
      → IsFresh (insert path a seen)
  unfolding insert
  insert-IsFresh [] path a f r = (r, tt)
  insert-IsFresh ((j, b) ∷ seen) path a f r = elim (Bool-cases (text_eq j path)) [
    | inl y ↦ rw y (r, f.1)
    | inr y ↦ rw y (f.0, insert-IsFresh seen path a f.1 r)
  ]

  file_anchors-IsFresh :
      (seen : Map (List Text)) (path : Text)
      → IsFresh seen
      → ((file_anchors read_anchors seen path).1 ≡ read_anchors path)
        × IsFresh (file_anchors read_anchors seen path).0
  unfolding file_anchors
  file_anchors-IsFresh seen path f = elim (Option-cases (lookup path seen)) [
    | inr (a, n) ↦ (ground (arith, lookup_fresh seen path a f n), rw (file_anchors, n) f)
    | inl n ↦ elim (Option-cases (read_anchors path)) [
      | inl r ↦ (ground arith, rw (file_anchors, n, r) f)
      | inr (a, r) ↦ (ground arith, rw (file_anchors, n, r) (insert-IsFresh seen path a f r))
    ]
  ]

  -- While files do not change, the verdict on a file link is that of the file's own anchors, read or
  -- remembered: the cache of anchors never changes it, and stays true to the files.
  pub check_file_target-IsFresh :
      {F R : Type 0} (cfg : Resolved F R) (stat unescape : Text → Option Text)
      (seen : Map (List Text)) (t : Target)
      → IsFresh seen
      → ((check_file_target read_anchors cfg stat unescape seen t).1
          ≡ (check_file_target read_anchors cfg stat unescape [] t).1)
        × IsFresh (check_file_target read_anchors cfg stat unescape seen t).0
  unfolding check_file_target
  check_file_target-IsFresh cfg stat unescape seen t f =
      elim (Bool-cases (needs_anchors read_anchors cfg stat unescape t)) [
        | inl e ↦ (
          ground
              (arith, (file_anchors-IsFresh seen t.url f).0, (file_anchors-IsFresh [] t.url tt).0),
          rw e (file_anchors-IsFresh seen t.url f).1,
        )
        | inr e ↦ (ground arith, rw e f)
      ]
