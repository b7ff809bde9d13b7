-- ===== src/Extract/Anchors/Newlines.antt =====
-- internal/extract/anchors.go: what `normalizeNewlines` makes of the three kinds of line ends.
use markdown_linkerator.Base.{
  ℕ, ◌≡◌, refl, Bool, true, false, ◌&&◌, [], ◌∷◌, ◌==◌, arith, if◌then◌else◌, Text, has_prefix,
  has_char, replace_from,
}
use markdown_linkerator.Extract.Anchors.{normalize_newlines}

-- One pass over the text: CR, LF and CR LF each become one LF. The flag says whether a CR stands before.
unfoldable pub unify_lines : Bool → Text → Text
unify_lines after_cr [] = []
unify_lines after_cr (c ∷ s) =
    let behind_cr = unify_lines true s in
    let behind = unify_lines false s in
    if c == 13 then 10 ∷ behind_cr else if after_cr && c == 10 then behind else c ∷ behind

abbrev both : ℕ → Text → Text
both k s = replace_from (13 ∷ []) (10 ∷ []) 0 (replace_from (13 ∷ 10 ∷ []) (10 ∷ []) k s)

abbrev starts_lf : Text → Bool
starts_lf [] = false
starts_lf (c ∷ s) = c == 10

-- How much of the text the replacement of CR LF has still to pass over, behind a CR.
abbrev passed : Text → ℕ
passed s = if starts_lf s then 1 else 0

both_step :
    (c : ℕ) (s : Text) → both 0 (c ∷ s) ≡ (if c == 13 then 10 ∷ both (passed s) s else c ∷ both 0 s)
unfolding replace_from has_prefix
both_step c [] = ground arith
both_step c (d ∷ s) = ground arith

both_pass : (c : ℕ) (s : Text) → both 1 (c ∷ s) ≡ both 0 s
unfolding replace_from
both_pass c s = refl

both-unify_lines :
    (s : Text) → (both 0 s ≡ unify_lines false s) × (both (passed s) s ≡ unify_lines true s)
unfolding unify_lines replace_from
both-unify_lines [] = (refl, refl)
both-unify_lines (c ∷ s) =
    let ih = both-unify_lines s in
    let step = both_step c s in let pass = both_pass c s in (ground arith, ground arith)

unify_lines_same : (s : Text) → has_char 13 s ≡ false → unify_lines false s ≡ s
unfolding unify_lines has_char
unify_lines_same [] h = refl
unify_lines_same (c ∷ s) h = ground (arith, unify_lines_same s)

-- Whatever mixture of line ends a file has, `normalizeNewlines` gives what one pass over it gives that
-- reads CR, LF and CR LF each as one line end.
pub normalize_newlines-unify_lines : (s : Text) → normalize_newlines s ≡ unify_lines false s
unfolding normalize_newlines
normalize_newlines-unify_lines s = ground (arith, both-unify_lines s, unify_lines_same s)
