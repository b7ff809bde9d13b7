-- ===== src/Report/Group.antt =====
-- internal/report/report.go: `groupByFile`.
pub mod Files
use mathlib.Core.List.{flatten, append-nil, append_assoc}
use markdown_linkerator.Base.{
  ℕ, suc, ◌+◌, ◌≡◌, ◌≢◌, refl, sym, ap, ◌∙◌, ◌⊎◌, inl, inr, Bool, true, false, not, ◌||◌, Option,
  none, some, List, [], ◌∷◌, ◌++◌, arith, if◌then◌else◌, All, All-append, Text, text_eq,
  text_eq_iff, text_eq_refl, text_lt, text_lt_irrefl, text_lt_total, text_lt_trans, text_lt_asymm,
  text_lt_not_trans, IsSorted, Bool-cases,
}
use markdown_linkerator.Model.{Target, Result}
use markdown_linkerator.Report.{target_less, result_less, failures_only, is_failure}

abbrev pub file_of : Result → Text
file_of r = r.target.source_file

-- `groups[n-1][0]` is in the same file. A group is never empty.
pub same_file : List Result → Result → Bool
same_file [] r = false
same_file (x ∷ xs) r = text_eq (file_of x) (file_of r)

-- One round of the loop: `r` goes to the last group, or opens a new one.
unfoldable pub add_to_groups : List (List Result) → Result → List (List Result)
unfolding same_file
add_to_groups [] r = (r ∷ []) ∷ []
add_to_groups (g ∷ []) r = if same_file g r then (g ++ (r ∷ [])) ∷ [] else g ∷ (r ∷ []) ∷ []
add_to_groups (g ∷ h ∷ gs) r = g ∷ add_to_groups (h ∷ gs) r

pub group_onto : List (List Result) → List Result → List (List Result)
group_onto groups [] = groups
group_onto groups (r ∷ rs) = group_onto (add_to_groups groups r) rs

unfoldable pub group_by_file : List Result → List (List Result)
unfolding group_onto
group_by_file rs = group_onto [] rs

flatten-add_to_groups :
    (gs : List (List Result)) (r : Result) → flatten (add_to_groups gs r) ≡ flatten gs ++ (r ∷ [])
unfolding add_to_groups flatten
flatten-add_to_groups [] r = refl
flatten-add_to_groups (g ∷ []) r = elim (Bool-cases (same_file g r)) [
  | inl e ↦ rw e (simp append-nil)
  | inr e ↦ rw e (simp append-nil)
]
flatten-add_to_groups (g ∷ h ∷ gs) r =
    rw (flatten-add_to_groups (h ∷ gs) r) (sym (append_assoc g (flatten (h ∷ gs)) (r ∷ [])))

pub flatten-group_onto :
    (rs : List Result) (gs : List (List Result)) → flatten (group_onto gs rs) ≡ flatten gs ++ rs
unfolding group_onto flatten
flatten-group_onto [] gs = sym (append-nil (flatten gs))
flatten-group_onto (r ∷ rs) gs =
    flatten-group_onto rs (add_to_groups gs r)
    ∙ ap (λ l. l ++ rs) (flatten-add_to_groups gs r)
    ∙ append_assoc (flatten gs) (r ∷ []) rs
