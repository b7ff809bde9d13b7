-- ===== src/Report/Group/Files.antt =====
-- internal/report/report.go: the groups of a sorted report.
use mathlib.Core.List.{flatten}
use markdown_linkerator.Base.{
  ◌≡◌, refl, sym, ap, inl, inr, true, false, List, [], ◌∷◌, arith, if◌then◌else◌, All, All-append,
  Text, text_eq, text_eq_iff, text_lt, text_lt_irrefl, text_lt_total, text_lt_asymm,
  text_lt_not_trans, IsSorted, Bool-cases,
}
use markdown_linkerator.Model.{Result}
use markdown_linkerator.Report.{target_less, result_less}
use markdown_linkerator.Report.Group.{
  file_of, add_to_groups, group_onto, group_by_file, flatten-group_onto,
}

-- A group is not empty, and its results are all of one file.
abbrev pub OfFile : Text → List Result → Type 0
OfFile f [] = ⊥
OfFile f (r ∷ rs) = (file_of r ≡ f) × All (λ x. file_of x ≡ f) rs

-- The groups are of these files, one each.
abbrev pub OfFiles : List Text → List (List Result) → Type 0
OfFiles [] [] = Unit
OfFiles (f ∷ fs) (g ∷ gs) = OfFile f g × OfFiles fs gs
OfFiles _ _ = ⊥

-- Every file stands before the next one, so no file occurs twice.
abbrev pub Ascends : List Text → Type 0
Ascends [] = Unit
Ascends (f ∷ fs) = All (λ g. text_lt f g ≡ true) fs × Ascends fs

next_files : List Text → Text → List Text
next_files [] t = t ∷ []
next_files (f ∷ []) t = if text_eq f t then f ∷ [] else f ∷ t ∷ []
next_files (f ∷ g ∷ fs) t = f ∷ next_files (g ∷ fs) t

All-next_files {ℓ} :
    (P : Text → Type ℓ) (fs : List Text) (t : Text) → All P fs → P t → All P (next_files fs t)
unfolding next_files
All-next_files P [] t a h = (h, tt)
All-next_files P (f ∷ []) t a h = elim (Bool-cases (text_eq f t)) [
  | inl e ↦ rw e a
  | inr e ↦ rw e (a.0, (h, tt))
]
All-next_files P (f ∷ g ∷ fs) t a h = (a.0, All-next_files P (g ∷ fs) t a.1 h)

Ascends-next_files :
    (fs : List Text) (t : Text)
    → Ascends fs
    → All (λ f. text_lt t f ≡ false) fs
    → Ascends (next_files fs t)
unfolding next_files
Ascends-next_files [] t a b = (tt, tt)
Ascends-next_files (f ∷ []) t a b = elim (Bool-cases (text_eq f t)) [
  | inl e ↦ rw e a
  | inr e ↦ rw e ((ground (arith, text_eq_iff f t, text_lt_total f t, b.0), tt), (tt, tt))
]
Ascends-next_files (f ∷ g ∷ fs) t a b = (
  All-next_files (λ x. text_lt f x ≡ true) (g ∷ fs) t a.0
      (ground (
        arith,
        a.0.0,
        b.1.0,
        text_lt_not_trans g t f,
        text_lt_asymm f g,
        text_lt_total f t,
        text_lt_not_trans f t g,
      )),
  Ascends-next_files (g ∷ fs) t a.1 b.1,
)

OfFiles-add_to_groups :
    (fs : List Text) (gs : List (List Result)) (r : Result)
    → OfFiles fs gs
    → OfFiles (next_files fs (file_of r)) (add_to_groups gs r)
unfolding next_files add_to_groups
OfFiles-add_to_groups [] [] r o = ((refl, tt), tt)
OfFiles-add_to_groups (f ∷ []) ((x ∷ g) ∷ []) r o =
    let same : text_eq (file_of x) (file_of r) ≡ text_eq f (file_of r) =
      ap (λ t. text_eq t (file_of r)) o.0.0 in
    elim (Bool-cases (text_eq f (file_of r))) [
      | inl e ↦
          rw (same, e)
            (
              (
                o.0.0,
                All-append (λ x. file_of x ≡ f) g (r ∷ []) o.0.1
                    (sym ((text_eq_iff f (file_of r)).0 e), tt),
              ),
              tt,
            )
      | inr e ↦ rw (same, e) (o.0, ((refl, tt), tt))
    ]
OfFiles-add_to_groups (f ∷ e ∷ fs) (g ∷ h ∷ gs) r o =
    (o.0, OfFiles-add_to_groups (e ∷ fs) (h ∷ gs) r o.1)
OfFiles-add_to_groups [] (g ∷ gs) r o = absurd o
OfFiles-add_to_groups (f ∷ fs) [] r o = absurd o
OfFiles-add_to_groups (f ∷ []) ([] ∷ gs) r o = absurd o.0
OfFiles-add_to_groups (f ∷ []) ((x ∷ g) ∷ h ∷ gs) r o = absurd o.1
OfFiles-add_to_groups (f ∷ e ∷ fs) (g ∷ []) r o = absurd o.1

-- The results behind `t` in a sorted report are of `t` or of files after it.
abbrev From : Text → List Result → Type 0
From t = All (λ (r : Result). text_lt (file_of r) t ≡ false)

less_of_file : (a b : Result) → result_less b a ≡ false → text_lt (file_of b) (file_of a) ≡ false
unfolding target_less
less_of_file a b h = ground (arith, text_eq_iff (file_of b) (file_of a), text_lt_irrefl (file_of a))

From-sorted :
    (r : Result) (rs : List Result) → All (λ y. result_less y r ≡ false) rs → From (file_of r) rs
From-sorted r [] a = tt
From-sorted r (x ∷ rs) a = (less_of_file r x a.0, From-sorted r rs a.1)

not-lt_of-All :
    (fs : List Text) (t u : Text)
    → All (λ f. text_lt t f ≡ false) fs
    → text_lt u t ≡ false
    → All (λ f. text_lt u f ≡ false) fs
not-lt_of-All [] t u a h = tt
not-lt_of-All (f ∷ fs) t u a h = (text_lt_not_trans f t u a.0 h, not-lt_of-All fs t u a.1 h)

group_onto-files :
    (rs : List Result) (fs : List Text) (gs : List (List Result)) (t : Text)
    → OfFiles fs gs
    → Ascends fs
    → All (λ f. text_lt t f ≡ false) fs
    → From t rs
    → IsSorted result_less rs
    → (fs' : List Text) × OfFiles fs' (group_onto gs rs) × Ascends fs'
unfolding group_onto
group_onto-files [] fs gs t o a b h s = (fs, o, a)
group_onto-files (r ∷ rs) fs gs t o a b h s =
    let b' = not-lt_of-All fs t (file_of r) b h.0 in
    group_onto-files rs (next_files fs (file_of r)) (add_to_groups gs r) (file_of r)
      (OfFiles-add_to_groups fs gs r o) (Ascends-next_files fs (file_of r) a b')
      (All-next_files (λ f. text_lt (file_of r) f ≡ false) fs (file_of r) b'
        (text_lt_irrefl (file_of r)))
      (From-sorted r rs s.0) s.1

-- The groups of a sorted report hold its results in their order, one group for each file, in
-- ascending order of the file names: no file has two headings, and no heading stands over another
-- file's results or over none.
pub group_by_file-sorted :
    (rs : List Result)
    → IsSorted result_less rs
    → (flatten (group_by_file rs) ≡ rs)
      × ((fs : List Text) × OfFiles fs (group_by_file rs) × Ascends fs)
unfolding group_by_file flatten
group_by_file-sorted [] s = (refl, ([], tt, tt))
group_by_file-sorted (r ∷ rs) s = (
  flatten-group_onto (r ∷ rs) [],
  group_onto-files (r ∷ rs) [] [] (file_of r) tt tt tt
      (text_lt_irrefl (file_of r), From-sorted r rs s.0) s,
)
