-- ===== src/Extract/InlineCode/Spans.antt =====
-- internal/extract/anchors.go: what `removeInlineCode` leaves.
use markdown_linkerator.Base.{
  ℕ, zero, suc, ◌≤◌, ◌<◌, ◌≡◌, ◌∙◌, ap, sym, refl, ◌↔◌, inl, inr, Bool, true, false, none, some, [],
  ◌∷◌, ◌==◌, arith, or_else, length, Text, Option-cases,
}
use markdown_linkerator.Extract.InlineCode.{
  close_span, span_end, skip_span, keep, remove_from, remove_inline_code,
}
use markdown_linkerator.Extract.InlineCode.Delimited.{Spans, skip_span-Spans, Spans-skip_span}

-- Some backtick of the text opens a code span.
unfoldable pub has_span : ℕ → Text → Bool
has_span prev [] = false
has_span prev (c ∷ s) = elim (skip_span prev c s) [ some _ ↦ true | none ↦ has_span c s ]

same_text : {a b : Text} → some a ≡ some b → a ≡ b
same_text e = ap (λ o. or_else o []) e

close_span-length :
    (prev : ℕ) (s rest : Text) → close_span prev s ≡ some rest → length rest < length s
unfolding close_span
close_span-length prev [] rest e = absurd (ground arith)
close_span-length prev (c ∷ s) rest e = ground (arith, close_span-length c s rest)

skip_span-length :
    (prev c : ℕ) (s rest : Text) → skip_span prev c s ≡ some rest → length rest < length s
unfolding skip_span span_end
skip_span-length prev c [] rest e = absurd (ground arith)
skip_span-length prev c (d ∷ s) rest e = ground (arith, close_span-length d s rest)

remove_from-span :
    (fuel prev c : ℕ) (s rest : Text)
    → skip_span prev c s ≡ some rest
    → remove_from (suc fuel) prev (c ∷ s) ≡ remove_from fuel 96 rest
unfolding remove_from
remove_from-span fuel prev c s rest e = ground arith

remove_from-keep :
    (fuel prev c : ℕ) (s : Text)
    → skip_span prev c s ≡ none
    → remove_from (suc fuel) prev (c ∷ s) ≡ keep c (remove_from fuel c s)
unfolding remove_from
remove_from-keep fuel prev c s e = ground arith

-- The loop ends: fuel for each byte of the text is enough, wherever it starts.
pub remove_from_total :
    (fuel prev : ℕ) (s : Text) → length s ≤ fuel → (r : Text) × (remove_from fuel prev s ≡ some r)
unfolding remove_from
remove_from_total fuel prev [] h = ([], refl)
remove_from_total zero prev (c ∷ s) h = absurd (omega arith)
remove_from_total (suc fuel) prev (c ∷ s) h = elim (Option-cases (skip_span prev c s)) [
  | inr (rest, e) ↦
      let shorter = skip_span-length prev c s rest e in
      let ih = remove_from_total fuel 96 rest (omega arith) in
      (ih.0, remove_from-span fuel prev c s rest e ∙ ih.1)
  | inl e ↦
      let ih = remove_from_total fuel c s (omega arith) in
      (c ∷ ih.0, remove_from-keep fuel prev c s e ∙ ap (keep c) ih.1)
]

-- A search that finds no delimiter finds none further on.
close_span_tail : (prev c : ℕ) (s : Text) → close_span prev (c ∷ s) ≡ none → close_span c s ≡ none
unfolding close_span
close_span_tail prev c s e = ground arith

span_end_tail : (c : ℕ) (s : Text) → span_end (c ∷ s) ≡ none → span_end s ≡ none
unfolding span_end
span_end_tail c [] e = refl
span_end_tail c (d ∷ s) e = close_span_tail c d s e

skip_span-none : (prev c : ℕ) (s : Text) → span_end s ≡ none → skip_span prev c s ≡ none
unfolding skip_span
skip_span-none prev c s e = ground arith

-- A span opens behind no backslash.
skip_span_opens :
    (prev c : ℕ) (s rest : Text) → skip_span prev c s ≡ some rest → (prev == 92) ≡ false
unfolding skip_span
skip_span_opens prev c s rest e = ground arith

has_span_step :
    (prev c : ℕ) (s : Text)
    → has_span prev (c ∷ s) ≡ false
    → (skip_span prev c s ≡ none) × (has_span c s ≡ false)
unfolding has_span
has_span_step prev c s e = ground arith

has_span_cons :
    (prev c : ℕ) (s : Text)
    → skip_span prev c s ≡ none
    → has_span c s ≡ false
    → has_span prev (c ∷ s) ≡ false
unfolding has_span
has_span_cons prev c s e rest = ground arith

-- Where no closing delimiter follows, nothing is removed.
span_end_fixed :
    (fuel prev : ℕ) (s : Text)
    → length s ≤ fuel
    → span_end s ≡ none
    → remove_from fuel prev s ≡ some s
unfolding remove_from
span_end_fixed fuel prev [] h e = refl
span_end_fixed zero prev (c ∷ s) h e = absurd (omega arith)
span_end_fixed (suc fuel) prev (c ∷ s) h e =
    let tail = span_end_tail c s e in
    remove_from-keep fuel prev c s (skip_span-none prev c s tail)
    ∙ ap (keep c) (span_end_fixed fuel c s (omega arith) tail)

-- A text in which no span opens is left as it is.
has_span_fixed :
    (fuel prev : ℕ) (s : Text)
    → length s ≤ fuel
    → has_span prev s ≡ false
    → remove_from fuel prev s ≡ some s
unfolding remove_from
has_span_fixed fuel prev [] h e = refl
has_span_fixed zero prev (c ∷ s) h e = absurd (omega arith)
has_span_fixed (suc fuel) prev (c ∷ s) h e =
    let step = has_span_step prev c s e in
    remove_from-keep fuel prev c s step.0
    ∙ ap (keep c) (has_span_fixed fuel c s (omega arith) step.1)

-- A delimiter that was kept opens no span in the result either.
kept_span :
    (fuel prev q c : ℕ) (s t : Text)
    → (q == 92) ≡ (prev == 92)
    → length s ≤ fuel
    → skip_span prev c s ≡ none
    → remove_from fuel c s ≡ some t
    → skip_span q c t ≡ none
unfolding skip_span
kept_span fuel prev q c s t same h step e = elim (Option-cases (span_end s)) [
  | inl ends ↦
      skip_span-none q c t (ap span_end (same_text (sym e ∙ span_end_fixed fuel c s h ends)) ∙ ends)
  | inr (rest, ends) ↦ ground arith
]

-- The loop leaves no span: the byte before the text may differ from the one before the result, as
-- long as both or neither are a backslash.
remove_from-has_span :
    (fuel prev q : ℕ) (s r : Text)
    → (q == 92) ≡ (prev == 92)
    → length s ≤ fuel
    → remove_from fuel prev s ≡ some r
    → has_span q r ≡ false
unfolding remove_from has_span
remove_from-has_span fuel prev q [] [] same h e = refl
remove_from-has_span fuel prev q [] (d ∷ r) same h e = absurd (ground arith)
remove_from-has_span zero prev q (c ∷ s) r same h e = absurd (omega arith)
remove_from-has_span (suc fuel) prev q (c ∷ s) r same h e =
    elim (Option-cases (skip_span prev c s)) [
      | inr (rest, step) ↦
          let shorter = skip_span-length prev c s rest step in
          remove_from-has_span fuel 96 q rest r (same ∙ skip_span_opens prev c s rest step)
            (omega arith) (sym (remove_from-span fuel prev c s rest step) ∙ e)
      | inl step ↦
          let rest = remove_from_total fuel c s (omega arith) in
          let parts : r ≡ c ∷ rest.0 =
            same_text (sym e ∙ remove_from-keep fuel prev c s step ∙ ap (keep c) rest.1) in
          ap (has_span q) parts
          ∙ has_span_cons q c rest.0
              (kept_span fuel prev q c s rest.0 same (omega arith) step rest.1)
              (remove_from-has_span fuel c c s rest.0 refl (omega arith) rest.1)
    ]

remove_inline_code_result : (s : Text) → remove_from (length s) 0 s ≡ some (remove_inline_code s)
unfolding remove_inline_code
remove_inline_code_result s =
    let all = remove_from_total (length s) 0 s (omega arith) in ground arith

-- The text `r` is `s`, which follows the byte `prev`, read from left to right, without the code spans that
-- open in it: all else is kept.
pub data Stripped : ℕ → Text → Text → Type 0 where
  at_end : {prev : ℕ} → Stripped prev [] []
  keeps :
      {prev c : ℕ} {s r : Text}
      → ((rest : Text) → Spans prev c s rest → ⊥)
      → Stripped c s r
      → Stripped prev (c ∷ s) (c ∷ r)
  drops :
      {prev c : ℕ} {s rest r : Text}
      → Spans prev c s rest
      → Stripped b'`' rest r
      → Stripped prev (c ∷ s) r

no_span :
    (prev c : ℕ) (s : Text) → skip_span prev c s ≡ none → (rest : Text) → Spans prev c s rest → ⊥
no_span prev c s e rest x = let found = Spans-skip_span prev c s rest x in absurd (ground arith)

remove_from-Stripped :
    (fuel prev : ℕ) (s r : Text)
    → length s ≤ fuel
    → remove_from fuel prev s ≡ some r
    → Stripped prev s r
unfolding remove_from
remove_from-Stripped fuel prev [] [] h e = at_end
remove_from-Stripped fuel prev [] (d ∷ r) h e = absurd (ground arith)
remove_from-Stripped zero prev (c ∷ s) r h e = absurd (omega arith)
remove_from-Stripped (suc fuel) prev (c ∷ s) r h e = elim (Option-cases (skip_span prev c s)) [
  | inr (rest, step) ↦
      let shorter = skip_span-length prev c s rest step in
      drops (skip_span-Spans prev c s rest step) (
        remove_from-Stripped fuel 96 rest r (omega arith)
          (sym (remove_from-span fuel prev c s rest step) ∙ e))
  | inl step ↦
      let rest = remove_from_total fuel c s (omega arith) in
      let parts : r ≡ c ∷ rest.0 =
        same_text (sym e ∙ remove_from-keep fuel prev c s step ∙ ap (keep c) rest.1) in
      rw parts
        (keeps (no_span prev c s step) (remove_from-Stripped fuel c s rest.0 (omega arith) rest.1))
]

-- What `removeInlineCode` returns is the text without the code spans that open in it from left to right, and
-- with all else kept, where a code span goes from a backtick that no backslash escapes to the next such that
-- leaves one byte at least between the two; no code span is left in it, and it is the text itself exactly
-- where that has none.
pub remove_inline_code_complete :
    (s : Text)
    → (has_span 0 (remove_inline_code s) ≡ false)
      × ((has_span 0 s ≡ false) ↔ (remove_inline_code s ≡ s))
      × Stripped 0 s (remove_inline_code s)
unfolding remove_inline_code
remove_inline_code_complete s =
    let clean =
      remove_from-has_span (length s) 0 0 s (remove_inline_code s) refl (omega arith)
        (remove_inline_code_result s) in
    (
      clean,
      (
        λ none_in. ap (λ o. or_else o []) (has_span_fixed (length s) 0 s (omega arith) none_in),
        λ same. ap (has_span 0) (sym same) ∙ clean,
      ),
      remove_from-Stripped (length s) 0 s (remove_inline_code s) (omega arith)
          (remove_inline_code_result s),
    )
