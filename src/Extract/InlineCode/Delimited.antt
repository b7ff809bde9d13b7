-- ===== src/Extract/InlineCode/Delimited.antt =====
-- internal/extract/anchors.go: what a code span is for `removeInlineCode`.
use markdown_linkerator.Base.{
  ℕ, ◌≡◌, ◌≢◌, ◌↔◌, refl, ◌⊎◌, inl, inr, true, some, [], ◌∷◌, arith, Text, Bool-cases,
}
use markdown_linkerator.Extract.InlineCode.{is_delimiter, close_span, span_end, skip_span}

-- `rest` stands behind the first backtick of the text, which follows the byte `prev`, that no backslash escapes.
pub data Closes : ℕ → Text → Text → Type 0 where
  closes_here : {prev : ℕ} {s : Text} → prev ≢ 92 → Closes prev (96 ∷ s) s
  closes_later :
      {prev c : ℕ} {s rest : Text}
      → (c ≢ 96) ⊎ (prev ≡ 92)
      → Closes c s rest
      → Closes prev (c ∷ s) rest

-- A code span begins with `c`, which follows the byte `prev`, and ends before `rest`: from one backtick that
-- no backslash escapes to the next such, with one byte at least between them.
abbrev pub Spans : ℕ → ℕ → Text → Text → Type 0
Spans prev c s rest =
    (c ≡ 96)
    × (prev ≢ 92)
    × (inner : ℕ) × (more : Text) × (s ≡ inner ∷ more)
    × Closes inner more rest

is_delimiter_iff : (prev c : ℕ) → (is_delimiter prev c ≡ true) ↔ ((c ≡ 96) × (prev ≢ 92))
is_delimiter_iff prev c = ground arith

close_span-Closes : (prev : ℕ) (s rest : Text) → close_span prev s ≡ some rest → Closes prev s rest
unfolding close_span
close_span-Closes prev [] rest e = absurd (ground arith)
close_span-Closes prev (c ∷ s) rest e = elim (Bool-cases (is_delimiter prev c)) [
  | inl d ↦
      let (tick, free) = (is_delimiter_iff prev c).0 d in
      let same : s ≡ rest = ground arith in rw (tick, same) (closes_here free)
  | inr d ↦ closes_later (ground arith) (close_span-Closes c s rest (ground arith))
]

Closes-close_span : (prev : ℕ) (s rest : Text) → Closes prev s rest → close_span prev s ≡ some rest
unfolding close_span
Closes-close_span prev [] rest t = elim t [ ]
Closes-close_span prev (_ ∷ s) _ (closes_here free) = ground arith
Closes-close_span prev (c ∷ s) rest (closes_later plain t) =
    ground (arith, Closes-close_span c s rest t)

pub skip_span-Spans :
    (prev c : ℕ) (s rest : Text) → skip_span prev c s ≡ some rest → Spans prev c s rest
unfolding skip_span span_end
skip_span-Spans prev c [] rest e = absurd (ground arith)
skip_span-Spans prev c (d ∷ s) rest e =
    let (tick, free) = (is_delimiter_iff prev c).0 (ground arith) in
    (tick, free, d, s, refl, close_span-Closes d s rest (ground arith))

pub Spans-skip_span :
    (prev c : ℕ) (s rest : Text) → Spans prev c s rest → skip_span prev c s ≡ some rest
unfolding skip_span span_end
Spans-skip_span prev c s rest (tick, free, inner, more, e, t) =
    rw e (ground (arith, Closes-close_span inner more rest t))
