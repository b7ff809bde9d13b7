-- ===== src/Extract/Targets/Lines.antt =====
-- internal/extract/extract.go: the bounds of line numbers and of spans.
use markdown_linkerator.Base.{
  ℕ, zero, suc, ◌+◌, ◌≤◌, Bool, [], ◌∷◌, ◌==◌, ltb, arith, if◌then◌else◌, length, count, take, Text,
  ℤ, pos_part, ◌≤ℤ◌,
}
use markdown_linkerator.Extract.Targets.{line_at}

abbrev pub is_line_feed : ℕ → Bool
is_line_feed c = c == 10

count-take_bound : (n : ℕ) (src : Text) → count is_line_feed (take n src) ≤ count is_line_feed src
unfolding take
count-take_bound zero src = omega arith
count-take_bound (suc n) [] = omega arith
count-take_bound (suc n) (c ∷ src) = ground (arith, count-take_bound n src)

count-take_mono :
    (n k : ℕ) (src : Text)
    → n ≤ k
    → count is_line_feed (take n src) ≤ count is_line_feed (take k src)
unfolding take
count-take_mono zero k src h = omega arith
count-take_mono (suc n) zero src h = absurd (omega arith)
count-take_mono (suc n) (suc k) [] h = omega arith
count-take_mono (suc n) (suc k) (c ∷ src) h = ground (arith, count-take_mono n k src)

-- A line number is one of the file's, whatever the offset, and a later offset never has a smaller one.
pub line_at_bounds :
    (src : Text) (off later : ℤ)
    → off ≤ℤ later
    → (1 ≤ line_at src off)
      × (line_at src off ≤ line_at src later)
      × (line_at src later ≤ 1 + count is_line_feed src)
unfolding line_at
line_at_bounds src off later h =
    let clamp : ℤ → ℕ = λ o. if ltb (length src) (pos_part o) then length src else pos_part o in
    (
      omega arith,
      ground (arith, count-take_mono (clamp off) (clamp later) src),
      ground (arith, count-take_bound (clamp later) src),
    )
