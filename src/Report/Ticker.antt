-- ===== src/Report/Ticker.antt =====
-- internal/report/report.go: StartProgress, stopProgress and the order of the output. The ticker's goroutine, the
-- workers that call `Add`, and `Finish` share the collector; the collector's lock makes each write one step. A
-- line that is throttled is no step.
use markdown_linkerator.Base.{
  ◌≡◌, inl, inr, refl, Bool, true, false, not, Option, none, some, List, [], ◌∷◌, ◌++◌, arith,
  Bool-cases, count, count-append, if◌then◌else◌,
}

pub data Output : Type 0 where
  progress : Output
  report : Output

-- Where the engine stands: before `Finish`, in the wait of `stopProgress`, behind it, or behind the report.
pub data Phase : Type 0 where
  running waiting stopped rendered : Phase

-- `stop_tick` is nil, or a channel with whether it is closed. `ticking` says that the goroutine runs, and
-- `tick_done` that its channel is closed.
pub record Ticker : Type 0 where
  pub live_on : Bool
  pub stop_tick : Option Bool
  pub tick_done : Bool
  pub ticking : Bool
  pub phase : Phase
  pub written : List Output

abbrev pub new_ticker : Bool → Ticker
new_ticker live_on = record {
  live_on = live_on;
  stop_tick = none;
  tick_done = false;
  ticking = false;
  phase = running;
  written = [];
}

unfoldable pub start_progress : Ticker → Ticker
start_progress c =
    if not c.live_on
    then c
    else record c { stop_tick = some false; tick_done = false; ticking = true }

-- `Finish` up to the wait of `stopProgress`.
unfoldable pub stop_progress : Ticker → Ticker
stop_progress c =
    if c.live_on
    then elim c.stop_tick [
      | none ↦ record c { phase = stopped }
      | some closed ↦ record c { stop_tick = some true; phase = waiting }
    ]
    else record c { phase = stopped }

unfoldable pub write : Ticker → Output → Ticker
write c o = record c { written = c.written ++ (o ∷ []) }

pub data Step (c : Ticker) : Ticker → Type 0 where
  starts : c.phase ≡ running → c.stop_tick ≡ none → Step c (start_progress c)
  adds : c.phase ≡ running → Step c (write c progress)
  ticks : c.ticking ≡ true → Step c (write c progress)
  returns :
      c.ticking ≡ true
      → c.stop_tick ≡ some true
      → Step c (record c { ticking = false; tick_done = true })
  stops : c.phase ≡ running → Step c (stop_progress c)
  waited :
      c.phase ≡ waiting
      → c.tick_done ≡ true
      → Step c (record c { stop_tick = none; phase = stopped })
  renders : c.phase ≡ stopped → Step c (record (write c report) { phase = rendered })

pub data Reach (c : Ticker) : Ticker → Type 0 where
  here : Reach c c
  next : {d e : Ticker} → Reach c d → Step d e → Reach c e

abbrev pub is_report : Output → Bool
is_report progress = false
is_report report = true

-- Where a run can stand.
pub data IsSound (c : Ticker) : Type 0 where
  idle :
      c.phase ≡ running
      → c.stop_tick ≡ none
      → c.ticking ≡ false
      → count is_report c.written ≡ 0
      → IsSound c
  live :
      c.phase ≡ running
      → c.stop_tick ≡ some false
      → c.ticking ≡ true
      → c.live_on ≡ true
      → count is_report c.written ≡ 0
      → c.tick_done ≡ false
      → IsSound c
  leaving :
      c.phase ≡ waiting
      → c.stop_tick ≡ some true
      → c.ticking ≡ true
      → count is_report c.written ≡ 0
      → c.tick_done ≡ false
      → IsSound c
  left :
      c.phase ≡ waiting
      → c.tick_done ≡ true
      → c.ticking ≡ false
      → count is_report c.written ≡ 0
      → IsSound c
  over : c.phase ≡ stopped → c.ticking ≡ false → count is_report c.written ≡ 0 → IsSound c
  told :
      (lines : List Output)
      → c.phase ≡ rendered
      → c.ticking ≡ false
      → c.written ≡ lines ++ (report ∷ [])
      → count is_report lines ≡ 0
      → IsSound c

write_quiet :
    (c : Ticker) → count is_report c.written ≡ 0 → count is_report (write c progress).written ≡ 0
unfolding write
write_quiet c n = omega (arith, n, count-append is_report c.written (progress ∷ []))

Step-IsSound : {c d : Ticker} → Step c d → IsSound c → IsSound d
unfolding start_progress stop_progress write
Step-IsSound {c} (starts x y) (idle p q t n) = elim (Bool-cases c.live_on) [
  | inl l ↦ simp l (live p refl refl refl n refl)
  | inr l ↦ simp l (idle p q t n)
]
Step-IsSound (starts x y) (live p q t l n d) = absurd (ground arith)
Step-IsSound (starts x y) (leaving p q t n d) = absurd (ground arith)
Step-IsSound (starts x y) (left p d t n) = absurd (ground arith)
Step-IsSound (starts x y) (over p t n) = absurd (ground arith)
Step-IsSound (starts x y) (told ls p t w n) = absurd (ground arith)
Step-IsSound {c} (adds x) (idle p q t n) = idle p q t (write_quiet c n)
Step-IsSound {c} (adds x) (live p q t l n d) = live p q t l (write_quiet c n) d
Step-IsSound (adds x) (leaving p q t n d) = absurd (ground arith)
Step-IsSound (adds x) (left p d t n) = absurd (ground arith)
Step-IsSound (adds x) (over p t n) = absurd (ground arith)
Step-IsSound (adds x) (told ls p t w n) = absurd (ground arith)
Step-IsSound (ticks x) (idle p q t n) = absurd (ground arith)
Step-IsSound {c} (ticks x) (live p q t l n d) = live p q t l (write_quiet c n) d
Step-IsSound {c} (ticks x) (leaving p q t n d) = leaving p q t (write_quiet c n) d
Step-IsSound (ticks x) (left p d t n) = absurd (ground arith)
Step-IsSound (ticks x) (over p t n) = absurd (ground arith)
Step-IsSound (ticks x) (told ls p t w n) = absurd (ground arith)
Step-IsSound (returns x y) (idle p q t n) = absurd (ground arith)
Step-IsSound (returns x y) (live p q t l n d) = absurd (ground arith)
Step-IsSound (returns x y) (leaving p q t n d) = left p refl refl n
Step-IsSound (returns x y) (left p d t n) = absurd (ground arith)
Step-IsSound (returns x y) (over p t n) = absurd (ground arith)
Step-IsSound (returns x y) (told ls p t w n) = absurd (ground arith)
Step-IsSound {c} (stops x) (idle p q t n) = elim (Bool-cases c.live_on) [
  | inl l ↦ simp (l, q) (over refl t n)
  | inr l ↦ simp l (over refl t n)
]
Step-IsSound {c} (stops x) (live p q t l n d) = simp (l, q) (leaving refl refl t n d)
Step-IsSound (stops x) (leaving p q t n d) = absurd (ground arith)
Step-IsSound (stops x) (left p d t n) = absurd (ground arith)
Step-IsSound (stops x) (over p t n) = absurd (ground arith)
Step-IsSound (stops x) (told ls p t w n) = absurd (ground arith)
Step-IsSound (waited x y) (idle p q t n) = absurd (ground arith)
Step-IsSound (waited x y) (live p q t l n d) = absurd (ground arith)
Step-IsSound (waited x y) (leaving p q t n d) = absurd (ground arith)
Step-IsSound (waited x y) (left p d t n) = over refl t n
Step-IsSound (waited x y) (over p t n) = absurd (ground arith)
Step-IsSound (waited x y) (told ls p t w n) = absurd (ground arith)
Step-IsSound (renders x) (idle p q t n) = absurd (ground arith)
Step-IsSound (renders x) (live p q t l n d) = absurd (ground arith)
Step-IsSound (renders x) (leaving p q t n d) = absurd (ground arith)
Step-IsSound (renders x) (left p d t n) = absurd (ground arith)
Step-IsSound {c} (renders x) (over p t n) = told c.written refl t refl n
Step-IsSound (renders x) (told ls p t w n) = absurd (ground arith)

pub Reach-IsSound : {c d : Ticker} → IsSound c → Reach c d → IsSound d
Reach-IsSound h here = h
Reach-IsSound h (next r s) = Step-IsSound s (Reach-IsSound h r)

-- However the ticker, the workers and `Finish` interleave: what is written last is the report, it is written
-- once, and the ticker's goroutine has returned before.
pub report_is_last :
    (live_on : Bool) {c : Ticker}
    → Reach (new_ticker live_on) c
    → c.phase ≡ rendered
    → (c.ticking ≡ false)
      × ((lines : List Output) × (c.written ≡ lines ++ (report ∷ [])) × (count is_report lines ≡ 0))
report_is_last live_on {c} r e = at_end (Reach-IsSound (idle refl refl refl (omega arith)) r)
  where
    at_end :
        IsSound c
        → (c.ticking ≡ false)
          × ((lines : List Output) × (c.written ≡ lines ++ (report ∷ []))
              × (count is_report lines ≡ 0))
    at_end (idle p q t n) = absurd (ground arith)
    at_end (live p q t l n d) = absurd (ground arith)
    at_end (leaving p q t n d) = absurd (ground arith)
    at_end (left p d t n) = absurd (ground arith)
    at_end (over p t n) = absurd (ground arith)
    at_end (told ls p t w n) = (t, (ls, w, n))

-- The wait of `stopProgress` ends: the goroutine can always return, and then `Finish` goes on.
pub stop_progress_ends :
    (live_on : Bool) {c : Ticker}
    → Reach (new_ticker live_on) c
    → c.phase ≡ waiting
    → (d : Ticker) × Reach c d × (d.phase ≡ stopped)
stop_progress_ends live_on {c} r e = on (Reach-IsSound (idle refl refl refl (omega arith)) r)
  where
    on : IsSound c → (d : Ticker) × Reach c d × (d.phase ≡ stopped)
    on (idle p q t n) = absurd (ground arith)
    on (live p q t l n d) = absurd (ground arith)
    on (leaving p q t n d) = (_, next (next here (returns t q)) (waited p refl), refl)
    on (left p d t n) = (_, next here (waited p d), refl)
    on (over p t n) = absurd (ground arith)
    on (told ls p t w n) = absurd (ground arith)
