-- ===== src/Base/Time.antt =====
-- Instants and durations in nanoseconds, as Go's package time counts them.
use markdown_linkerator.Base.Int.{ℤ, pos, negsuc, ◌-ℤ◌, ltb_ℤ}
use markdown_linkerator.Base.Tests.{if◌then◌else◌}

abbrev pub max_duration : ℤ
max_duration = pos 9_223_372_036_854_775_807

abbrev pub min_duration : ℤ
min_duration = negsuc 9_223_372_036_854_775_807

-- Time.Sub, and so time.Since and time.Until: the difference, kept within an int64.
unfoldable pub since : ℤ → ℤ → ℤ
unfolding ◌-ℤ◌
since now t =
    let d = now -ℤ t in
    if ltb_ℤ max_duration d then max_duration else if ltb_ℤ d min_duration then min_duration else d

-- The zero time.Time, in nanoseconds from the Unix epoch.
abbrev pub zero_time : ℤ
zero_time = negsuc 62_135_596_799_999_999_999

abbrev pub second : ℤ
second = pos 1_000_000_000
