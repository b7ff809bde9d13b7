-- ===== src/RateLimit/Examples.antt =====
-- Rates as whole numbers, a limiter as its rate: the lemmas on a host of rate 16.
use markdown_linkerator.Base.{ℕ, ◌≡◌, ◌↔◌, false, List, [], ◌∷◌, text, pos}
use markdown_linkerator.Samples.{whole_rates}
use markdown_linkerator.RateLimit.{HostState, new_host_state, Round, acquire, granted}
use markdown_linkerator.RateLimit.Rate.{
  Event, requested, armed, penalized, succeeded, apply_all, IsPaced, host-IsPaced,
}
use markdown_linkerator.RateLimit.Cooldown.{acquire_iff, GrantedAt}

abbrev host_a : HostState ℕ ℕ
host_a = new_host_state whole_rates (text "a") 16 (pos 4)

abbrev busy : List Event
busy = penalized (pos 3) (pos 10) ∷ succeeded ∷ armed (pos 1) (pos 12) ∷ requested 2 (pos 13) ∷ []

host-IsPaced_example : IsPaced whole_rates (apply_all whole_rates host_a busy)
host-IsPaced_example = host-IsPaced whole_rates (text "a") 16 (pos 4) busy

-- A wait of ten minutes is cut to five.

-- The first pass sleeps until 5, the second finds the cooldown over.
abbrev rounds : List Round
rounds =
    record { now = pos 1; not_before = pos 5; cancelled = false }
    ∷ record { now = pos 5; not_before = pos 5; cancelled = false }
    ∷ []

acquire_iff_example : (acquire false rounds ≡ granted) ↔ ((false ≡ false) × GrantedAt rounds)
acquire_iff_example = acquire_iff false rounds
