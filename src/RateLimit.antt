-- ===== src/RateLimit.antt =====
-- internal/ratelimit/ratelimit.go: one host's token bucket, its 429 state and its counters. The
-- mutex and the atomic counters make each method but `Acquire` one step. float64 and
-- golang.org/x/time/rate's limiter are the parameter `Rates`.
pub mod Rate
pub mod Cooldown
pub mod Registry
mod Examples
use markdown_linkerator.Base.{
  ℕ, suc, ◌+◌, ◌≡◌, Bool, true, false, not, ◌&&◌, Option, none, some, List, [], ◌∷◌, ltb, leb,
  if◌then◌else◌, Text, ℤ, pos, ◌+ℤ◌, leb_ℤ, ltb_ℤ, since, zero_time,
}

-- The float64 values but NaN, with the operations that the code uses and what it relies on of them,
-- and the bucket: `limit` reads the rate that `new_limiter` or `set_limit` gave last.
pub record Rates : Type 1 where
  pub F : Type 0
  pub less : F → F → Bool
  pub nought : F
  pub abs_min_rps : F
  pub penalty_floor_rps : F
  pub half : F → F
  pub eighth : F → F
  pub plus : F → F → F
  pub Limiter : Type 0
  pub new_limiter : F → ℤ → Limiter
  pub limit : Limiter → F
  pub set_limit : Limiter → F → Limiter
  pub less_asymm : (a b : F) → less a b ≡ true → less b a ≡ false
  pub not_less_trans : (a b c : F) → less b a ≡ false → less c b ≡ false → less c a ≡ false
  pub abs_min_pos : less nought abs_min_rps ≡ true
  pub floor_nonneg : less penalty_floor_rps nought ≡ false
  pub eighth_nonneg : (a : F) → less a nought ≡ false → less (eighth a) nought ≡ false
  pub half_le : (a : F) → less a nought ≡ false → less a (half a) ≡ false
  pub plus_le : (a b : F) → less b nought ≡ false → less (plus a b) a ≡ false
  pub limit_new : (r : F) (b : ℤ) → limit (new_limiter r b) ≡ r
  pub limit_set : (l : Limiter) (r : F) → limit (set_limit l r) ≡ r

abbrev pub max_cooldown : ℤ
max_cooldown = pos 300_000_000_000

abbrev pub successes_per_recovery : ℕ
successes_per_recovery = 5

-- An instant is a number of nanoseconds. `first` and `last` are the zero time before any request.
pub record HostState (F L : Type 0) : Type 0 where
  pub host : Text
  pub config_rps : F
  pub limiter : L
  pub requests : ℕ
  pub retries : ℕ
  pub n429 : ℕ
  pub not_before : ℤ
  pub consecutive : ℕ
  pub first : ℤ
  pub last : ℤ

-- What `Stats` returns. `observed` holds the requests and the nanoseconds whose quotient is the
-- observed rate; the rate is 0 where it is `none`.
pub record HostStat : Type 0 where
  pub host : Text
  pub requests : ℕ
  pub retries : ℕ
  pub n429 : ℕ
  pub observed : Option (ℕ × ℤ)

abbrev is_zero_time : ℤ → Bool
is_zero_time t = leb_ℤ t zero_time && leb_ℤ zero_time t

abbrev pub later : ℤ → ℤ → ℤ
later old new = if ltb_ℤ old new then new else old

-- `if burst < 1 { burst = 1 }`
unfoldable pub valid_burst : ℤ → ℤ
valid_burst burst = if ltb_ℤ burst (pos 1) then pos 1 else burst

module _ (m : Rates) where
  open m use {F, less, Limiter}

  unfoldable pub new_host_state : Text → F → ℤ → HostState F Limiter
  new_host_state host rps burst =
      let rps' = if not (less m.nought rps) then m.abs_min_rps else rps in
      record {
        host = host;
        config_rps = rps';
        limiter = m.new_limiter rps' (valid_burst burst);
        requests = 0;
        retries = 0;
        n429 = 0;
        not_before = zero_time;
        consecutive = 0;
        first = zero_time;
        last = zero_time;
      }

  unfoldable pub penalty_floor : HostState F Limiter → F
  penalty_floor h =
      let f = m.eighth h.config_rps in if less m.penalty_floor_rps f then f else m.penalty_floor_rps

  -- The rate after a 429.
  unfoldable pub decreased : HostState F Limiter → F
  unfolding penalty_floor
  decreased h =
      let next = m.half (m.limit h.limiter) in
      let floored = if less next (penalty_floor h) then penalty_floor h else next in
      if less h.config_rps floored then h.config_rps else floored

  -- The rate after a run of successes.
  unfoldable pub increased : HostState F Limiter → F
  increased h =
      let next = m.plus (m.limit h.limiter) (m.eighth h.config_rps) in
      if less h.config_rps next then h.config_rps else next

  unfoldable pub arm_cooldown : HostState F Limiter → ℤ → ℤ → HostState F Limiter
  arm_cooldown h retry_after now =
      if leb_ℤ retry_after (pos 0)
      then h
      else let wait = if ltb_ℤ max_cooldown retry_after then max_cooldown else retry_after in
        record h { not_before = later h.not_before (now +ℤ wait) }

  unfoldable pub penalize_429 : HostState F Limiter → ℤ → ℤ → HostState F Limiter
  unfolding decreased
  penalize_429 h retry_after now =
      let wait =
        if ltb_ℤ retry_after (pos 0)
        then pos 0
        else if ltb_ℤ max_cooldown retry_after
        then max_cooldown
        else retry_after in
      record h {
        n429 = h.n429 + 1;
        limiter = m.set_limit h.limiter (decreased h);
        not_before = later h.not_before (now +ℤ wait);
        consecutive = 0;
      }

  unfoldable pub on_success : HostState F Limiter → HostState F Limiter
  unfolding increased
  on_success h =
      if ltb (h.consecutive + 1) successes_per_recovery
      then record h { consecutive = h.consecutive + 1 }
      else if not (less (m.limit h.limiter) h.config_rps)
      then record h { consecutive = 0 }
      else record h { consecutive = 0; limiter = m.set_limit h.limiter (increased h) }

  -- `record` in the source.
  unfoldable pub record_request : HostState F Limiter → ℕ → ℤ → HostState F Limiter
  record_request h retries now = record h {
    requests = h.requests + 1;
    retries = h.retries + retries;
    first = if is_zero_time h.first then now else h.first;
    last = now;
  }

  unfoldable pub stats : HostState F Limiter → HostStat
  stats h =
      let elapsed = since h.last h.first in
      record {
        host = h.host;
        requests = h.requests;
        retries = h.retries;
        n429 = h.n429;
        observed =
            if leb 2 h.requests && ltb_ℤ (pos 0) elapsed then some (h.requests, elapsed) else none;
      }

-- One pass through the loop of `Acquire`: the instant, the cooldown read under the lock, and
-- whether the context is cancelled before the timer fires.
pub record Round : Type 0 where
  pub now : ℤ
  pub not_before : ℤ
  pub cancelled : Bool

pub data Acquired : Type 0 where
  granted failed waiting : Acquired

unfoldable pub acquire_loop : List Round → Acquired
acquire_loop [] = waiting
acquire_loop (r ∷ rs) =
    let rest = acquire_loop rs in
    if leb_ℤ (since r.not_before r.now) (pos 0)
    then granted
    else if r.cancelled
    then failed
    else rest

-- `bucket_fails` is the error of the limiter's Wait.
unfoldable pub acquire : Bool → List Round → Acquired
unfolding acquire_loop
acquire bucket_fails rounds = if bucket_fails then failed else acquire_loop rounds
