-- ===== src/RateLimit/Rate.antt =====
-- internal/ratelimit/ratelimit.go: the rate of a host over the calls that change it.
use markdown_linkerator.Base.{
  ℕ, suc, ◌+◌, ◌<◌, ◌≡◌, refl, ◌⊎◌, inl, inr, true, false, List, [], ◌∷◌, arith, ltb, leb_ℤ, pos,
  Text, ℤ, Bool-cases, zero,
}
use markdown_linkerator.RateLimit.{
  Rates, HostState, new_host_state, penalty_floor, decreased, increased, arm_cooldown, penalize_429,
  on_success, record_request, successes_per_recovery, valid_burst,
}

-- What the pipeline calls on a host's state; each call carries its time.
pub data Event : Type 0 where
  requested : ℕ → ℤ → Event
  armed : ℤ → ℤ → Event
  penalized : ℤ → ℤ → Event
  succeeded : Event

module _ (m : Rates) where
  open m use {F, less, Limiter}

  unfoldable pub apply : HostState F Limiter → Event → HostState F Limiter
  apply h (requested retries now) = record_request m h retries now
  apply h (armed wait now) = arm_cooldown m h wait now
  apply h (penalized wait now) = penalize_429 m h wait now
  apply h succeeded = on_success m h

  unfoldable pub apply_all : HostState F Limiter → List Event → HostState F Limiter
  apply_all h [] = h
  apply_all h (e ∷ es) = apply_all (apply h e) es

  -- The current rate of a host.
  abbrev pub rate : HostState F Limiter → F
  rate h = m.limit h.limiter

  -- The ceiling is positive and never passed; the rate is at least the floor, or at the ceiling
  -- (where the configured rate lies under the floor); fewer than five successes are pending.
  pub record IsPaced (h : HostState F Limiter) : Type 0 where
    pub positive : less m.nought h.config_rps ≡ true
    pub ceiling : less h.config_rps (rate h) ≡ false
    pub floor : (less (rate h) (penalty_floor m h) ≡ false) ⊎ (rate h ≡ h.config_rps)
    pub pending : h.consecutive < successes_per_recovery

  less_irrefl : (a : F) → less a a ≡ false
  less_irrefl a = elim (Bool-cases (less a a)) [ inl e ↦ m.less_asymm a a e | inr e ↦ e ]

  rate-new :
      (host : Text) (rps : F) (burst : ℤ)
      → rate (new_host_state m host rps burst) ≡ (new_host_state m host rps burst).config_rps
  unfolding new_host_state
  rate-new host rps burst = m.limit_new _ (valid_burst burst)

  -- A new host starts at its ceiling, which is the configured rate if that is positive.
  pub new-IsPaced : (host : Text) (rps : F) (burst : ℤ) → IsPaced (new_host_state m host rps burst)
  unfolding new_host_state
  new-IsPaced host rps burst = record {
    positive = ground (arith, m.abs_min_pos);
    ceiling = rw (rate-new host rps burst) (less_irrefl _);
    floor = inr (rate-new host rps burst);
    pending = omega arith;
  }

  decreased-le : (h : HostState F Limiter) → less h.config_rps (decreased m h) ≡ false
  unfolding decreased
  decreased-le h = ground (arith, less_irrefl h.config_rps)

  decreased-ge :
      (h : HostState F Limiter)
      → (less (decreased m h) (penalty_floor m h) ≡ false) ⊎ (decreased m h ≡ h.config_rps)
  unfolding decreased
  decreased-ge h = ground (arith, less_irrefl (penalty_floor m h))

  increased-le : (h : HostState F Limiter) → less h.config_rps (increased m h) ≡ false
  unfolding increased
  increased-le h = ground (arith, less_irrefl h.config_rps)

  -- Success never lowers the rate, and never takes it over the ceiling.
  increased-ge : (h : HostState F Limiter) → IsPaced h → less (increased m h) (rate h) ≡ false
  unfolding increased
  increased-ge h v = ground (
    arith,
    v.ceiling,
    m.plus_le (rate h) (m.eighth h.config_rps),
    m.eighth_nonneg h.config_rps,
    m.less_asymm m.nought h.config_rps v.positive,
  )

  floor_same :
      (h h' : HostState F Limiter)
      → h'.config_rps ≡ h.config_rps
      → penalty_floor m h' ≡ penalty_floor m h
  unfolding penalty_floor
  floor_same h h' e = ground arith

  penalty_floor_nonneg :
      (h : HostState F Limiter) → IsPaced h → less (penalty_floor m h) m.nought ≡ false
  unfolding penalty_floor
  penalty_floor_nonneg h v = ground (
    arith,
    m.floor_nonneg,
    m.eighth_nonneg h.config_rps,
    m.less_asymm m.nought h.config_rps v.positive,
  )

  rate_nonneg : (h : HostState F Limiter) → IsPaced h → less (rate h) m.nought ≡ false
  rate_nonneg h v = ground (
    arith,
    v.floor,
    m.not_less_trans m.nought (penalty_floor m h) (rate h) (penalty_floor_nonneg h v),
    m.less_asymm m.nought h.config_rps v.positive,
  )

  decreased_falls : (h : HostState F Limiter) → IsPaced h → less (rate h) (decreased m h) ≡ false
  unfolding decreased
  decreased_falls h v = ground (
    arith,
    v.ceiling,
    v.floor,
    m.half_le (rate h) (rate_nonneg h v),
    less_irrefl h.config_rps,
    m.not_less_trans (m.half (rate h)) (rate h) h.config_rps,
    m.not_less_trans (penalty_floor m h) (rate h) h.config_rps,
  )

  penalize-IsPaced :
      (h : HostState F Limiter) (wait now : ℤ) → IsPaced h → IsPaced (penalize_429 m h wait now)
  unfolding penalize_429
  penalize-IsPaced h wait now v = record {
    positive = v.positive;
    ceiling = rw m.limit_set (decreased-le h);
    floor = rw (m.limit_set, floor_same h (penalize_429 m h wait now) refl) (decreased-ge h);
    pending = omega arith;
  }

  increased_floor :
      (h : HostState F Limiter)
      → IsPaced h
      → less (rate h) h.config_rps ≡ true
      → less (increased m h) (penalty_floor m h) ≡ false
  increased_floor h v below = elim v.floor [
    | inl low ↦ m.not_less_trans (penalty_floor m h) (rate h) (increased m h) low (increased-ge h v)
    | inr top ↦ absurd (ground (arith, less_irrefl h.config_rps))
  ]

  success-IsPaced : (h : HostState F Limiter) → IsPaced h → IsPaced (on_success m h)
  unfolding on_success penalty_floor
  success-IsPaced h v = elim (Bool-cases (ltb (h.consecutive + 1) successes_per_recovery)) [
    | inl e ↦ rw e (record {
      positive = v.positive;
      ceiling = v.ceiling;
      floor = v.floor;
      pending = ground arith;
    })
    | inr e ↦ elim (Bool-cases (less (rate h) h.config_rps)) [
      | inr f ↦
          rw (e, f)
            (record {
              positive = v.positive;
              ceiling = v.ceiling;
              floor = v.floor;
              pending = omega arith;
            })
      | inl f ↦
          rw (e, f)
            (record {
              positive = v.positive;
              ceiling = rw m.limit_set (increased-le h);
              floor = inl (rw m.limit_set (increased_floor h v f));
              pending = omega arith;
            })
    ]
  ]

  apply-IsPaced : (h : HostState F Limiter) (e : Event) → IsPaced h → IsPaced (apply h e)
  unfolding apply record_request arm_cooldown penalty_floor
  apply-IsPaced h (requested retries now) v = record {
    positive = v.positive;
    ceiling = v.ceiling;
    floor = v.floor;
    pending = v.pending;
  }
  apply-IsPaced h (armed wait now) v = elim (Bool-cases (leb_ℤ wait (pos 0))) [
    | inl e ↦ rw e v
    | inr e ↦ rw e (record {
      positive = v.positive;
      ceiling = v.ceiling;
      floor = v.floor;
      pending = v.pending;
    })
  ]
  apply-IsPaced h (penalized wait now) v = penalize-IsPaced h wait now v
  apply-IsPaced h succeeded v = success-IsPaced h v

  apply_all-IsPaced :
      (h : HostState F Limiter) (es : List Event) → IsPaced h → IsPaced (apply_all h es)
  unfolding apply_all
  apply_all-IsPaced h [] v = v
  apply_all-IsPaced h (e ∷ es) v = apply_all-IsPaced (apply h e) es (apply-IsPaced h e v)

  -- Whatever a host's servers answer and in whatever order: from its creation on, the rate of a
  -- host is never over its ceiling, and is never under its floor unless it is at the ceiling.
  pub host-IsPaced :
      (host : Text) (rps : F) (burst : ℤ) (es : List Event)
      → IsPaced (apply_all (new_host_state m host rps burst) es)
  host-IsPaced host rps burst es = apply_all-IsPaced _ es (new-IsPaced host rps burst)

  -- On a host whose rate is so paced (IsPaced), a 429 never raises the rate and a success never lowers it; the two
  -- other events leave it alone.
  pub rate_moves :
      (h : HostState F Limiter) (retries : ℕ) (wait now : ℤ)
      → IsPaced h
      → (less (rate h) (rate (apply h (penalized wait now))) ≡ false)
        × (less (rate (apply h succeeded)) (rate h) ≡ false)
        × (rate (apply h (requested retries now)) ≡ rate h)
        × (rate (apply h (armed wait now)) ≡ rate h)
  unfolding apply penalize_429 on_success record_request arm_cooldown
  rate_moves h retries wait now v = (
    rw m.limit_set (decreased_falls h v),
    ground (arith, less_irrefl (rate h), m.limit_set h.limiter (increased m h), increased-ge h v),
    refl,
    ground arith,
  )

  -- `k` successes in a row.
  abbrev pub successes : ℕ → List Event
  successes zero = []
  successes (suc k) = succeeded ∷ successes k

  climb :
      (h : HostState F Limiter)
      → h.consecutive ≡ 0
      → less (rate h) h.config_rps ≡ true
      → (rate (apply_all h (successes 4)) ≡ rate h)
        × (rate (apply_all h (successes 5)) ≡ increased m h)
  unfolding apply_all apply on_success increased
  climb h fresh below = ground (arith, m.limit_set h.limiter (increased m h))

  -- Where a 429 leaves the rate under the ceiling, four
  -- successes in a row change nothing, and the fifth restores one step, up to the ceiling.
  pub recovery :
      (h : HostState F Limiter) (wait now : ℤ)
      → less (rate (apply h (penalized wait now))) h.config_rps ≡ true
      → let p = apply h (penalized wait now) in
        (rate (apply_all p (successes 4)) ≡ rate p)
        × (rate (apply_all p (successes 5)) ≡ increased m p)
  unfolding apply penalize_429
  recovery h wait now = climb (apply h (penalized wait now)) refl
