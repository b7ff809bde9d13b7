-- ===== src/RateLimit/Registry.antt =====
-- internal/ratelimit/ratelimit.go: `Registry`, one state for each host, made on first use. The
-- pointers of the map are the map's entries here, so an update of a host writes its entry.
use mathlib.Core.List.{map, Perm}
use markdown_linkerator.Base.{
  ◌≡◌, inl, inr, Bool, none, some, List, arith, Text, text_eq, text_eq_refl, text_lt, text_lt_asymm,
  text_lt_not_trans, Map, lookup, insert, lookup-insert, sort_stable, IsOrder, IsSorted,
  sort_stable-IsSorted, sort_stable-perm, Option-cases, Bool-cases, if◌then◌else◌,
}
use markdown_linkerator.Config.{HostLimit}
use markdown_linkerator.Config.Resolve.{Resolved}
use markdown_linkerator.RateLimit.{Rates, HostState, HostStat, new_host_state, stats}

abbrev pub host_of_stat_less : HostStat → HostStat → Bool
host_of_stat_less a b = text_lt a.host b.host

module _ (m : Rates) {R : Type 0} (cfg : Resolved m.F R) where
  open m use {F, Limiter}

  -- The limits of a host: those of its override, else the general ones.
  unfoldable pub limits_of : Text → HostLimit F
  limits_of name = elim cfg.host_overrides [
    | none ↦ record { rps = cfg.per_host_rps; burst = cfg.per_host_burst }
    | some ovs ↦ elim (lookup name ovs) [
      | none ↦ record { rps = cfg.per_host_rps; burst = cfg.per_host_burst }
      | some ov ↦ ov
    ]
  ]

  -- `Registry.Host`: the registry after it, and the host's state.
  unfoldable pub host_state :
      Map (HostState F Limiter) → Text → Map (HostState F Limiter) × HostState F Limiter
  host_state hosts name = elim (lookup name hosts) [
    | some h ↦ (hosts, h)
    | none ↦
        let h = new_host_state m name (limits_of name).rps (limits_of name).burst in
        (insert name h hosts, h)
  ]

  -- A method of the host's state, through the pointer.
  unfoldable pub update_host :
      Map (HostState F Limiter)
      → Text
      → (HostState F Limiter → HostState F Limiter)
      → Map (HostState F Limiter)
  unfolding host_state
  update_host hosts name f = insert name (f (host_state hosts name).1) (host_state hosts name).0

  unfoldable pub all_stats : Map (HostState F Limiter) → List HostStat
  all_stats hosts =
      sort_stable host_of_stat_less (map (λ (b : Text × HostState F Limiter). stats m b.1) hosts)

  lookup_update :
      (hosts : Map (HostState F Limiter)) (name other : Text)
      (f : HostState F Limiter → HostState F Limiter)
      → lookup other (update_host hosts name f)
        ≡ (if text_eq name other then some (f (host_state hosts name).1) else lookup other hosts)
  unfolding update_host host_state
  lookup_update hosts name other f = elim (Option-cases (lookup name hosts)) [
    | inl n ↦ elim (Bool-cases (text_eq name other)) [
      | inl e ↦ simp (lookup-insert, e)
      | inr e ↦ ground (
        arith,
        lookup-insert name other (f (host_state hosts name).1) (host_state hosts name).0,
        lookup-insert name other (host_state hosts name).1 hosts,
      )
    ]
    | inr (h, n) ↦
        ground
          (arith, lookup-insert name other (f (host_state hosts name).1) (host_state hosts name).0)
  ]

  -- After a method of a host's state, the registry gives that host the state the method left and
  -- every other host the state it had, made on first use or found; to ask for the host again leaves
  -- the registry as it is.
  pub host_state-update :
      (hosts : Map (HostState F Limiter)) (name other : Text)
      (f : HostState F Limiter → HostState F Limiter)
      → let after = update_host hosts name f in
        ((host_state after other).1 ≡ (
          if text_eq name other then f (host_state hosts name).1 else (host_state hosts other).1))
        × ((host_state after name).0 ≡ after)
  unfolding host_state
  host_state-update hosts name other f = (
    ground (arith, lookup_update hosts name other f),
    ground (arith, lookup_update hosts name name f, text_eq_refl name),
  )

  host_of_stat_less-IsOrder : IsOrder host_of_stat_less
  host_of_stat_less-IsOrder = record {
    asymm = λ a b. text_lt_asymm a.host b.host;
    trans_not = λ a b c. text_lt_not_trans a.host b.host c.host;
  }

  -- The statistics are in the order of the hosts' names, one for each host of the registry.
  pub all_stats-IsSorted :
      (hosts : Map (HostState F Limiter))
      → IsSorted host_of_stat_less (all_stats hosts)
        × Perm (all_stats hosts) (map (λ (b : Text × HostState F Limiter). stats m b.1) hosts)
  unfolding all_stats
  all_stats-IsSorted hosts =
      (sort_stable-IsSorted _ host_of_stat_less-IsOrder _, sort_stable-perm _ _)
