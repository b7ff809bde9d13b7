-- ===== src/Pipeline/Dedup.antt =====
-- internal/pipeline/dedup.go: the shared state of each URL. `add` takes the map's lock and then the
-- URL's; other goroutines may run between the two, so it is two steps here. Entries are never
-- removed from the map, so a pointer into it is its key. url.Parse with Hostname is the parameter
-- `host_of`.
pub mod World
pub mod Once
pub mod Settled
pub mod Jobs
pub mod Entries
mod Examples
use markdown_linkerator.Base.{
  ℕ, Bool, true, false, Option, none, some, List, [], ◌∷◌, ◌++◌, map, Text, Map, lookup, insert, ℤ,
  pos,
}
use markdown_linkerator.Model.{Target, Result, CheckJob, http, zero_result}
use markdown_linkerator.Cache
use markdown_linkerator.Cache.{Cache, Entry}

pub record UrlState : Type 0 where
  pub done : Bool
  pub result : Result
  pub occs : List Target

pub record Dedup : Type 0 where
  pub seen : Map UrlState
  pub cache : Cache

abbrev pub zero_target : Target
zero_target = record { raw = []; url = []; kind = http; source_file = []; line = 0; fragment = [] }

unfoldable pub new_dedup : Cache → Dedup
new_dedup c = record { seen = []; cache = c }

-- `retries`, `saw_429`, `retry_after` and `err` of the base are not carried over.
unfoldable pub result_for : Target → Result → Bool → Result
result_for occ base reused = record (zero_result occ) {
  state = base.state;
  status_code = base.status_code;
  host = base.host;
  from_cache = base.from_cache;
  reused = reused;
  detail = base.detail;
}

-- What the first locked part of `add` leads to: a result from the cache, a new job, or an entry
-- that is there already.
pub data Begun : Type 0 where
  hit : Result → Begun
  queued : CheckJob → Begun
  found : Begun

module _ (host_of : Text → Text) where
  unfoldable pub result_from_cache : Target → Entry → Result
  result_from_cache t ent = record (zero_result t) {
    state = ent.state;
    status_code = ent.status_code;
    host = host_of t.url;
    from_cache = true;
  }

  unfoldable pub add_begin : Dedup → Text → Target → ℤ → Dedup × Begun
  unfolding result_from_cache
  add_begin d key t now = elim (lookup key d.seen) [
    | some st ↦ (d, found)
    | none ↦ elim (Cache.get d.cache key now) [
      | some ent ↦ (
        record d {
          seen =
              insert key (record { done = true; result = result_from_cache t ent; occs = [] })
                d.seen;
        },
        hit (result_for t (result_from_cache t ent) false),
      )
      | none ↦ (
        record d {
          seen =
              insert key (record { done = false; result = zero_result zero_target; occs = t ∷ [] })
                d.seen;
        },
        queued (record { key = key; host = host_of t.url; sample = t }),
      )
    ]
  ]

-- The second locked part, on an entry: the entry after it, and what it emits.
unfoldable pub finish_on : UrlState → Target → UrlState × List Result
finish_on st t = elim st.done [
  | true ↦ (st, result_for t st.result true ∷ [])
  | false ↦ (record st { occs = st.occs ++ (t ∷ []) }, [])
]

-- `none` is a nil pointer dereference: there is no entry.
unfoldable pub add_finish : Dedup → Text → Target → Option (Dedup × List Result)
unfolding finish_on
add_finish d key t = elim (lookup key d.seen) [
  | none ↦ none
  | some st ↦ some (record d { seen = insert key (finish_on st t).0 d.seen }, (finish_on st t).1)
]

unfoldable pub complete : Dedup → Text → Result → Option (Dedup × List Target)
complete d key res = elim (lookup key d.seen) [
  | none ↦ none
  | some st ↦ some (
    record d { seen = insert key (record { done = true; result = res; occs = [] }) d.seen },
    st.occs,
  )
]

-- The loop of `execute` over the occurrences: all but the first have reused the result.
unfoldable pub fan_out : Result → Bool → List Target → List Result
fan_out res reused [] = []
fan_out res reused (occ ∷ occs) = result_for occ res reused ∷ fan_out res true occs
