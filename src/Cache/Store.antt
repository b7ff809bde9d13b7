-- ===== src/Cache/Store.antt =====
-- internal/cache/cache.go: reads and writes of the cache, and what it may hold.
use markdown_linkerator.Base.{
  ℕ, ◌≤◌, ◌<◌, ◌≡◌, ◌≢◌, ◌↔◌, refl, ◌⊎◌, inl, inr, true, false, ◌&&◌, Option, none, some, List, [],
  ◌∷◌, arith, if◌then◌else◌, Text, text_eq, lookup-insert, AllValues, insert-AllValues, ℤ, leb_ℤ,
  since, Bool-cases, not, ◌||◌,
}
use markdown_linkerator.Model.{alive, dead, Result}
use markdown_linkerator.Cache.{Entry, Cache, stable_client_error, definitive, get, put, entry_of}

-- A 4xx status is stable exactly when it is not one of 408, 425 and 429, and nothing else is.
pub stable_client_error_iff :
    (code : ℕ)
    → (stable_client_error code ≡ true)
      ↔ ((400 ≤ code) × (code < 500) × (code ≢ 408) × (code ≢ 425) × (code ≢ 429))
unfolding stable_client_error
stable_client_error_iff code = ground arith

-- A read after a write: the written key holds the new entry while it is fresh, if the cache is
-- enabled and the result definitive; every other read is as before the write.
pub get-put :
    (c : Cache) (key k : Text) (r : Result) (now later : ℤ)
    → get (put c key r now) k later ≡ (
        if c.enabled && (definitive r && text_eq key k)
        then (if leb_ℤ c.ttl (since later now) then none else some (entry_of r now))
        else get c k later)
unfolding get put
get-put c key k r now later = ground (arith, lookup-insert key k (entry_of r now) c.entries)

-- What may stand in a cache: an alive target, or one dead for a stable client error.
abbrev pub IsDefinitive : Entry → Type 0
IsDefinitive e = (e.state ≡ alive) ⊎ ((e.state ≡ dead) × (stable_client_error e.status_code ≡ true))

abbrev pub HoldsDefinitive : Cache → Type 0
HoldsDefinitive c = AllValues IsDefinitive c.entries

definitive-IsDefinitive :
    (r : Result) (now : ℤ) → definitive r ≡ true → IsDefinitive (entry_of r now)
unfolding definitive
definitive-IsDefinitive r now h = ground arith

-- No write brings in a transient outcome.
pub put-HoldsDefinitive :
    (c : Cache) (key : Text) (r : Result) (now : ℤ)
    → HoldsDefinitive c
    → HoldsDefinitive (put c key r now)
unfolding put
put-HoldsDefinitive c key r now h = elim (Bool-cases (not c.enabled || not (definitive r))) [
  | inl e ↦ rw e h
  | inr e ↦ rw e (
      insert-AllValues IsDefinitive key _ c.entries (definitive-IsDefinitive r now (ground arith))
        h)
]

-- A write that a run makes: the key, the result and the time.
pub record Write : Type 0 where
  pub key : Text
  pub result : Result
  pub now : ℤ

unfoldable pub put_all : Cache → List Write → Cache
put_all c [] = c
put_all c (w ∷ ws) = put_all (put c w.key w.result w.now) ws

-- A cache that starts with definitive outcomes only has no other after any run of writes.
pub put_all-HoldsDefinitive :
    (c : Cache) (ws : List Write) → HoldsDefinitive c → HoldsDefinitive (put_all c ws)
unfolding put_all
put_all-HoldsDefinitive c [] h = h
put_all-HoldsDefinitive c (w ∷ ws) h =
    put_all-HoldsDefinitive (put c w.key w.result w.now) ws
      (put-HoldsDefinitive c w.key w.result w.now h)

-- The last write to the key in the list that the cache takes.
pub last_write : Text → List Write → Option Write
last_write k [] = none
last_write k (w ∷ ws) = elim (last_write k ws) [
  | some v ↦ some v
  | none ↦ if definitive w.result && text_eq w.key k then some w else none
]

put-get_disabled : (c : Cache) (ws : List Write) → c.enabled ≡ false → put_all c ws ≡ c
unfolding put_all put
put-get_disabled c [] h = refl
put-get_disabled c (w ∷ ws) h = ground (arith, put-get_disabled c ws h)

put_ttl :
    (c : Cache) (key : Text) (r : Result) (now : ℤ)
    → ((put c key r now).ttl ≡ c.ttl) × ((put c key r now).enabled ≡ c.enabled)
unfolding put
put_ttl c key r now = ground arith

-- After any run of writes to an enabled cache, a read gives the last definitive result written
-- under the key, while that is fresh; without such a write it reads what the cache held before.
pub get-put_all :
    (ws : List Write) (c : Cache) (k : Text) (later : ℤ)
    → c.enabled ≡ true
    → get (put_all c ws) k later ≡ elim (last_write k ws) [
      | none ↦ get c k later
      | some w ↦ if leb_ℤ c.ttl (since later w.now) then none else some (entry_of w.result w.now)
    ]
unfolding put_all last_write
get-put_all [] c k later h = refl
get-put_all (w ∷ ws) c k later h = ground (
  arith,
  get-put_all ws (put c w.key w.result w.now) k later,
  put_ttl c w.key w.result w.now,
  get-put c w.key k w.result w.now later,
)

-- A disabled cache never hits, and no run of writes changes it.
pub disabled_inert :
    (c : Cache) (ws : List Write) (k : Text) (now : ℤ)
    → c.enabled ≡ false
    → (put_all c ws ≡ c) × (get (put_all c ws) k now ≡ none)
unfolding get
disabled_inert c ws k now h = ground (arith, put-get_disabled c ws h)
