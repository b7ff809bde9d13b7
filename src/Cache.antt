-- ===== src/Cache.antt =====
-- internal/cache/cache.go: the entries, what may be cached, and reads and writes in memory. An
-- instant is a number of nanoseconds; the mutex makes each method one step.
pub mod Disk
pub mod Store
mod Examples
use markdown_linkerator.Base.{
  ℕ, Bool, true, false, ◌&&◌, ◌||◌, not, Option, none, some, List, [], ◌∷◌, length, leb, ltb, ◌==◌,
  if◌then◌else◌, Text, Map, lookup, insert, ℤ, pos, negsuc, leb_ℤ, since,
}
use markdown_linkerator.Model.{State, alive, dead, Result}

pub record Entry : Type 0 where
  pub status_code : ℕ
  pub state : State
  pub checked_at : ℤ

pub record Cache : Type 0 where
  pub entries : Map Entry
  pub path : Text
  pub ttl : ℤ
  pub enabled : Bool
  pub fingerprint : Text

unfoldable pub stable_client_error : ℕ → Bool
stable_client_error code =
    if ltb code 400 || leb 500 code
    then false
    else if code == 408 || (code == 425 || code == 429)
    then false
    else true

definitive_state : State → ℕ → Bool
unfolding stable_client_error
definitive_state alive code = true
definitive_state dead code = stable_client_error code
definitive_state _ code = false

unfoldable pub definitive : Result → Bool
unfolding definitive_state
definitive r = elim r.err [ some _ ↦ false | none ↦ definitive_state r.state r.status_code ]

unfoldable pub get : Cache → Text → ℤ → Option Entry
unfolding since
get c key now = if not c.enabled then none else elim (lookup key c.entries) [
  | none ↦ none
  | some e ↦ if leb_ℤ c.ttl (since now e.checked_at) then none else some e
]

abbrev pub entry_of : Result → ℤ → Entry
entry_of r now = record { status_code = r.status_code; state = r.state; checked_at = now }

unfoldable pub put : Cache → Text → Result → ℤ → Cache
unfolding definitive
put c key r now =
    if not c.enabled || not (definitive r)
    then c
    else record c { entries = insert key (entry_of r now) c.entries }

unfoldable pub len : Cache → ℕ
len c = length c.entries
