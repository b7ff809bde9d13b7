-- ===== src/Cache/Examples.antt =====
-- A cache with one entry, its saves and its reloads.
use markdown_linkerator.Base.{
  ℕ, ◌≡◌, ◌≢◌, refl, true, false, Option, none, some, List, [], ◌∷◌, ◌++◌, arith, if◌then◌else◌,
  Text, text, Map, lookup, ℤ, pos, leb_ℤ, since,
}
use markdown_linkerator.Model.{State, alive, dead}
use markdown_linkerator.Samples.{alive_a, dead_a}
use markdown_linkerator.Cache.{Entry, Cache, get, entry_of}
use markdown_linkerator.Cache.Store.{Write, put_all, last_write, get-put_all}
use markdown_linkerator.Cache.Disk.{Envelope, Files, Disk, save, new}
use markdown_linkerator.Cache.Disk.Atomic.{envelope, kept_or_replaced, save_atomic, save_succeeds}
use markdown_linkerator.Cache.Disk.Reload.{Codec, get-new-save}

abbrev stored : Entry
stored = record { status_code = 200; state = alive; checked_at = pos 5 }

abbrev store : Cache
store = record {
  entries = (text "k", stored) ∷ [];
  path = text "c";
  ttl = pos 100;
  enabled = true;
  fingerprint = text "f";
}

abbrev writes : List Write
writes =
    record { key = text "u"; result = dead_a; now = pos 6 }
    ∷ record { key = text "u"; result = alive_a; now = pos 7 }
    ∷ []

get-put_all_example :
    get (put_all store writes) (text "u") (pos 8) ≡ elim (last_write (text "u") writes) [
      | none ↦ get store (text "u") (pos 8)
      | some w ↦
          if leb_ℤ store.ttl (since (pos 8) w.now) then none else some (entry_of w.result w.now)
    ]
get-put_all_example = get-put_all writes store (text "u") (pos 8) refl

-- A codec for caches of one alive entry under a key of one character.
unfoldable marshal_entry : ℕ → Text → Text → ℕ → State → ℤ → Option Text
marshal_entry v fp (c ∷ []) s alive (pos n) = some (v ∷ c ∷ s ∷ n ∷ fp)
marshal_entry v fp _ s _ _ = none

unfoldable marshal_map : ℕ → Text → Map Entry → Option Text
marshal_map v fp ((k, e) ∷ []) = marshal_entry v fp k e.status_code e.state e.checked_at
marshal_map v fp _ = none

unfoldable marshal_one : Envelope → Option Text
marshal_one f = elim f.entries [ none ↦ none | some m ↦ marshal_map f.schema f.fingerprint m ]

unfoldable drop_last : Text → Text
drop_last [] = []
drop_last (c ∷ []) = []
drop_last (c ∷ d ∷ s) = c ∷ drop_last (d ∷ s)

drop_last-append : (s : Text) (c : ℕ) → drop_last (s ++ (c ∷ [])) ≡ s
unfolding drop_last
drop_last-append [] c = refl
drop_last-append (d ∷ []) c = refl
drop_last-append (d ∷ e ∷ s) c = ground (arith, drop_last-append (e ∷ s) c)

unfoldable unmarshal_one : Text → Option Envelope
unmarshal_one (v ∷ c ∷ s ∷ n ∷ rest) = some (record {
  schema = v;
  fingerprint = drop_last rest;
  entries = some ((c ∷ [], record { status_code = s; state = alive; checked_at = pos n }) ∷ []);
})
unmarshal_one _ = none

abbrev Decodes : ℕ → Text → Map Entry → Text → Type 0
Decodes v fp m b =
    (g : Envelope) × (m' : Map Entry) × (unmarshal_one (b ++ (10 ∷ [])) ≡ some g)
    × (g.schema ≡ v)
    × (g.fingerprint ≡ fp)
    × (g.entries ≡ some m')
    × ((k : Text) → lookup k m' ≡ lookup k m)

Decodes-entry :
    (v : ℕ) (fp k : Text) (s : ℕ) (st : State) (at : ℤ) (b : Text)
    → marshal_entry v fp k s st at ≡ some b
    → Decodes v fp ((k, record { status_code = s; state = st; checked_at = at }) ∷ []) b
unfolding marshal_entry unmarshal_one
Decodes-entry v fp (c ∷ []) s alive (pos n) b h =
    let e : v ∷ c ∷ s ∷ n ∷ fp ≡ b = ground arith in
    rw (← e) (_, _, refl, refl, drop_last-append fp 10, refl, λ k. refl)
Decodes-entry v fp [] s st at b h = absurd (ground arith)
Decodes-entry v fp (c ∷ d ∷ k) s st at b h = absurd (ground arith)
Decodes-entry v fp (c ∷ []) s alive (ℤ.negsuc n) b h = absurd (ground arith)
Decodes-entry v fp (c ∷ []) s dead at b h = absurd (ground arith)
Decodes-entry v fp (c ∷ []) s State.ignored at b h = absurd (ground arith)
Decodes-entry v fp (c ∷ []) s State.error at b h = absurd (ground arith)
Decodes-entry v fp (c ∷ []) s (State.other n) at b h = absurd (ground arith)

Decodes-map :
    (v : ℕ) (fp : Text) (m : Map Entry) (b : Text) → marshal_map v fp m ≡ some b → Decodes v fp m b
unfolding marshal_map
Decodes-map v fp [] b h = absurd (ground arith)
Decodes-map v fp ((k, e) ∷ []) b h = Decodes-entry v fp k e.status_code e.state e.checked_at b h
Decodes-map v fp (p ∷ q ∷ m) b h = absurd (ground arith)

Decodes-one :
    (f : Envelope) (m : Map Entry) (b : Text)
    → f.entries ≡ some m
    → marshal_one f ≡ some b
    → Decodes f.schema f.fingerprint m b
unfolding marshal_one
Decodes-one f m b e h = Decodes-map f.schema f.fingerprint m b (ground arith)

abbrev one_entry : Codec
one_entry = record { marshal = marshal_one; unmarshal = unmarshal_one; decodes = Decodes-one }

-- No call fails.
abbrev calm : Disk
calm = record {
  temp_name = text "t";
  create_fails = false;
  chmod_fails = false;
  write_fails = none;
  close_fails = false;
  rename_fails = false;
  remove_fails = false;
}

abbrev empty_disk : Files
empty_disk p = none

abbrev encoded : Text
encoded = 1 ∷ 107 ∷ 200 ∷ 5 ∷ text "f"

encodes : marshal_one (envelope store) ≡ some encoded
unfolding marshal_one marshal_map marshal_entry
encodes = refl

temp_is_other : text "t" ≢ text "c"
temp_is_other e = ground arith

saved : (save marshal_one store calm empty_disk).0 ≡ none
saved =
    save_succeeds marshal_one store calm empty_disk encoded refl encodes refl refl refl refl refl

save_atomic_example :
    let (r, after) = save marshal_one store calm empty_disk in
    (after (text "c") ≡ kept_or_replaced r none (encoded ++ (10 ∷ []))) × (after (text "x") ≡ none)
save_atomic_example =
    save_atomic marshal_one store calm empty_disk encoded (text "x") refl encodes temp_is_other
      (λ e. ground arith) (λ e. ground arith)

get-new-save_example :
    get
      (new unmarshal_one
        (text "c")
        (pos 100)
        true
        (text "f")
        (save marshal_one store calm empty_disk).1)
      (text "k")
      (pos 8)
    ≡ get store (text "k") (pos 8)
get-new-save_example =
    get-new-save one_entry store calm empty_disk encoded (text "k") (pos 8) refl encodes
      temp_is_other saved
