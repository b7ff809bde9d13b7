-- ===== src/Cache/Disk/Reload.antt =====
-- internal/cache/cache.go: `New` on the file that `Save` wrote.
use markdown_linkerator.Base.{
  ◌≡◌, ◌≢◌, refl, true, Option, none, some, ◌∷◌, [], ◌++◌, arith, Text, text_eq_iff, Map, lookup, ℤ,
}
use markdown_linkerator.Cache.{Entry, Cache, get}
use markdown_linkerator.Cache.Disk.{Envelope, Files, Disk, save, load, new}
use markdown_linkerator.Cache.Disk.Atomic.{envelope, save_path}

-- What the code relies on of encoding/json: decoding what was encoded, with the line feed that
-- `Save` appends, gives back the schema, the fingerprint and the value under every key. The order
-- of the keys may differ.
pub record Codec : Type 0 where
  pub marshal : Envelope → Option Text
  pub unmarshal : Text → Option Envelope
  pub decodes :
      (f : Envelope) (m : Map Entry) (b : Text)
      → f.entries ≡ some m
      → marshal f ≡ some b
      → (g : Envelope) × (m' : Map Entry) × (unmarshal (b ++ (10 ∷ [])) ≡ some g)
        × (g.schema ≡ f.schema)
        × (g.fingerprint ≡ f.fingerprint)
        × (g.entries ≡ some m')
        × ((k : Text) → lookup k m' ≡ lookup k m)

module _ (j : Codec) where
  open j use {marshal, unmarshal, decodes}

  load_saved :
      (c : Cache) (b : Text) (k : Text)
      → marshal (envelope c) ≡ some b
      → lookup k (load unmarshal c.fingerprint (some (b ++ (10 ∷ [])))) ≡ lookup k c.entries
  unfolding load
  load_saved c b k e =
      let (g, m, ge, gs, gf, gm, same) = decodes (envelope c) c.entries b refl e in
      ground (arith, same k, text_eq_iff g.fingerprint c.fingerprint, ge, gs, gf, gm)

  load_foreign :
      (c : Cache) (b other : Text)
      → marshal (envelope c) ≡ some b
      → other ≢ c.fingerprint
      → load unmarshal other (some (b ++ (10 ∷ []))) ≡ []
  unfolding load
  load_foreign c b other e ne =
      let (g, m, ge, gs, gf, gm, same) = decodes (envelope c) c.entries b refl e in
      ground (arith, text_eq_iff g.fingerprint other, ge, gf)

  module _ (c : Cache) (d : Disk) (before : Files) (b : Text) where
    -- A cache that was saved with success, and is opened again with the same path, fingerprint and
    -- time to live, answers every read at every time as the saved cache does.
    pub get-new-save :
        (k : Text) (now : ℤ)
        → c.enabled ≡ true
        → marshal (envelope c) ≡ some b
        → d.temp_name ≢ c.path
        → (save marshal c d before).0 ≡ none
        → get (new unmarshal c.path c.ttl true c.fingerprint (save marshal c d before).1) k now
          ≡ get c k now
    unfolding get new
    get-new-save k now on e apart done =
        ground (arith, save_path marshal c d before b on e apart, load_saved c b k e)

    -- Opened under another fingerprint, which stands for another request policy, the saved file
    -- gives a cache in which every read misses.
    pub get-new-foreign :
        (other k : Text) (ttl now : ℤ)
        → c.enabled ≡ true
        → marshal (envelope c) ≡ some b
        → d.temp_name ≢ c.path
        → (save marshal c d before).0 ≡ none
        → other ≢ c.fingerprint
        → get (new unmarshal c.path ttl true other (save marshal c d before).1) k now ≡ none
    unfolding get new lookup
    get-new-foreign other k ttl now on e apart done ne =
        ground (arith, save_path marshal c d before b on e apart, load_foreign c b other e ne)
