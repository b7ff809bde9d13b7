-- ===== src/Cache/Disk/Atomic.antt =====
-- internal/cache/cache.go: what `Save` does to the files, whichever of its calls fails.
use markdown_linkerator.Base.{
  ◌≡◌, ◌≢◌, true, false, Option, none, some, ◌∷◌, [], ◌++◌, arith, Text, text_eq_iff, text_eq_refl,
}
use markdown_linkerator.Cache.{Cache}
use markdown_linkerator.Cache.Disk.{
  Envelope, Files, Disk, SaveError, create_temp, save, schema_version,
}

-- What the run of `Save` on the bytes leaves at the path.
abbrev pub kept_or_replaced : Option SaveError → Option Text → Text → Option Text
kept_or_replaced none old bytes = some bytes
kept_or_replaced (some e) old bytes = old

module _ (d : Disk) (path bytes : Text) (before : Files) where
  create_temp_path :
      d.temp_name ≢ path
      → (create_temp d path bytes before).1 path
        ≡ kept_or_replaced (create_temp d path bytes before).0 (before path) bytes
  unfolding create_temp
  create_temp_path apart =
      ground (arith, text_eq_iff d.temp_name path, text_eq_refl path, text_eq_refl d.temp_name)

  create_temp_others :
      (p : Text) → p ≢ path → p ≢ d.temp_name → (create_temp d path bytes before).1 p ≡ before p
  unfolding create_temp
  create_temp_others p h k = ground (arith, text_eq_iff path p, text_eq_iff d.temp_name p)

  create_temp_cleans :
      d.temp_name ≢ path
      → d.remove_fails ≡ false
      → before d.temp_name ≡ none
      → (create_temp d path bytes before).1 d.temp_name ≡ none
  unfolding create_temp
  create_temp_cleans apart r h =
      ground (arith, text_eq_iff path d.temp_name, text_eq_refl d.temp_name)

-- The envelope that `Save` writes for a cache.
abbrev pub envelope : Cache → Envelope
envelope c = record {
  schema = schema_version;
  fingerprint = c.fingerprint;
  entries = some c.entries;
}

module _ (marshal : Envelope → Option Text) (c : Cache) (d : Disk) (before : Files) where
  -- `Save` of an enabled cache, under a temporary name that is not the cache's path. On success the
  -- path holds exactly the encoded cache and a line feed; on any error it holds what it held before.
  -- No path but that one and the temporary one changes.
  pub save_atomic :
      (b p : Text)
      → c.enabled ≡ true
      → marshal (envelope c) ≡ some b
      → d.temp_name ≢ c.path
      → p ≢ c.path
      → p ≢ d.temp_name
      → let (r, after) = save marshal c d before in
        (after c.path ≡ kept_or_replaced r (before c.path) (b ++ (10 ∷ []))) × (after p ≡ before p)
  unfolding save
  save_atomic b p on e apart h k =
      rw (on, e)
        (create_temp_path d c.path _ before apart, create_temp_others d c.path _ before p h k)

  -- Whether it succeeds or fails, and at whatever call, `Save` leaves no temporary file behind, if
  -- the name was free and the removal works.
  pub save_cleans :
      (b : Text)
      → c.enabled ≡ true
      → marshal (envelope c) ≡ some b
      → d.temp_name ≢ c.path
      → before d.temp_name ≡ none
      → d.remove_fails ≡ false
      → (save marshal c d before).1 d.temp_name ≡ none
  unfolding save
  save_cleans b on e apart fresh r = rw (on, e) (create_temp_cleans d c.path _ before apart r fresh)

  pub save_path :
      (b : Text)
      → c.enabled ≡ true
      → marshal (envelope c) ≡ some b
      → d.temp_name ≢ c.path
      → let (r, after) = save marshal c d before in
        after c.path ≡ kept_or_replaced r (before c.path) (b ++ (10 ∷ []))
  unfolding save
  save_path b on e apart = rw (on, e) (create_temp_path d c.path _ before apart)

  -- `Save` succeeds where none of its calls fails.
  pub save_succeeds :
      (b : Text)
      → c.enabled ≡ true
      → marshal (envelope c) ≡ some b
      → d.create_fails ≡ false
      → d.chmod_fails ≡ false
      → d.write_fails ≡ none
      → d.close_fails ≡ false
      → d.rename_fails ≡ false
      → (save marshal c d before).0 ≡ none
  unfolding save create_temp
  save_succeeds b on e h1 h2 h3 h4 h5 = ground arith

  -- A cache that is disabled leaves every file as it was.
  pub save_unwritten : (c.enabled ≡ false) → save marshal c d before ≡ (none, before)
  unfolding save
  save_unwritten h = ground arith
