-- ===== src/Cache/Disk.antt =====
-- internal/cache/cache.go: `New` and `Save`. encoding/json is a parameter, and the file system is a
-- map from paths to contents in which any call may fail.
pub mod Atomic
pub mod Reload
use markdown_linkerator.Base.{
  ℕ, Bool, true, false, ◌&&◌, ◌||◌, not, Option, none, some, List, [], ◌∷◌, ◌++◌, ◌==◌,
  if◌then◌else◌, Text, text, text_eq, Map, lookup, insert, ℤ, or_else, ◌≡◌,
}
use markdown_linkerator.Cache.{Entry, Cache}

abbrev pub schema_version : ℕ
schema_version = 1

-- The envelope on disk. `entries` is `none` where the file has a null or no map.
pub record Envelope : Type 0 where
  pub schema : ℕ
  pub fingerprint : Text
  pub entries : Option (Map Entry)

abbrev pub Files : Type 0
Files = Text → Option Text

unfoldable pub write_file : Text → Option Text → Files → Files
write_file path contents files p = if text_eq path p then contents else files p

-- What the file system does in one `Save`: the name that CreateTemp picks, and which calls fail. A
-- failed write leaves some part of the bytes behind.
pub record Disk : Type 0 where
  pub temp_name : Text
  pub create_fails : Bool
  pub chmod_fails : Bool
  pub write_fails : Option Text
  pub close_fails : Bool
  pub rename_fails : Bool
  pub remove_fails : Bool

pub data SaveError : Type 0 where
  marshal_error create_error chmod_error write_error close_error rename_error : SaveError

-- The result, and the files after it.
abbrev pub Saved : Type 0
Saved = Option SaveError × Files

-- The deferred os.Remove of the temporary file.
remove_temp : Disk → Files → Files
unfolding write_file
remove_temp d files = if d.remove_fails then files else write_file d.temp_name none files

-- os.Rename of the temporary file onto the cache's path; the deferred os.Remove then finds nothing.
rename_temp : Disk → Text → Files → Saved
unfolding write_file remove_temp
rename_temp d path files = if d.rename_fails then (some rename_error, remove_temp d files) else (
  none,
  remove_temp d (write_file path (files d.temp_name) (write_file d.temp_name none files)),
)

close_temp : Disk → Text → Files → Saved
unfolding rename_temp
close_temp d path files =
    if d.close_fails then (some close_error, remove_temp d files) else rename_temp d path files

write_temp : Disk → Text → Text → Files → Saved
unfolding write_file close_temp
write_temp d path bytes files = elim d.write_fails [
  | some part ↦ (some write_error, remove_temp d (write_file d.temp_name (some part) files))
  | none ↦ close_temp d path (write_file d.temp_name (some bytes) files)
]

chmod_temp : Disk → Text → Text → Files → Saved
unfolding write_temp
chmod_temp d path bytes files =
    if d.chmod_fails then (some chmod_error, remove_temp d files) else write_temp d path bytes files

create_temp : Disk → Text → Text → Files → Saved
unfolding chmod_temp write_file
create_temp d path bytes files =
    if d.create_fails
    then (some create_error, files)
    else chmod_temp d path bytes (write_file d.temp_name (some []) files)

module _ (marshal : Envelope → Option Text) where
  unfoldable pub save : Cache → Disk → Files → Saved
  unfolding create_temp
  save c d files =
      if not c.enabled
      then (none, files)
      else elim (marshal (record {
        schema = schema_version;
        fingerprint = c.fingerprint;
        entries = some c.entries;
      })) [
        | none ↦ (some marshal_error, files)
        | some b ↦ create_temp d c.path (b ++ (10 ∷ [])) files
      ]

module _ (unmarshal : Text → Option Envelope) where
  -- The entries that a file gives the new cache.
  unfoldable pub load : Text → Option Text → Map Entry
  load fingerprint none = []
  load fingerprint (some b) = elim (unmarshal b) [
    | none ↦ []
    | some f ↦
        if not (f.schema == schema_version) || not (text_eq f.fingerprint fingerprint)
        then []
        else or_else f.entries []
  ]

  unfoldable pub new : Text → ℤ → Bool → Text → Files → Cache
  unfolding load
  new path ttl enabled fingerprint files = record {
    entries = if enabled then load fingerprint (files path) else [];
    path = path;
    ttl = ttl;
    enabled = enabled;
    fingerprint = fingerprint;
  }
