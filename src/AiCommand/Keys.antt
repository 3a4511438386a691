-- ===== src/AiCommand/Keys.antt =====
-- `validate_api_key_format` and `AiKeyStore`, over the files of the device.
use nomothetic.Base.{
  ℕ, ◌≡◌, refl, Bool, true, false, not, ◌&&◌, Option, none, some, [], ◌∷◌, length, ltb, leb, all,
  Result, ok, raised, if◌then◌else◌, arith,
}
use mathlib.Core.Path.{subst}
use nomothetic.Base.Text.{
  Text, text, strip, starts_with, is_space, strip_lem, all-weaken, text_eq_refl,
}
use nomothetic.Base.Dict
use nomothetic.Base.Dict.{Dict, get-put}
use nomothetic.Files.{
  Disk, Reading, decoded, os_error, undecodable, SecretFile, PythonError, unicode_decode_error,
  environ_get, file_of, write_secret_file,
}

abbrev pub default_key_path : Text
default_key_path = text "/var/lib/nomon/ai_api_key"

abbrev pub min_stored_key_length : ℕ
min_stored_key_length = 20

abbrev pub max_stored_key_length : ℕ
max_stored_key_length = 200

pub data KeyError : Type 0 where
  bad_prefix bad_length bad_characters : KeyError

-- `AiKeyStoreError`
pub data StoreError : Type 0 where
  no_directory not_written not_removed : StoreError

pub data Source : Type 0 where
  stored env : Source

-- `is_printable` is `str.isprintable` of one character.
module _ (is_printable : ℕ → Bool) where
  abbrev pub is_key_character : ℕ → Bool
  is_key_character c = not (is_space c) && is_printable c

  abbrev pub has_key_length : Text → Bool
  has_key_length key =
      leb min_stored_key_length (length key) && leb (length key) max_stored_key_length

  unfoldable pub validate_api_key_format : Text → Result KeyError Text
  validate_api_key_format api_key =
      let key = strip api_key in
      if not (starts_with key (text "sk-ant-"))
      then raised bad_prefix
      else if not (has_key_length key)
      then raised bad_length
      else if not (all is_key_character key)
      then raised bad_characters
      else ok key

-- `AiKeyStore(path)._path`: an empty path is no path.
unfoldable pub key_path : Option Text → Dict Text → Text
key_path none environ = environ_get environ (text "NOMON_AI_API_KEY_PATH") default_key_path
key_path (some []) environ = environ_get environ (text "NOMON_AI_API_KEY_PATH") default_key_path
key_path (some (c ∷ path)) environ = c ∷ path

load_reading : Reading → Result PythonError (Option Text)
load_reading os_error = ok none
load_reading undecodable = raised unicode_decode_error
load_reading (decoded contents) =
    let value = strip contents in
    ok (if ltb (length value) min_stored_key_length then none else some value)

load_file : Option SecretFile → Result PythonError (Option Text)
unfolding load_reading
load_file none = ok none
load_file (some file) = load_reading file.reading

-- Only an OSError is caught.
unfoldable pub load : (path : Text) → Disk → Result PythonError (Option Text)
unfolding load_file
load path disk = load_file (Dict.get disk path)

non_empty : Text → Option (Text × Source)
non_empty [] = none
non_empty (c ∷ key) = some (c ∷ key, env)

resolve_loaded :
    Result PythonError (Option Text) → Dict Text → Result PythonError (Option (Text × Source))
unfolding non_empty
resolve_loaded (raised e) environ = raised e
resolve_loaded (ok (some key)) environ = ok (some (key, stored))
resolve_loaded (ok none) environ =
    ok (non_empty (strip (environ_get environ (text "ANTHROPIC_API_KEY") [])))

unfoldable pub resolve :
    (path : Text) → Dict Text → Disk → Result PythonError (Option (Text × Source))
unfolding resolve_loaded
resolve path environ disk = resolve_loaded (load path disk) environ

source_of : Result PythonError (Option (Text × Source)) → Result PythonError (Option Source)
source_of (raised e) = raised e
source_of (ok none) = ok none
source_of (ok (some resolved)) = ok (some resolved.1)

unfoldable pub source : (path : Text) → Dict Text → Disk → Result PythonError (Option Source)
unfolding source_of
source path environ disk = source_of (resolve path environ disk)

-- Whether the directory is there and the write succeeds are arguments.
unfoldable pub save :
    (path api_key : Text) (has_directory writes : Bool) → Disk → Result StoreError (Unit {0}) × Disk
save path api_key has_directory writes disk =
    if not has_directory
    then (raised no_directory, disk)
    else if writes
    then (ok tt, write_secret_file path api_key true disk)
    else (raised not_written, disk)

clear_found :
    (path : Text) (deletes : Bool) → Option SecretFile → Disk → Result StoreError Bool × Disk
clear_found path deletes none disk = (ok false, disk)
clear_found path deletes (some file) disk =
    if deletes then (ok true, Dict.remove disk path) else (raised not_removed, disk)

unfoldable pub clear : (path : Text) (deletes : Bool) → Disk → Result StoreError Bool × Disk
unfolding clear_found
clear path deletes disk = clear_found path deletes (Dict.get disk path) disk

module _ (is_printable : ℕ → Bool) where
  passes :
      (b : Bool) (e : KeyError) (rest : Result KeyError Text) (key : Text)
      → (if not b then raised e else rest) ≡ ok key
      → (b ≡ true) × (rest ≡ ok key)
  passes true e rest key h = (refl, h)
  passes false e rest key h = absurd (ground (arith, h))

  no_spaces :
      (s : Text)
      → all (is_key_character is_printable) s ≡ true
      → all (λ c. not (is_space c)) s ≡ true
  no_spaces s h =
      all-weaken (is_key_character is_printable) (λ c. not (is_space c)) s
        (λ c k. ground (arith, k)) h

  -- A key that passes is its own stripped form, and long enough to be loaded.
  validated :
      (raw key : Text)
      → validate_api_key_format is_printable raw ≡ ok key
      → (strip key ≡ key) × (ltb (length key) min_stored_key_length ≡ false)
  unfolding validate_api_key_format
  validated raw key h =
      let s = strip raw in
      let characters =
        if not (all (is_key_character is_printable) s) then raised bad_characters else ok s in
      let sized = if not (has_key_length is_printable s) then raised bad_length else characters in
      let named = passes (starts_with s (text "sk-ant-")) bad_prefix sized key h in
      let long = passes (has_key_length is_printable s) bad_length characters key named.1 in
      let plain = passes (all (is_key_character is_printable) s) bad_characters (ok s) key long.1 in
      let same : s ≡ key = cc in
      subst (λ x. (strip x ≡ x) × (ltb (length x) min_stored_key_length ≡ false)) same
        (strip_lem s (no_spaces s plain.0), ground (arith, long.0))

  -- A key that passes the check and is written is the one that the store resolves to, whatever the
  -- environment holds.
  pub resolve-save :
      (raw key path : Text) (environ : Dict Text) (disk : Disk)
      → validate_api_key_format is_printable raw ≡ ok key
      → resolve path environ (save path key true true disk).1 ≡ ok (some (key, stored))
  unfolding resolve load save write_secret_file file_of
  resolve-save raw key path environ disk h =
      let fine = validated raw key h in
      rw (get-put disk path path (file_of key), text_eq_refl path) (rw (fine.0, fine.1) refl)
