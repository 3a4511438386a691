-- ===== src/DeviceJwt.antt =====
-- src/nomothetic/device_jwt.py: the signing secret of the device's tokens, on disk. What
-- `secrets.token_urlsafe(48)` draws is an argument, `drawn`.
pub mod Stability
mod Examples
use nomothetic.Base.{
  ℕ, ◌≤◌, Bool, Option, none, some, List, [], ◌∷◌, length, ltb, Result, ok, raised, if◌then◌else◌,
}
use nomothetic.Base.Text.{Text, text, strip}
use nomothetic.Base.Dict
use nomothetic.Base.Dict.{Dict}
use nomothetic.Files.{
  SecretFile, Reading, decoded, os_error, undecodable, Disk, environ_get, write_secret_file,
  has_size, PythonError, unicode_decode_error,
}

abbrev pub default_secret_path : Text
default_secret_path = text "/var/lib/nomon/device_jwt_secret"

abbrev pub min_secret_length : ℕ
min_secret_length = 32

unfoldable pub get_secret_path : Dict Text → Text
unfolding environ_get
get_secret_path environ =
    environ_get environ (text "NOMON_DEVICE_JWT_SECRET_PATH") default_secret_path

-- `DeviceJwtSecretStore(path)._path`: an empty path is no path.
unfoldable pub store_path : Option Text → Dict Text → Text
store_path none environ = get_secret_path environ
store_path (some []) environ = get_secret_path environ
store_path (some (c ∷ path)) environ = c ∷ path

-- A value that is too short is refused.
unfoldable pub long_enough : Text → Option Text
long_enough value = if ltb (length value) min_secret_length then none else some value

unfoldable pub read_reading : Reading → Result PythonError (Option Text)
unfolding long_enough
read_reading os_error = ok none
read_reading undecodable = raised unicode_decode_error
read_reading (decoded contents) = ok (long_enough (strip contents))

unfoldable pub read_file : Option SecretFile → Result PythonError (Option Text)
unfolding read_reading
read_file none = ok none
read_file (some file) = read_reading file.reading

unfoldable pub read : (path : Text) → Disk → Result PythonError (Option Text)
unfolding read_file
read path disk = read_file (Dict.get disk path)

unfoldable pub unreadable_file_present : (path : Text) → Disk → Bool
unfolding has_size
unreadable_file_present path disk = has_size min_secret_length (Dict.get disk path)

load_read :
    (path drawn : Text) (writes : Bool)
    → Result PythonError (Option Text)
    → Disk
    → Result PythonError Text × Disk
load_read path drawn writes (raised e) disk = (raised e, disk)
load_read path drawn writes (ok (some existing)) disk = (ok existing, disk)
load_read path drawn writes (ok none) disk =
    if unreadable_file_present path disk
    then (ok drawn, disk)
    else (ok drawn, write_secret_file path drawn writes disk)

unfoldable pub load_or_generate :
    (path drawn : Text) (writes : Bool) → Disk → Result PythonError Text × Disk
unfolding load_read
load_or_generate path drawn writes disk = load_read path drawn writes (read path disk) disk

unfoldable pub rotate : (path drawn : Text) (writes : Bool) → Disk → Text × Disk
rotate path drawn writes disk = (drawn, write_secret_file path drawn writes disk)
