-- ===== src/Files.antt =====
-- The files that pairing.py and device_jwt.py keep their secrets in, and what `open`,
-- `os.path.getsize`, `mkstemp` with `os.rename`, `os.unlink` and `os.environ.get` do there. Whether a
-- write or a deletion meets an OSError is an argument.
use nomothetic.Base.{ℕ, ◌+◌, Bool, false, Option, none, some, [], ◌∷◌, ltb, leb, if◌then◌else◌}
use nomothetic.Base.Text.{Text}
use nomothetic.Base.Dict
use nomothetic.Base.Dict.{Dict}

-- Reading a file as UTF-8 text: its text, an OSError, or a UnicodeDecodeError, which is no OSError.
pub data Reading : Type 0 where
  decoded : Text → Reading
  os_error undecodable : Reading

pub record SecretFile : Type 0 where
  pub reading : Reading
  -- in bytes
  pub size : ℕ

-- The files that are there, by path.
abbrev pub Disk : Type 0
Disk = Dict SecretFile

-- `os.environ.get(name, default)`
unfoldable pub environ_get : Dict Text → (name default : Text) → Text
environ_get environ name default = elim (Dict.get environ name) [
  | none ↦ default
  | some value ↦ value
]

unfoldable pub utf8_length : Text → ℕ
utf8_length [] = 0
utf8_length (c ∷ s) =
    (if ltb c 128 then 1 else if ltb c 2048 then 2 else if ltb c 65536 then 3 else 4)
    + utf8_length s

unfoldable pub file_of : Text → SecretFile
unfolding utf8_length
file_of secret = record { reading = decoded secret; size = utf8_length secret }

-- A write into a temporary file of the directory that is renamed to the path: it is there in full,
-- or, where `writes` is false, the disk is as it was. `_write_shared_secret`,
-- `_write_shared_ap_passphrase` and `DeviceJwtSecretStore._write` raise nothing.
unfoldable pub write_secret_file : (path secret : Text) (writes : Bool) → Disk → Disk
write_secret_file path secret writes disk =
    if writes then Dict.put disk path (file_of secret) else disk

-- `os.path.getsize(path) >= n`, with an OSError as `False`.
unfoldable pub has_size : ℕ → Option SecretFile → Bool
has_size n none = false
has_size n (some file) = leb n file.size

-- `os.unlink(path)`, where an OSError is passed over.
unfoldable pub unlink : (path : Text) (deletes : Bool) → Disk → Disk
unlink path deletes disk = if deletes then Dict.remove disk path else disk

-- `UnicodeDecodeError`, and the `TypeError` of `hmac.compare_digest`.
pub data PythonError : Type 0 where
  unicode_decode_error type_error : PythonError
