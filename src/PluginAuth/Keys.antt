-- ===== src/PluginAuth/Keys.antt =====
-- `PluginKeyStore` over a directory of files. The key library is a parameter; a write either
-- succeeds or raises OSError and leaves the directory as it was, and which is an argument.
pub mod Stability
use nomothetic.Base.{Bool, true, false, Option, none, some, ◌++◌, Result, ok, raised, if◌then◌else◌}
use nomothetic.Base.Text.{Text, text, text_eq}
use nomothetic.Base.Dict
use nomothetic.Base.Dict.{Dict}
use nomothetic.PluginAuth.Names.{
  PluginAuthError, invalid_pem, not_ed25519, key_conflict, os_error, unsupported_algorithm,
  validate_plugin_name,
}

-- `serialization.load_pem_public_key`: ValueError or TypeError, UnsupportedAlgorithm, a key of another
-- kind, or a key.
pub data Loaded (Key : Type 0) : Type 0 where
  unparseable unsupported other_kind : Loaded Key
  ed25519 : Key → Loaded Key

pub record KeyLibrary (Key : Type 0) : Type 0 where
  pub load_pem_public_key : Text → Loaded Key
  -- `public_bytes` in the raw encoding
  pub raw_pub : Key → Text
  -- `verify`, which raises InvalidSignature where this is false
  pub verify : (key : Key) (signature message : Text) → Bool

-- A file is read, or opening it raises OSError.
pub data File : Type 0 where
  readable : Text → File
  unreadable : File

-- The key directory, by file name.
abbrev pub Directory : Type 0
Directory = Dict File

pub data Registration : Type 0 where
  registered exists : Registration

abbrev pub path_of : Text → Text
path_of name = name ++ text ".pub"

contents : Option File → Option Text
contents none = none
contents (some unreadable) = none
contents (some (readable pem)) = some pem

read_path : Result PluginAuthError Text → Directory → Result PluginAuthError (Option Text)
unfolding contents
read_path (raised e) dir = raised e
read_path (ok name) dir = ok (contents (Dict.get dir (path_of name)))

-- `_read_pem`: an InvalidPluginName is no OSError, and passes.
unfoldable pub read_pem : Text → Directory → Result PluginAuthError (Option Text)
unfolding read_path
read_pem plugin dir = read_path (validate_plugin_name plugin) dir

write_path :
    Result PluginAuthError Text
    → Text
    → (writes : Bool) → Directory
    → Result PluginAuthError Registration × Directory
write_path (raised e) pem writes dir = (raised e, dir)
write_path (ok name) pem writes dir =
    if writes
    then (ok registered, Dict.put dir (path_of name) (readable pem))
    else (raised os_error, dir)

unfoldable pub write_pem :
    (plugin pem : Text) (writes : Bool)
    → Directory
    → Result PluginAuthError Registration × Directory
unfolding write_path
write_pem plugin pem writes dir = write_path (validate_plugin_name plugin) pem writes dir

module _ {Key : Type 0} (library : KeyLibrary Key) where
  open library use {load_pem_public_key, raw_pub, verify}

  -- UnsupportedAlgorithm is not caught.
  as_ed25519 : Loaded Key → Result PluginAuthError (Option Key)
  as_ed25519 unparseable = ok none
  as_ed25519 unsupported = raised unsupported_algorithm
  as_ed25519 other_kind = ok none
  as_ed25519 (ed25519 key) = ok (some key)

  parse_pem : Option Text → Result PluginAuthError (Option Key)
  unfolding as_ed25519
  parse_pem none = ok none
  parse_pem (some pem) = as_ed25519 (load_pem_public_key pem)

  key_read : Result PluginAuthError (Option Text) → Result PluginAuthError (Option Key)
  unfolding parse_pem
  key_read (raised e) = raised e
  key_read (ok pem) = parse_pem pem

  unfoldable pub get_public_key : Text → Directory → Result PluginAuthError (Option Key)
  unfolding key_read
  get_public_key plugin dir = key_read (read_pem plugin dir)

  -- The branch on the key that is stored.
  register_new :
      (plugin pem : Text) (writes : Bool)
      → Key
      → Result PluginAuthError (Option Key)
      → Directory
      → Result PluginAuthError Registration × Directory
  register_new plugin pem writes new (raised e) dir = (raised e, dir)
  register_new plugin pem writes new (ok none) dir = write_pem plugin pem writes dir
  register_new plugin pem writes new (ok (some existing)) dir =
      if text_eq (raw_pub existing) (raw_pub new)
      then (ok exists, dir)
      else (raised key_conflict, dir)

  register_loaded :
      (plugin pem : Text) (writes : Bool)
      → Loaded Key
      → Directory
      → Result PluginAuthError Registration × Directory
  unfolding register_new
  register_loaded plugin pem writes unparseable dir = (raised invalid_pem, dir)
  register_loaded plugin pem writes unsupported dir = (raised unsupported_algorithm, dir)
  register_loaded plugin pem writes other_kind dir = (raised not_ed25519, dir)
  register_loaded plugin pem writes (ed25519 new) dir =
      register_new plugin pem writes new (get_public_key plugin dir) dir

  unfoldable pub register :
      (plugin pem : Text) (writes : Bool)
      → Directory
      → Result PluginAuthError Registration × Directory
  unfolding register_loaded
  register plugin pem writes dir = register_loaded plugin pem writes (load_pem_public_key pem) dir

  -- `verify` raises InvalidSignature, which the code turns into `False`.
  unfoldable pub verify_signature : Key → (message signature : Text) → Bool
  verify_signature public_key message signature = verify public_key signature message
