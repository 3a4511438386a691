-- ===== src/Pairing/State.antt =====
-- `PairingState`, over the disk and the environment. Each draw of `secrets` and each outcome of a
-- write or a deletion is an argument.
use nomothetic.Base.{
  ℕ, Bool, true, false, Option, none, some, is_some, Result, ok, raised, if◌then◌else◌,
}
use nomothetic.Base.Text.{Text}
use nomothetic.Base.Dict.{Dict}
use nomothetic.Files.{Disk, write_secret_file, unlink, PythonError}
use nomothetic.DeviceJwt
use nomothetic.Pairing.{
  get_ap_passphrase_path, get_pairing_secret_path, is_valid_ap_passphrase, new_ap_passphrase,
  new_passkey, read_secret_file, secret_file_present, compare_digest, is_passkey,
}

pub record PairingState : Type 0 where
  pub secret : Option Text
  pub last_secret : Option Text
  pub paired : Bool
  pub owner_email : Option Text
  pub ap_passphrase : Option Text
  pub jwt_secret : Text

-- `__init__`, which raises where the store does.
init_jwt : Result PythonError Text → Result PythonError PairingState
init_jwt (raised e) = raised e
init_jwt (ok jwt_secret) = ok (record {
  secret = none;
  last_secret = none;
  paired = false;
  owner_email = none;
  ap_passphrase = none;
  jwt_secret = jwt_secret;
})

unfoldable pub set_new_secret : (draw : ℕ) → PairingState → PairingState
set_new_secret draw s = record s {
  secret = some (new_passkey draw);
  last_secret = some (new_passkey draw);
  paired = false;
}

abbrev pub load_existing : Text → PairingState → PairingState
load_existing existing s = record s {
  secret = some existing;
  last_secret = some existing;
  paired = false;
}

unfoldable pub complete_pairing : (owner_email : Text) → PairingState → PairingState
complete_pairing owner_email s = record s {
  paired = true;
  owner_email = some owner_email;
  secret = none;
}

-- The secret that a method returned, with the state and the disk it left.
abbrev pub Loaded : Type 0
Loaded = Result PythonError Text × PairingState × Disk

module _ (is_digit : ℕ → Bool) (environ : Dict Text) where
  unfoldable pub init :
      (drawn : Text) (writes : Bool) → Disk → Result PythonError PairingState × Disk
  unfolding init_jwt
  init drawn writes disk =
      let (jwt_secret, disk') =
        DeviceJwt.load_or_generate (DeviceJwt.store_path none environ) drawn writes disk in
      (init_jwt jwt_secret, disk')

  unfoldable pub generate_secret : (draw : ℕ) (writes : Bool) → PairingState → Disk → Loaded
  generate_secret draw writes s disk = (
    ok (new_passkey draw),
    set_new_secret draw s,
    write_secret_file (get_pairing_secret_path environ) (new_passkey draw) writes disk,
  )

  unfoldable pub load_read_secret :
      (draw : ℕ) (writes : Bool) → Result PythonError (Option Text) → PairingState → Disk → Loaded
  load_read_secret draw writes (raised e) s disk = (raised e, s, disk)
  load_read_secret draw writes (ok (some existing)) s disk =
      if is_passkey is_digit existing
      then (ok existing, load_existing existing s, disk)
      else generate_secret draw writes s disk
  load_read_secret draw writes (ok none) s disk =
      if secret_file_present (get_pairing_secret_path environ) disk
      then (ok (new_passkey draw), set_new_secret draw s, disk)
      else generate_secret draw writes s disk

  unfoldable pub load_or_generate_secret : (draw : ℕ) (writes : Bool) → PairingState → Disk → Loaded
  unfolding load_read_secret
  load_or_generate_secret draw writes s disk =
      load_read_secret draw writes (read_secret_file (get_pairing_secret_path environ) disk) s disk

  unfoldable pub generate_ap_passphrase :
      (draws : ℕ → ℕ) (writes : Bool) → PairingState → Disk → Loaded
  generate_ap_passphrase draws writes s disk = (
    ok (new_ap_passphrase draws),
    record s { ap_passphrase = some (new_ap_passphrase draws) },
    write_secret_file (get_ap_passphrase_path environ) (new_ap_passphrase draws) writes disk,
  )

  load_read_passphrase :
      (draws : ℕ → ℕ) (writes : Bool)
      → Result PythonError (Option Text)
      → PairingState
      → Disk
      → Loaded
  load_read_passphrase draws writes (raised e) s disk = (raised e, s, disk)
  load_read_passphrase draws writes (ok (some existing)) s disk =
      if is_valid_ap_passphrase existing
      then (ok existing, record s { ap_passphrase = some existing }, disk)
      else generate_ap_passphrase draws writes s disk
  load_read_passphrase draws writes (ok none) s disk =
      if secret_file_present (get_ap_passphrase_path environ) disk
      then (
        ok (new_ap_passphrase draws),
        record s { ap_passphrase = some (new_ap_passphrase draws) },
        disk,
      )
      else generate_ap_passphrase draws writes s disk

  unfoldable pub load_or_generate_ap_passphrase :
      (draws : ℕ → ℕ) (writes : Bool) → PairingState → Disk → Loaded
  unfolding load_read_passphrase
  load_or_generate_ap_passphrase draws writes s disk =
      load_read_passphrase draws writes (read_secret_file (get_ap_passphrase_path environ) disk) s
        disk

  -- The secret of the file, or else the last one of this run.
  unfoldable pub active_read :
      (last_secret : Option Text)
      → Result PythonError (Option Text)
      → Result PythonError (Option Text)
  active_read last_secret (raised e) = raised e
  active_read last_secret (ok none) = ok last_secret
  active_read last_secret (ok (some existing)) =
      if is_passkey is_digit existing then ok (some existing) else ok last_secret

  unfoldable pub active_or_read :
      Option Text → PairingState → Disk → Result PythonError (Option Text)
  unfolding active_read
  active_or_read (some secret) s disk = ok (some secret)
  active_or_read none s disk =
      active_read s.last_secret (read_secret_file (get_pairing_secret_path environ) disk)

  unfoldable pub get_active_secret : PairingState → Disk → Result PythonError (Option Text)
  unfolding active_or_read
  get_active_secret s disk = active_or_read s.secret s disk

  unfoldable pub is_present : Result PythonError (Option Text) → Result PythonError Bool
  is_present (raised e) = raised e
  is_present (ok active) = ok (is_some active)

  unfoldable pub has_pairing_secret : PairingState → Disk → Result PythonError Bool
  unfolding is_present
  has_pairing_secret s disk = is_present (get_active_secret s disk)

  unfoldable pub verify_active :
      Result PythonError (Option Text) → (candidate : Text) → Result PythonError Bool
  verify_active (raised e) candidate = raised e
  verify_active (ok none) candidate = ok false
  verify_active (ok (some active)) candidate = compare_digest active candidate

  unfoldable pub verify_secret : (candidate : Text) → PairingState → Disk → Result PythonError Bool
  unfolding verify_active
  verify_secret candidate s disk = verify_active (get_active_secret s disk) candidate

  unfoldable pub consume_verified :
      Result PythonError Bool → PairingState → Result PythonError Bool × PairingState
  consume_verified (raised e) s = (raised e, s)
  consume_verified (ok false) s = (ok false, s)
  consume_verified (ok true) s = (ok true, record s { paired = true; secret = none })

  unfoldable pub verify_and_consume :
      (candidate : Text) → PairingState → Disk → Result PythonError Bool × PairingState
  unfolding consume_verified
  verify_and_consume candidate s disk =
      if s.paired then (ok false, s) else consume_verified (verify_secret candidate s disk) s

  unfoldable pub reset_session :
      (drawn : Text) (writes : Bool) → PairingState → Disk → PairingState × Disk
  reset_session drawn writes s disk =
      let (jwt_secret, disk') =
        DeviceJwt.rotate (DeviceJwt.store_path none environ) drawn writes disk in
      (
        record s { paired = false; owner_email = none; secret = none; jwt_secret = jwt_secret },
        disk',
      )

  unfoldable pub reset :
      (drawn : Text) (writes deletes_secret deletes_passphrase : Bool)
      → PairingState
      → Disk
      → PairingState × Disk
  reset drawn writes deletes_secret deletes_passphrase s disk =
      let (s', disk') = reset_session drawn writes s disk in
      (
        record s' { last_secret = none; ap_passphrase = none },
        unlink (get_ap_passphrase_path environ) deletes_passphrase
            (unlink (get_pairing_secret_path environ) deletes_secret disk'),
      )
