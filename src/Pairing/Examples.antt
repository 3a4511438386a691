-- ===== src/Pairing/Examples.antt =====
-- Secrets on a small disk, with the ASCII digits as digits.
use nomothetic.Base.{◌≡◌, ◌≢◌, ◌⊎◌, refl, true, false, none, some, List, [], ◌∷◌, ok, raised}
use nomothetic.Base.Text.{Text, text, text_eq, text_ne, strip}
use nomothetic.Base.Dict
use nomothetic.Base.Dict.{Dict}
use nomothetic.Files.{Disk, decoded, type_error, file_of, environ_get}
use nomothetic.DeviceJwt
use nomothetic.Pairing.{
  get_pairing_secret_path, default_pairing_secret_path, new_passkey, read_secret_file,
  secret_file_present, compare_digest, is_passkey,
}
use nomothetic.Pairing.State.{
  PairingState, load_existing, generate_secret, load_or_generate_secret, get_active_secret,
  has_pairing_secret, verify_secret, verify_and_consume, reset,
}
use nomothetic.Pairing.Passkey.{is_decimal}
use nomothetic.Pairing.Restart.{
  load_or_generate_secret-generate_secret, load_or_generate_secret_disk,
}
use nomothetic.Pairing.Session.{
  Call, consume_call, complete_call, reset_session_call, perform_all, secret_path, jwt_path,
}
use nomothetic.Pairing.Candidates.{verify_secret-load_or_generate_secret}
use nomothetic.Pairing.Consumption.{verify_and_consume-verify_and_consume, reset_effect}

abbrev fresh : PairingState
fresh = record {
  secret = none;
  last_secret = none;
  paired = false;
  owner_email = none;
  ap_passphrase = none;
  jwt_secret = text "j";
}

abbrev code : Text
code = text "00000042"

abbrev disk : Disk
disk = (default_pairing_secret_path, file_of code) ∷ []

load_or_generate_secret-generate_secret_example :
    load_or_generate_secret is_decimal [] 7 true fresh
      (generate_secret is_decimal [] 42 true fresh []).2
    ≡ (
      ok (new_passkey 42),
      load_existing (new_passkey 42) fresh,
      (generate_secret is_decimal [] 42 true fresh []).2,
    )
load_or_generate_secret-generate_secret_example =
    load_or_generate_secret-generate_secret is_decimal [] 42 7 true fresh fresh [] (λ c h. h)

load_or_generate_secret_disk_example :
    ((load_or_generate_secret is_decimal [] 7 true fresh disk).2 ≡ disk)
    ⊎ (((load_or_generate_secret is_decimal [] 7 true fresh disk).0 ≡ ok (new_passkey 7))
        × ((load_or_generate_secret is_decimal [] 7 true fresh disk).2
            ≡ Dict.put disk (get_pairing_secret_path []) (file_of (new_passkey 7)))
        × ((secret_file_present (get_pairing_secret_path []) disk ≡ false)
            ⊎ ((existing : Text) × (read_secret_file (get_pairing_secret_path []) disk
                  ≡ ok (some existing))
                × (is_passkey is_decimal existing ≡ false))))
load_or_generate_secret_disk_example = load_or_generate_secret_disk is_decimal [] 7 true fresh disk

loaded : (load_or_generate_secret is_decimal [] 7 true fresh disk).0 ≡ ok code
unfolding load_or_generate_secret read_secret_file get_pairing_secret_path Dict.get text_eq file_of
    is_passkey strip
loaded = refl

apart : jwt_path is_decimal [] ≢ secret_path is_decimal []
unfolding get_pairing_secret_path DeviceJwt.store_path DeviceJwt.get_secret_path environ_get text_eq
    Dict.get
apart = text_ne (jwt_path is_decimal []) (secret_path is_decimal []) refl

abbrev calls : List Call
calls = consume_call code ∷ complete_call (text "o@x") ∷ reset_session_call (text "k") true ∷ []

verify_secret-load_or_generate_secret_example :
    (let (r, s', disk') = load_or_generate_secret is_decimal [] 7 true fresh disk in
      let (s'', disk'') = perform_all is_decimal [] calls (s', disk') in
      verify_secret is_decimal [] code s'' disk'' ≡ compare_digest code code)
verify_secret-load_or_generate_secret_example =
    verify_secret-load_or_generate_secret is_decimal [] 7 true fresh disk code code calls apart
      loaded

consumed : (verify_and_consume is_decimal [] code fresh disk).0 ≡ ok true
unfolding verify_and_consume verify_secret get_active_secret read_secret_file Dict.get text_eq
    get_pairing_secret_path file_of strip is_passkey compare_digest
consumed = refl

verify_and_consume-verify_and_consume_example :
    (let s' =
        (perform_all is_decimal []
          (complete_call (text "o@x") ∷ [])
          ((verify_and_consume is_decimal [] code fresh disk).1, disk)).0 in
      verify_and_consume is_decimal [] code s' disk ≡ (ok false, s'))
verify_and_consume-verify_and_consume_example =
    verify_and_consume-verify_and_consume is_decimal [] code code fresh disk disk
      (complete_call (text "o@x") ∷ []) consumed ((λ h. h), tt)

reset_effect_example :
    (let (s', disk') = reset is_decimal [] (text "k") true true true fresh disk in
      (has_pairing_secret is_decimal [] s' disk' ≡ ok false)
      × (verify_secret is_decimal [] code s' disk' ≡ ok false)
      × (s'.paired ≡ false)
      × (s'.owner_email ≡ none)
      × (s'.ap_passphrase ≡ none)
      × (s'.jwt_secret ≡ text "k")
      × (load_or_generate_secret is_decimal [] 7 true fresh disk'
          ≡ generate_secret is_decimal [] 7 true fresh disk'))
reset_effect_example = reset_effect is_decimal [] (text "k") code true true 7 fresh fresh disk

-- A candidate that is not ASCII raises, where another wrong one is refused.
umlaut_raises : verify_secret is_decimal [] (228 ∷ []) fresh disk ≡ raised type_error
unfolding verify_secret get_active_secret read_secret_file Dict.get text_eq get_pairing_secret_path
    file_of strip is_passkey compare_digest
umlaut_raises = refl

-- A file with nothing but a newline is readable and no passkey, and it is not replaced.
abbrev blank : Disk
blank = (default_pairing_secret_path, record { reading = decoded (text "\n"); size = 1 }) ∷ []

blank_stays : (load_or_generate_secret is_decimal [] 7 true fresh blank).2 ≡ blank
unfolding load_or_generate_secret read_secret_file Dict.get text_eq get_pairing_secret_path strip
    secret_file_present
blank_stays = refl
