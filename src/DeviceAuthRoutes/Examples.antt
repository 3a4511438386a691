-- ===== src/DeviceAuthRoutes/Examples.antt =====
-- A device that is paired again with its passkey.
use nomothetic.Base.{◌≡◌, ◌≢◌, refl, true, false, none, some, [], ◌∷◌, ok, raised}
use nomothetic.Base.Text.{Text, text, text_eq, text_ne}
use nomothetic.Base.Dict
use nomothetic.Base.Dict.{Dict}
use nomothetic.RateLimit.{
  limiter, pairing_rate_limit, check_required, check, clean_old, stamps, set_stamps, client_ip,
}
use nomothetic.TokenStore.{StoredToken, delete_tokens_for_user}
use nomothetic.UserStore.{user_exists}
use nomothetic.UserStore
use nomothetic.Auth.{
  AuthService, TokenPair, update_signing_secret, normalise, invalid_refresh_token,
}
use nomothetic.Auth.Accounts.{create_user}
use nomothetic.Auth.Tokens.{create_access_token}
use nomothetic.Auth.Sessions.{create_tokens, create_refresh_token, revoke_all_tokens, refresh_token}
use nomothetic.DeviceJwt
use nomothetic.Pairing.{compare_digest}
use nomothetic.Pairing.Passkey.{is_decimal}
use nomothetic.Pairing.State.{PairingState, verify_secret, get_active_secret, reset_session}
use nomothetic.DeviceAuthRoutes.{
  Device, Context, Draws, PairRequest, device_owner_email, pair, issue_pairing_tokens,
  reset_device_session,
}
use nomothetic.DeviceAuthRoutes.Issue.{IsPaired}
use nomothetic.DeviceAuthRoutes.Pair.{pair_effect}
use nomothetic.Toys.{ToyToken, toy_jose, toy_hashing}

abbrev passkey : Text
passkey = text "00000042"

abbrev drawn : Text
drawn = text "0123456789abcdef0123456789abcdef"

abbrev pairing : PairingState
pairing = record {
  secret = some passkey;
  last_secret = some passkey;
  paired = false;
  owner_email = none;
  ap_passphrase = none;
  jwt_secret = text "fedcba9876543210fedcba9876543210";
}

abbrev session : StoredToken
session = record { email = device_owner_email; expires_at = 100 }

abbrev service : AuthService
service = record {
  secret = text "fedcba9876543210fedcba9876543210";
  issuer = text "nomon-device";
  user_store = [];
  token_store = (text "old", session) ∷ [];
}

abbrev device : Device
device = record {
  limiters = (text "pairing_limiter", limiter 3 60) ∷ [];
  pairing_state = some pairing;
  auth_service = some service;
  disk = [];
}

abbrev phone : Context
phone = record {
  trust_proxy = text "";
  request = record { forwarded_for = none; client_host = some (text "192.168.1.7") };
  monotonic = 2;
  now = 5;
}

abbrev with_passkey : PairRequest
with_passkey = record { secret = passkey; display_name = text "Ann" }

abbrev draws : Draws
draws = record {
  password = text "pw";
  salt = text "s";
  jwt_secret = drawn;
  writes = true;
  refresh = text "new";
}

abbrev paired_device : Device
paired_device = (pair is_decimal [] toy_hashing toy_jose phone with_passkey draws device).1

abbrev granted : TokenPair ToyToken
granted = record {
  access_token =
      create_access_token toy_jose device_owner_email 5 (record service { secret = drawn });
  refresh_token = text "new";
  expires_in = 900;
}

pair_granted :
    pair is_decimal [] toy_hashing toy_jose phone with_passkey draws device
    ≡ (ok granted, paired_device)
unfolding pair issue_pairing_tokens reset_device_session verify_secret get_active_secret
    compare_digest update_signing_secret reset_session create_user user_exists UserStore.create_user
    create_tokens create_refresh_token create_access_token revoke_all_tokens delete_tokens_for_user
    DeviceJwt.rotate pairing_rate_limit check_required check clean_old stamps set_stamps client_ip
    Dict.get Dict.put Dict.retain text_eq normalise
pair_granted = refl

new-ne-old : text "new" ≢ text "old"
unfolding text_eq
new-ne-old = text_ne (text "new") (text "old") refl

session_held : Dict.get service.token_store (text "old") ≡ some session
unfolding Dict.get text_eq
session_held = refl

one_session : Dict.Distinct service.token_store
unfolding Dict.get
one_session = (refl, tt)

pair_effect_example :
    (verify_secret is_decimal [] passkey pairing [] ≡ ok true)
    × ((paired : PairingState) × (svc : AuthService) × IsPaired is_decimal [] toy_hashing toy_jose
          draws 5 granted paired_device paired svc
        × ((refresh_token toy_hashing toy_jose (text "old") (text "next") 6 svc).0
            ≡ raised invalid_refresh_token))
pair_effect_example =
    pair_effect is_decimal [] toy_hashing toy_jose phone with_passkey draws paired_device granted
      device pairing service (text "old") (text "next") 6 session pair_granted refl refl one_session
      session_held refl new-ne-old
