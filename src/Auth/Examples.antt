-- ===== src/Auth/Examples.antt =====
-- A concrete service: toy versions of the libraries, one account and its tokens.
use nomothetic.Base.{
  ◌≡◌, ◌≢◌, ◌↔◌, ◌⊎◌, refl, true, false, none, some, [], ◌∷◌, arith, ok, raised, if◌then◌else◌,
  is_ok,
}
use nomothetic.Base.Text.{Text, text, text_eq, text_ne, starts_with, lower, strip}
use nomothetic.Base.Dict
use nomothetic.TokenStore.{StoredToken}
use nomothetic.UserStore
use nomothetic.UserStore.{user_exists, UserRecord, iso, seconds, new_user}
use nomothetic.Auth.{
  AuthService, TokenPayload, normalise, invalid_refresh_token, scope_owner, scope_plugin,
  plugin_sub_prefix, timestamp,
}
use nomothetic.Auth.Libraries.{Claims}
use nomothetic.Auth.Accounts.{create_user, authenticate, change_password}
use nomothetic.Auth.Accounts.Login.{HasLogin, authenticate-create_user}
use nomothetic.Auth.Tokens.{verify_token, create_plugin_token, create_access_token}
use nomothetic.Auth.Tokens.Scopes.{verify_token-scope}
use nomothetic.Auth.Sessions.{refresh_token}
use nomothetic.Auth.Sessions.Rotation.{IsAccepted, refresh_token-refresh_token, refresh_token_iff}
use nomothetic.Auth.Sessions.Revocation.{change_password_effect}
use nomothetic.Auth.Routes.{plugin_may_call, raw_io_routes, plugin_allowed_routes, routines_prefix}
use nomothetic.Auth.Routes.Allowed.{OnRoute, OnEventSink, plugin_may_call_iff}
use nomothetic.Auth.Guards.{jwt_required, after_jwt_device, after_jwt_owner, forbidden}
use nomothetic.Toys.{toy_jose, toy_decode, toy_hashing}
use nomothetic.Auth.Guards.Confinement.{
  plugin_payload, owner_payload, plugin_token_confined, access_token_unconfined,
}

abbrev ann : Text
ann = text "ann@x"

abbrev account : UserRecord
account = new_user ann (text "Ann") (text "old") (iso 0)

abbrev token_of : Text → StoredToken
token_of email = record { email = email; expires_at = 100 }

abbrev service : AuthService
service = record {
  secret = text "0123456789abcdef0123456789abcdef";
  issuer = text "nomon-central";
  user_store = (ann, account) ∷ [];
  token_store = (text "t1", token_of ann) ∷ (text "t2", token_of (text "bob@x")) ∷ [];
}

abbrev empty : AuthService
empty = record service { user_store = []; token_store = [] }

created : UserRecord
created = new_user ann (text "Ann") (text "pw") (iso 5)

create_user-empty :
    (create_user toy_hashing (text " Ann@X") (text "pw") (text "Ann") [] 5 empty).0 ≡ ok created
unfolding created create_user user_exists UserStore.create_user normalise lower strip text_eq
    Dict.get
create_user-empty = refl

normalise_same : normalise toy_hashing (text "ANN@x ") ≡ normalise toy_hashing (text " Ann@X")
unfolding normalise lower strip
normalise_same = refl

authenticate-create_user_example :
    (found : UserRecord) × ((authenticate toy_hashing []
        (text "ANN@x ")
        (text "pw")
        9
        (create_user toy_hashing (text " Ann@X") (text "pw") (text "Ann") [] 5 empty).1).0
      ≡ ok (some found))
    × (found.email ≡ normalise toy_hashing (text " Ann@X"))
    × (found.display_name ≡ text "Ann")
    × (found.active ≡ true)
    × (found.last_login_at ≡ some (seconds 9))
authenticate-create_user_example =
    authenticate-create_user toy_hashing [] (text " Ann@X") (text "ANN@x ") (text "pw") (text "Ann")
      [] 5 9 empty created create_user-empty normalise_same

t3-ne-t1 : text "t3" ≢ text "t1"
unfolding text_eq
t3-ne-t1 = text_ne (text "t3") (text "t1") refl

refresh_token-refresh_token_example :
    (refresh_token toy_hashing toy_jose
      (text "t1")
      (text "t4")
      8
      (refresh_token toy_hashing toy_jose (text "t1") (text "t3") 7 service).1).0
    ≡ raised invalid_refresh_token
refresh_token-refresh_token_example =
    refresh_token-refresh_token toy_hashing toy_jose (text "t1") (text "t3") (text "t4") 7 8 service
      t3-ne-t1

refresh_token_iff_example :
    (is_ok (refresh_token toy_hashing toy_jose (text "t1") (text "t3") 7 service).0 ≡ true)
    ↔ IsAccepted toy_hashing toy_jose (text "t1") 7 service
refresh_token_iff_example = refresh_token_iff toy_hashing toy_jose (text "t1") (text "t3") 7 service

ann-HasLogin : HasLogin toy_hashing ann (text "old") account service
unfolding Dict.get normalise lower strip text_eq
ann-HasLogin = record { stored = refl; is_active = refl; checks = refl }

service-Distinct : Dict.Distinct service.token_store
unfolding Dict.get text_eq
service-Distinct = (refl, (refl, tt))

held_t1 : Dict.get service.token_store (text "t1") ≡ some (token_of ann)
unfolding Dict.get text_eq
held_t1 = refl

held_t2 : Dict.get service.token_store (text "t2") ≡ some (token_of (text "bob@x"))
unfolding Dict.get text_eq
held_t2 = refl

ann_normal : ann ≡ normalise toy_hashing ann
unfolding normalise lower strip
ann_normal = refl

bob-ne-ann : text "bob@x" ≢ normalise toy_hashing ann
unfolding normalise lower strip text_eq
bob-ne-ann = text_ne (text "bob@x") ann refl

change_password_effect_example :
    ((change_password toy_hashing ann (text "old") (text "new") [] service).0 ≡ ok true)
    × ((authenticate toy_hashing [] ann
          (text "new")
          9
          (change_password toy_hashing ann (text "old") (text "new") [] service).1).0
        ≡ ok (
            some (record account { password_hash = text "new"; last_login_at = some (seconds 9) })))
    × ((refresh_token toy_hashing toy_jose
          (text "t1")
          (text "t3")
          9
          (change_password toy_hashing ann (text "old") (text "new") [] service).1).0
        ≡ raised invalid_refresh_token)
    × (Dict.get
          (change_password toy_hashing ann (text "old") (text "new") [] service).1.token_store
          (text "t2")
        ≡ some (token_of (text "bob@x")))
change_password_effect_example =
    change_password_effect toy_hashing toy_jose ann (text "old") (text "new") [] (text "new")
      service account service-Distinct ann-HasLogin refl (text "t1") (text "t2") (text "t3") [] 9
      (token_of ann) (token_of (text "bob@x")) held_t1 ann_normal held_t2 bob-ne-ann

-- A token of before the scope claim, for a plugin.
abbrev legacy : Claims
legacy = record {
  sub = some (text "plugin:autonomon");
  exp = some 60;
  iat = some 0;
  iss = some (text "nomon-central");
  scope = none;
  aud = none;
  jti = none;
}

legacy_payload : TokenPayload
legacy_payload = record {
  sub = text "plugin:autonomon";
  exp = 60;
  iat = 0;
  iss = text "nomon-central";
  scope = scope_plugin;
}

legacy_decoded :
    toy_jose.decode (legacy, service.secret) service.secret service.issuer (timestamp 9) ≡ ok legacy
unfolding toy_decode text_eq
legacy_decoded = refl

legacy_verified : verify_token toy_jose (legacy, service.secret) 9 service ≡ ok legacy_payload
unfolding verify_token toy_decode text_eq starts_with legacy_payload
legacy_verified = refl

verify_token-scope_example :
    (legacy.scope ≡ some legacy_payload.scope)
      × ((legacy_payload.scope ≡ scope_owner) ⊎ (legacy_payload.scope ≡ scope_plugin))
    ⊎ (legacy.scope ≡ none)
      × (legacy_payload.scope ≡ (
          if starts_with legacy_payload.sub plugin_sub_prefix then scope_plugin else scope_owner))
verify_token-scope_example =
    verify_token-scope toy_jose (legacy, service.secret) 9 service legacy legacy_payload
      legacy_decoded legacy_verified

may_call_sink : plugin_may_call (text "POST") (text "/api/routines/explore/events/") ≡ true
unfolding plugin_may_call plugin_allowed_routes raw_io_routes routines_prefix text_eq starts_with
may_call_sink = refl

may_not_start : plugin_may_call (text "POST") (text "/api/routines/explore/start") ≡ false
unfolding plugin_may_call plugin_allowed_routes raw_io_routes routines_prefix text_eq starts_with
may_not_start = refl

plugin_may_call_iff_example :
    (plugin_may_call (text "POST") (text "/api/routines/explore/events/") ≡ true) ↔ (
      OnRoute (text "POST") (text "/api/routines/explore/events/") raw_io_routes
      ⊎ OnEventSink (text "POST") (text "/api/routines/explore/events/"))
plugin_may_call_iff_example =
    plugin_may_call_iff (text "POST") (text "/api/routines/explore/events/")

plugin_token_confined_example :
    (after_jwt_device
        (text "POST")
        (text "/api/routines/explore/start")
        3
        (jwt_required toy_jose
          (some service)
          (some (create_plugin_token toy_jose (text "autonomon") 60 7 service))
          9)
        none
      ≡ (
        (if plugin_may_call (text "POST") (text "/api/routines/explore/start")
            then ok (plugin_payload (text "autonomon") 60 7 service)
            else raised forbidden),
        none,
      ))
    × (after_jwt_owner (
          jwt_required toy_jose
            (some service)
            (some (create_plugin_token toy_jose (text "autonomon") 60 7 service))
            9)
        ≡ raised forbidden)
plugin_token_confined_example =
    plugin_token_confined toy_jose (text "POST") (text "/api/routines/explore/start") service 7 9 3
      none (text "autonomon") 60 (omega arith) (omega arith)

access_token_unconfined_example :
    (after_jwt_device
        (text "POST")
        (text "/api/routines/explore/start")
        3
        (jwt_required toy_jose (some service) (some (create_access_token toy_jose ann 7 service)) 9)
        none
      ≡ (ok (owner_payload ann 7 service), some 3))
    × (after_jwt_owner (
          jwt_required toy_jose
            (some service)
            (some (create_access_token toy_jose ann 7 service))
            9)
        ≡ ok (owner_payload ann 7 service))
access_token_unconfined_example =
    access_token_unconfined toy_jose (text "POST") (text "/api/routines/explore/start") service 7 9
      3 none ann (omega arith) (omega arith)
