-- ===== src/DeviceAuthRoutes.antt =====
-- src/nomothetic/device_auth_routes.py: the handlers of pairing, refresh and the session, over the
-- pairing state, the auth service, the disk and the limiters. A handler runs as one step.
pub mod Issue
pub mod Pair
mod Examples
use nomothetic.Base.{
  ℕ, ◌/◌, ◌+◌, ◌*◌, Bool, true, false, not, ◌&&◌, ◌||◌, ◌==◌, Option, none, some, List, [], ◌∷◌,
  length, leb, Result, ok, raised, if◌then◌else◌,
}
use nomothetic.Base.Text.{Text, text, text_eq}
use nomothetic.Base.Dict.{Dict}
use nomothetic.Files.{Disk, PythonError}
use nomothetic.RateLimit.{Request, AppState, pairing_rate_limit, refresh_rate_limit}
use nomothetic.RateLimit as RateLimit
use nomothetic.UserStore.{UserRecord}
use nomothetic.Auth.{AuthService, AuthError, TokenPair, TokenPayload, update_signing_secret}
use nomothetic.Auth.Libraries.{Hashing, Jose}
use nomothetic.Auth.Accounts.{create_user, find_user}
use nomothetic.Auth.Sessions.{create_tokens, revoke_all_tokens, refresh_token}
use nomothetic.Auth.Guards.{owner_required, after_jwt_owner}
use nomothetic.Auth.Guards as Guards
use nomothetic.Pairing.State.{
  PairingState, complete_pairing, has_pairing_secret, verify_secret, reset_session,
}

-- The status codes of the handlers, an escaped exception as 500.
pub data RouteError : Type 0 where
  unauthorized forbidden not_found unprocessable too_many server_error unavailable : RouteError

-- `request.app.state`, the auth service of `get_auth_service()`, and the files of the device.
pub record Device : Type 0 where
  pub limiters : AppState
  pub pairing_state : Option PairingState
  pub auth_service : Option AuthService
  pub disk : Disk

-- What a handler takes from outside: NOMON_TRUST_PROXY, the peer, `time.monotonic()`, which the limiter
-- uses, and `datetime.now(UTC)`, of the tokens.
pub record Context : Type 0 where
  pub trust_proxy : Text
  pub request : Request
  pub monotonic : ℕ
  pub now : ℕ

-- What is drawn for a new session: the password and its salt, the signing secret, whether its file can
-- be written, and the refresh token.
pub record Draws : Type 0 where
  pub password : Text
  pub salt : Text
  pub jwt_secret : Text
  pub writes : Bool
  pub refresh : Text

pub record PairingStatus : Type 0 where
  pub paired : Bool
  pub pairing_available : Bool

pub record PairRequest : Type 0 where
  pub secret : Text
  pub display_name : Text

abbrev pub device_owner_email : Text
device_owner_email = text "device-owner@local"

-- `min_length=1, max_length=100`
abbrev pub is_display_name : Text → Bool
is_display_name name = leb 1 (length name) && leb (length name) 100

abbrev pub fits_pair : PairRequest → Bool
fits_pair body = leb 1 (length body.secret) && is_display_name body.display_name

-- 192.168.4.0/24, by its first 24 bits.
abbrev pub ap_subnet : ℕ
ap_subnet = (192 * 256 + 168) * 256 + 4

-- `ipv4` is `IPv4Address`, as a number, with its ValueError as none.
module _ (ipv4 : Text → Option ℕ) where
  in_subnet : Option ℕ → Bool
  in_subnet none = false
  in_subnet (some address) = address / 256 == ap_subnet

  peer_in_subnet : Option Text → Bool
  unfolding in_subnet
  peer_in_subnet none = false
  peer_in_subnet (some host) = in_subnet (ipv4 host)

  unfoldable pub is_ap_client : Context → Bool
  unfolding peer_in_subnet
  is_ap_client c = peer_in_subnet c.request.client_host

abbrev pub limit_error : RateLimit.HttpError → RouteError
limit_error RateLimit.too_many_requests = too_many
limit_error RateLimit.attribute_error = server_error

abbrev pub guard_error : Guards.HttpError → RouteError
guard_error Guards.forbidden = forbidden
guard_error Guards.service_unavailable = unavailable
guard_error Guards.missing_header = unauthorized
guard_error (Guards.unauthorized e) = unauthorized

abbrev pub Answer : Type 0 → Type 0
Answer A = Result RouteError A × Device

-- A dependency runs before the body is looked at and before the handler.
abbrev pub after_limit :
    {A : Type 0} → Result RateLimit.HttpError (Unit {0}) → (Device → Answer A) → Device → Answer A
after_limit (raised e) handler d = (raised (limit_error e), d)
after_limit (ok passed) handler d = handler d

abbrev pub limited :
    {A : Type 0} → RateLimit.Dependency → Context → (Device → Answer A) → Device → Answer A
limited dependency c handler d =
    let (result, limiters) = dependency c.trust_proxy c.request c.monotonic d.limiters in
    after_limit result handler (record d { limiters = limiters })

-- A test that a handler makes first.
abbrev pub unless : {A : Type 0} → Bool → RouteError → Answer A → Device → Answer A
unless true e rest d = rest
unless false e rest d = (raised e, d)

-- `_get_pairing`, and `_get_pairing` with `_require_service`.
abbrev pub with_pairing :
    {A : Type 0} → Option PairingState → (PairingState → Answer A) → Device → Answer A
with_pairing none handler d = (raised unavailable, d)
with_pairing (some pairing) handler d = handler pairing

abbrev pub with_service :
    {A : Type 0} → Option AuthService → (AuthService → Answer A) → Device → Answer A
with_service none handler d = (raised unavailable, d)
with_service (some svc) handler d = handler svc

-- A test of the pairing state, which may raise.
abbrev pub on_test :
    {A : Type 0} → Result PythonError Bool → RouteError → Answer A → Device → Answer A
on_test (raised e) refusal rest d = (raised server_error, d)
on_test (ok false) refusal rest d = (raised refusal, d)
on_test (ok true) refusal rest d = rest

module _ (is_digit : ℕ → Bool) (environ : Dict Text) where
  revoked : Hashing → Option Text → AuthService → AuthService
  revoked hashing none svc = svc
  revoked hashing (some email) svc = (revoke_all_tokens hashing email svc).1

  -- `_reset_device_session`
  unfoldable pub reset_device_session :
      Hashing
      → (owner_email : Option Text) → Draws
      → PairingState
      → AuthService
      → Disk
      → Result AuthError (Unit {0}) × PairingState × AuthService × Disk
  unfolding revoked
  reset_device_session hashing owner_email draws pairing svc disk =
      let (pairing', disk') =
        reset_session is_digit environ draws.jwt_secret draws.writes pairing disk in
      let (updated, svc') =
        update_signing_secret pairing'.jwt_secret (revoked hashing owner_email svc) in
      (updated, pairing', svc', disk')

  status_of : PairingState → Result PythonError Bool → Device → Answer PairingStatus
  status_of pairing (raised e) d = (raised server_error, d)
  status_of pairing (ok has) d =
      (ok (record { paired = pairing.paired; pairing_available = has && not pairing.paired }), d)

  unfoldable pub pairing_status : Device → Answer PairingStatus
  unfolding status_of
  pairing_status d =
      with_pairing d.pairing_state
        (λ pairing. status_of pairing (has_pairing_secret is_digit environ pairing d.disk) d) d

  module _ {Token : Type 0} (hashing : Hashing) (jose : Jose Token) where
    -- `_issue_pairing_tokens` from the second session on; the ValueError of `create_user` passes.
    issue_tokens :
        (display_name : Text)
        → Draws
        → (now : ℕ) → Result AuthError (Unit {0}) × PairingState × AuthService × Disk
        → Device
        → Answer (TokenPair Token)
    issue_tokens display_name draws now (raised e, pairing, svc, disk) d = (
      raised server_error,
      record d { pairing_state = some pairing; auth_service = some svc; disk = disk },
    )
    issue_tokens display_name draws now (ok updated, pairing, svc, disk) d =
        let svc' =
          (create_user hashing device_owner_email draws.password display_name draws.salt now
            svc).1 in
        let (tokens, svc'') =
          create_tokens hashing jose device_owner_email draws.refresh now svc' in
        (
          ok tokens,
          record d {
            pairing_state = some (complete_pairing device_owner_email pairing);
            auth_service = some svc'';
            disk = disk;
          },
        )

    unfoldable pub issue_pairing_tokens :
        PairingState
        → AuthService
        → (display_name : Text) → Draws
        → (now : ℕ) → Device
        → Answer (TokenPair Token)
    unfolding issue_tokens
    issue_pairing_tokens pairing svc display_name draws now d =
        issue_tokens display_name draws now
          (reset_device_session hashing (some device_owner_email) draws pairing svc d.disk) d

    unfoldable pub pair : Context → PairRequest → Draws → Device → Answer (TokenPair Token)
    pair c body draws d =
        limited pairing_rate_limit c
          (λ d'.
            unless (fits_pair body) unprocessable
              (with_pairing d'.pairing_state
                (λ pairing.
                  with_service d'.auth_service
                    (λ svc.
                      on_test (verify_secret is_digit environ body.secret pairing d'.disk)
                        unauthorized
                        (issue_pairing_tokens pairing svc body.display_name draws c.now d') d')
                    d')
                d')
              d')
          d

    unfoldable pub pair_via_ap :
        (ipv4 : Text → Option ℕ)
        → Context
        → (display_name : Text) → Draws
        → Device
        → Answer (TokenPair Token)
    pair_via_ap ipv4 c display_name draws d =
        limited pairing_rate_limit c
          (λ d'.
            unless (is_display_name display_name) unprocessable
              (unless (is_ap_client ipv4 c) forbidden
                (with_pairing d'.pairing_state
                  (λ pairing.
                    with_service d'.auth_service
                      (λ svc.
                        on_test (has_pairing_secret is_digit environ pairing d'.disk) unavailable
                          (issue_pairing_tokens pairing svc display_name draws c.now d') d')
                      d')
                  d')
                d')
              d')
          d

    answer_refresh :
        Result AuthError (TokenPair Token) × AuthService → Device → Answer (TokenPair Token)
    answer_refresh (raised e, svc) d = (raised unauthorized, record d { auth_service = some svc })
    answer_refresh (ok tokens, svc) d = (ok tokens, record d { auth_service = some svc })

    unfoldable pub refresh : Context → (presented drawn : Text) → Device → Answer (TokenPair Token)
    unfolding answer_refresh
    refresh c presented drawn d =
        limited refresh_rate_limit c
          (λ d'.
            with_service d'.auth_service
              (λ svc. answer_refresh (refresh_token hashing jose presented drawn c.now svc) d') d')
          d

  answer_reset :
      Result AuthError (Unit {0}) × PairingState × AuthService × Disk → Device → Answer (Unit {0})
  answer_reset (raised e, pairing, svc, disk) d = (
    raised server_error,
    record d { pairing_state = some pairing; auth_service = some svc; disk = disk },
  )
  answer_reset (ok updated, pairing, svc, disk) d =
      (ok tt, record d { pairing_state = some pairing; auth_service = some svc; disk = disk })

  -- `Depends(owner_required)`, on what `jwt_required` gives.
  abbrev pub with_claims :
      {A : Type 0}
      → Result Guards.HttpError TokenPayload
      → (TokenPayload → Answer A)
      → Device
      → Answer A
  with_claims (raised e) handler d = (raised (guard_error e), d)
  with_claims (ok claims) handler d = handler claims

  unfoldable pub delete_session :
      Hashing → Result Guards.HttpError TokenPayload → Draws → Device → Answer (Unit {0})
  unfolding answer_reset
  delete_session hashing checked draws d =
      with_claims (after_jwt_owner checked)
        (λ claims.
          with_pairing d.pairing_state
            (λ pairing.
              with_service d.auth_service
                (λ svc.
                  answer_reset
                    (reset_device_session hashing (some claims.sub) draws pairing svc d.disk) d)
                d)
            d)
        d

  found_user : Option UserRecord → Device → Answer UserRecord
  found_user none d = (raised not_found, d)
  found_user (some user) d = (ok user, d)

  unfoldable pub me : Hashing → Result Guards.HttpError TokenPayload → Device → Answer UserRecord
  unfolding found_user
  me hashing checked d =
      with_claims (after_jwt_owner checked)
        (λ claims.
          with_service d.auth_service (λ svc. found_user (find_user hashing claims.sub svc) d) d)
        d
