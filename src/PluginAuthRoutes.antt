-- ===== src/PluginAuthRoutes.antt =====
-- src/nomothetic/plugin_auth_routes.py: the handlers `register`, `challenge` and `token`, over the key
-- store, the challenge store, the limiter and the auth service. A handler runs as one step; the plugin
-- of a body that its model refuses never reaches it. `timestamp` of the answers is left out.
pub mod Stages
pub mod Token
pub mod Gone
pub mod Replay
mod Examples
use nomothetic.Base.{
  ℕ, ◌/◌, Bool, true, false, ◌&&◌, ◌||◌, Option, none, some, List, [], ◌∷◌, length, leb, Result, ok,
  raised, if◌then◌else◌,
}
use nomothetic.Base.Text.{Text, text, text_eq, lower, strip}
use nomothetic.RateLimit.{
  Request, AppState, plugin_auth_rate_limit, HttpError, too_many_requests, attribute_error,
}
use nomothetic.Auth.{AuthService, plugin_token_ttl}
use nomothetic.Auth.Libraries.{Jose}
use nomothetic.Auth.Tokens.{create_plugin_token}
use nomothetic.Files.{PythonError}
use nomothetic.PluginAuth.Names.{
  PluginAuthError, invalid_plugin_name, invalid_pem, not_ed25519, key_conflict, os_error,
  unsupported_algorithm,
}
use nomothetic.PluginAuth.Keys.{
  KeyLibrary, Directory, Registration, get_public_key, verify_signature,
}
use nomothetic.PluginAuth.Keys as Keys
use nomothetic.PluginAuth.Challenges.{ChallengeStore, ValueError, issue, consume}

-- The status codes that a handler answers with, an escaped exception as 500.
pub data RouteError : Type 0 where
  bad_request unauthorized forbidden not_found conflict unprocessable too_many : RouteError
  server_error unavailable : RouteError

-- `request.app.state` and the auth service of `get_auth_service()`.
pub record AppStores : Type 0 where
  pub limiters : AppState
  pub plugin_key_store : Option Directory
  pub plugin_challenge_store : Option ChallengeStore
  pub auth_service : Option AuthService

-- `time.monotonic()`, which the limiter and the nonces use, and `datetime.now(UTC)`, of the tokens.
pub record Clock : Type 0 where
  pub monotonic : ℕ
  pub utc : ℕ

-- What a handler reads of the deployment and the request: NOMON_TRUST_PROXY,
-- NOMON_PLUGIN_AUTH_ALLOW_REMOTE, the peer and the clocks.
pub record Context : Type 0 where
  pub trust_proxy : Text
  pub allow_remote : Text
  pub request : Request
  pub now : Clock

pub record PluginRegisterRequest : Type 0 where
  pub plugin : Text
  pub public_key : Text

pub record PluginTokenRequest : Type 0 where
  pub plugin : Text
  pub nonce : Text
  pub signature : Text

pub record PluginTokenResponse (Token : Type 0) : Type 0 where
  pub access_token : Token
  pub expires_in : ℕ

-- `min_length=1`, and `max_length=64` besides.
abbrev pub is_filled : Text → Bool
is_filled s = leb 1 (length s)

abbrev pub is_short : Text → Bool
is_short s = is_filled s && leb (length s) 64

abbrev pub fits_register : PluginRegisterRequest → Bool
fits_register body = is_short body.plugin && is_filled body.public_key

abbrev pub fits_token : PluginTokenRequest → Bool
fits_token body = is_short body.plugin && is_filled body.nonce && is_filled body.signature

unfoldable pub remote_auth_allowed : Context → Bool
remote_auth_allowed c =
    let value = lower (strip c.allow_remote) in
    text_eq value (text "1") || text_eq value (text "true") || text_eq value (text "yes")

-- `ip_address(host).is_loopback`, with the ValueError as none.
module _ (is_loopback : Text → Option Bool) where
  loopback_or_false : Option Bool → Bool
  loopback_or_false none = false
  loopback_or_false (some b) = b

  peer_is_loopback : Option Text → Bool
  unfolding loopback_or_false
  peer_is_loopback none = false
  peer_is_loopback (some host) = loopback_or_false (is_loopback host)

  unfoldable pub is_localhost : Context → Bool
  unfolding peer_is_loopback
  is_localhost c = peer_is_loopback c.request.client_host

  -- `_require_local_unless_allowed` does not raise.
  abbrev pub is_local_or_allowed : Context → Bool
  is_local_or_allowed c = is_localhost c || remote_auth_allowed c

-- The exceptions of the key store, as `register` answers them.
abbrev pub register_error : PluginAuthError → RouteError
register_error key_conflict = conflict
register_error invalid_plugin_name = bad_request
register_error invalid_pem = bad_request
register_error not_ed25519 = bad_request
register_error os_error = server_error
register_error unsupported_algorithm = server_error

-- Only an InvalidPluginName is caught where a key is read.
abbrev pub name_error : PluginAuthError → RouteError
name_error invalid_plugin_name = bad_request
name_error _ = server_error

abbrev pub limit_error : HttpError → RouteError
limit_error too_many_requests = too_many
limit_error attribute_error = server_error

-- A dependency runs before the body is looked at and before the handler.
abbrev pub after_limit {ℓ} :
    {A : Type ℓ}
    → Result HttpError (Unit {0})
    → (AppStores → Result RouteError A × AppStores)
    → AppStores
    → Result RouteError A × AppStores
after_limit (raised e) handler s = (raised (limit_error e), s)
after_limit (ok passed) handler s = handler s

abbrev pub limited {ℓ} :
    {A : Type ℓ}
    → Context
    → (AppStores → Result RouteError A × AppStores)
    → AppStores
    → Result RouteError A × AppStores
limited c handler s =
    let (result, limiters) =
      plugin_auth_rate_limit c.trust_proxy c.request c.now.monotonic s.limiters in
    after_limit result handler (record s { limiters = limiters })

-- A test that a handler makes first.
abbrev pub unless {ℓ} :
    {A : Type ℓ}
    → Bool
    → RouteError
    → Result RouteError A × AppStores
    → AppStores
    → Result RouteError A × AppStores
unless true e rest s = rest
unless false e rest s = (raised e, s)

module _ {Key : Type 0} (library : KeyLibrary Key) (is_loopback : Text → Option Bool) where
  answer_registration : Result PluginAuthError Registration → Result RouteError Registration
  answer_registration (raised e) = raised (register_error e)
  answer_registration (ok outcome) = ok outcome

  register_in :
      PluginRegisterRequest
      → (writes : Bool) → Option Directory
      → AppStores
      → Result RouteError Registration × AppStores
  unfolding answer_registration
  register_in body writes none s = (raised unavailable, s)
  register_in body writes (some dir) s =
      let (outcome, dir') = Keys.register library body.plugin body.public_key writes dir in
      (answer_registration outcome, record s { plugin_key_store = some dir' })

  -- Whether the write of the key file succeeds is an argument.
  unfoldable pub register :
      Context
      → PluginRegisterRequest
      → (writes : Bool) → AppStores
      → Result RouteError Registration × AppStores
  unfolding register_in
  register c body writes s =
      unless (fits_register body) unprocessable
        (unless (is_localhost is_loopback c) forbidden
          (register_in body writes s.plugin_key_store s) s)
        s

  answer_issue : Result ValueError (Text × ℕ) → Result RouteError (Text × ℕ)
  answer_issue (raised e) = raised server_error
  answer_issue (ok issued) = ok issued

  issue_in :
      (plugin nonce : Text) (now : ℕ)
      → Option ChallengeStore
      → AppStores
      → Result RouteError (Text × ℕ) × AppStores
  unfolding answer_issue
  issue_in plugin nonce now none s = (raised unavailable, s)
  issue_in plugin nonce now (some store) s =
      let (issued, store') = issue plugin nonce now store in
      (answer_issue issued, record s { plugin_challenge_store = some store' })

  challenge_known :
      (plugin nonce : Text) (now : ℕ)
      → Result PluginAuthError (Option Key)
      → AppStores
      → Result RouteError (Text × ℕ) × AppStores
  unfolding issue_in
  challenge_known plugin nonce now (raised e) s = (raised (name_error e), s)
  challenge_known plugin nonce now (ok none) s = (raised not_found, s)
  challenge_known plugin nonce now (ok (some key)) s =
      issue_in plugin nonce now s.plugin_challenge_store s

  challenge_in :
      (plugin nonce : Text) (now : ℕ)
      → Option Directory
      → AppStores
      → Result RouteError (Text × ℕ) × AppStores
  unfolding challenge_known
  challenge_in plugin nonce now none s = (raised unavailable, s)
  challenge_in plugin nonce now (some dir) s =
      challenge_known plugin nonce now (get_public_key library plugin dir) s

  -- The nonce that is drawn is an argument; the answer is the nonce and its lifetime.
  unfoldable pub challenge :
      Context → (plugin nonce : Text) → AppStores → Result RouteError (Text × ℕ) × AppStores
  unfolding challenge_in
  challenge c plugin nonce s =
      limited c
        (λ s'.
          unless (is_local_or_allowed is_loopback c) forbidden
            (challenge_in plugin nonce c.now.monotonic s'.plugin_key_store s') s')
        s

  -- `b64decode` is `base64.b64decode(s, validate=True)`, with its error as none; `utf8` the encoding.
  module _ {Token : Type 0} (jose : Jose Token) (b64decode : Text → Option Text)
      (utf8 : Text → Text) where
    pub grant :
        PluginTokenRequest
        → (now : Clock) → Option AuthService
        → AppStores
        → Result RouteError (PluginTokenResponse Token) × AppStores
    grant body now none s = (raised unavailable, s)
    grant body now (some svc) s = (
      ok (record {
        access_token = create_plugin_token jose body.plugin plugin_token_ttl now.utc svc;
        expires_in = plugin_token_ttl / 1_000_000;
      }),
      s,
    )

    pub check_signature :
        PluginTokenRequest
        → (now : Clock) → Key
        → Option Text
        → AppStores
        → Result RouteError (PluginTokenResponse Token) × AppStores
    unfolding grant
    check_signature body now key none s = (raised bad_request, s)
    check_signature body now key (some signature) s =
        unless (verify_signature library key (utf8 body.nonce) signature) unauthorized
          (grant body now s.auth_service s) s

    -- `if not ...consume(...)`; a TypeError is not caught.
    pub consumed :
        Result PythonError Bool
        → Result RouteError (PluginTokenResponse Token) × AppStores
        → AppStores
        → Result RouteError (PluginTokenResponse Token) × AppStores
    consumed (raised e) rest s = (raised server_error, s)
    consumed (ok accepted) rest s = unless accepted unauthorized rest s

    -- The nonce is consumed whatever comes after.
    pub consume_in :
        PluginTokenRequest
        → (now : Clock) → Key
        → Option ChallengeStore
        → AppStores
        → Result RouteError (PluginTokenResponse Token) × AppStores
    unfolding check_signature consumed
    consume_in body now key none s = (raised unavailable, s)
    consume_in body now key (some store) s =
        let (accepted, store') = consume body.plugin body.nonce now.monotonic store in
        let s' : AppStores = record s { plugin_challenge_store = some store' } in
        consumed accepted (check_signature body now key (b64decode body.signature) s') s'

    pub token_known :
        PluginTokenRequest
        → (now : Clock) → Result PluginAuthError (Option Key)
        → AppStores
        → Result RouteError (PluginTokenResponse Token) × AppStores
    unfolding consume_in
    token_known body now (raised e) s = (raised (name_error e), s)
    token_known body now (ok none) s = (raised unauthorized, s)
    token_known body now (ok (some key)) s = consume_in body now key s.plugin_challenge_store s

    pub token_in :
        PluginTokenRequest
        → (now : Clock) → Option Directory
        → AppStores
        → Result RouteError (PluginTokenResponse Token) × AppStores
    unfolding token_known
    token_in body now none s = (raised unavailable, s)
    token_in body now (some dir) s = token_known body now (get_public_key library body.plugin dir) s

    unfoldable pub token :
        Context
        → PluginTokenRequest
        → AppStores
        → Result RouteError (PluginTokenResponse Token) × AppStores
    unfolding token_in
    token c body s =
        limited c
          (λ s'.
            unless (fits_token body) unprocessable
              (unless (is_local_or_allowed is_loopback c) forbidden
                (token_in body c.now s'.plugin_key_store s') s')
              s')
          s
