-- ===== src/PluginAuthRoutes/Gone.antt =====
-- A nonce that is not outstanding stays so, whatever the routes do but draw it again.
use nomothetic.Base.{ℕ, ◌≡◌, Bool, true, false, Option, none, some, Result, ok, raised, arith, ◌≢◌}
use nomothetic.Base.Text.{Text}
use nomothetic.RateLimit.{HttpError, plugin_auth_rate_limit}
use nomothetic.Auth.{AuthService}
use nomothetic.Auth.Libraries.{Jose}
use nomothetic.Base.Dict
use nomothetic.Base.Dict.{get-remove}
use nomothetic.PluginAuth.Names.{PluginAuthError}
use nomothetic.PluginAuth.Keys.{KeyLibrary, Directory, get_public_key, verify_signature}
use nomothetic.Files.{PythonError}
use nomothetic.PluginAuth.Challenges.{ChallengeStore, consume}
use nomothetic.PluginAuth.Challenges.SingleUse.{get-issue}
use nomothetic.PluginAuthRoutes.{
  RouteError, AppStores, Context, PluginTokenRequest, is_local_or_allowed, after_limit, unless,
  unprocessable, unauthorized, forbidden, fits_token, grant, check_signature, consume_in,
  token_known, token_in, token, PluginRegisterRequest, register, challenge, fits_register,
  is_localhost, register_in, issue_in, challenge_known, challenge_in, consumed, PluginTokenResponse,
  Clock,
}

-- The nonce is not outstanding.
abbrev pub IsGone : Text → Option ChallengeStore → Type 0
IsGone nonce none = Unit
IsGone nonce (some store) = Dict.get store.pending nonce ≡ none

consume-IsGone :
    (plugin other nonce : Text) (now : ℕ) (store : ChallengeStore)
    → Dict.get store.pending nonce ≡ none
    → Dict.get (consume plugin other now store).1.pending nonce ≡ none
unfolding consume
consume-IsGone plugin other nonce now store h =
    ground (arith, h, get-remove store.pending other nonce)

module _ {Key Token : Type 0} (library : KeyLibrary Key) (is_loopback : Text → Option Bool)
    (jose : Jose Token) (b64decode : Text → Option Text) (utf8 : Text → Text) where
  abbrev Gone : {A : Type 0} → Text → Result RouteError A × AppStores → Type 0
  Gone nonce answer = IsGone nonce answer.1.plugin_challenge_store

  unless-Gone :
      {A : Type 0} (nonce : Text) (b : Bool) (e : RouteError)
      (rest : Result RouteError A × AppStores) (s : AppStores)
      → IsGone nonce s.plugin_challenge_store
      → Gone nonce rest
      → Gone nonce (unless b e rest s)
  unless-Gone nonce true e rest s h k = k
  unless-Gone nonce false e rest s h k = h

  after_limit-Gone :
      {A : Type 0} (nonce : Text) (result : Result HttpError (Unit {0}))
      (handler : AppStores → Result RouteError A × AppStores) (s : AppStores)
      → IsGone nonce s.plugin_challenge_store
      → Gone nonce (handler s)
      → Gone nonce (after_limit result handler s)
  after_limit-Gone nonce (raised e) handler s h k = h
  after_limit-Gone nonce (ok passed) handler s h k = k

  register_in-Gone :
      (nonce : Text) (body : PluginRegisterRequest) (writes : Bool) (stored : Option Directory)
      (s : AppStores)
      → IsGone nonce s.plugin_challenge_store
      → Gone nonce (register_in library is_loopback body writes stored s)
  unfolding register_in
  register_in-Gone nonce body writes none s h = h
  register_in-Gone nonce body writes (some dir) s h = h

  pub register-Gone :
      (nonce : Text) (c : Context) (body : PluginRegisterRequest) (writes : Bool) (s : AppStores)
      → IsGone nonce s.plugin_challenge_store
      → Gone nonce (register library is_loopback c body writes s)
  unfolding register
  register-Gone nonce c body writes s h =
      let inner = register_in library is_loopback body writes s.plugin_key_store s in
      unless-Gone nonce (fits_register body) unprocessable
        (unless (is_localhost is_loopback c) forbidden inner s) s h
        (unless-Gone nonce (is_localhost is_loopback c) forbidden inner s h
          (register_in-Gone nonce body writes s.plugin_key_store s h))

  issue_in-Gone :
      (nonce plugin other : Text) (now : ℕ) (stored : Option ChallengeStore) (s : AppStores)
      → other ≢ nonce
      → IsGone nonce stored
      → IsGone nonce s.plugin_challenge_store
      → Gone nonce (issue_in library is_loopback plugin other now stored s)
  unfolding issue_in
  issue_in-Gone nonce plugin other now none s apart h k = k
  issue_in-Gone nonce plugin other now (some store) s apart h k =
      get-issue plugin other now nonce store apart h

  challenge_known-Gone :
      (nonce plugin other : Text) (now : ℕ) (found : Result PluginAuthError (Option Key))
      (s : AppStores)
      → other ≢ nonce
      → IsGone nonce s.plugin_challenge_store
      → Gone nonce (challenge_known library is_loopback plugin other now found s)
  unfolding challenge_known
  challenge_known-Gone nonce plugin other now (raised e) s apart h = h
  challenge_known-Gone nonce plugin other now (ok none) s apart h = h
  challenge_known-Gone nonce plugin other now (ok (some key)) s apart h =
      issue_in-Gone nonce plugin other now s.plugin_challenge_store s apart h h

  challenge_in-Gone :
      (nonce plugin other : Text) (now : ℕ) (stored : Option Directory) (s : AppStores)
      → other ≢ nonce
      → IsGone nonce s.plugin_challenge_store
      → Gone nonce (challenge_in library is_loopback plugin other now stored s)
  unfolding challenge_in
  challenge_in-Gone nonce plugin other now none s apart h = h
  challenge_in-Gone nonce plugin other now (some dir) s apart h =
      challenge_known-Gone nonce plugin other now (get_public_key library plugin dir) s apart h

  pub challenge-Gone :
      (nonce : Text) (c : Context) (plugin other : Text) (s : AppStores)
      → other ≢ nonce
      → IsGone nonce s.plugin_challenge_store
      → Gone nonce (challenge library is_loopback c plugin other s)
  unfolding challenge
  challenge-Gone nonce c plugin other s apart h =
      let limit = plugin_auth_rate_limit c.trust_proxy c.request c.now.monotonic s.limiters in
      let after : AppStores = record s { limiters = limit.1 } in
      after_limit-Gone nonce limit.0
        (λ s'.
          unless (is_local_or_allowed is_loopback c) forbidden
            (challenge_in library is_loopback plugin other c.now.monotonic s'.plugin_key_store s')
            s')
        after h
        (unless-Gone nonce (is_local_or_allowed is_loopback c) forbidden
          (challenge_in library is_loopback plugin other c.now.monotonic s.plugin_key_store after)
          after h
          (challenge_in-Gone nonce plugin other c.now.monotonic s.plugin_key_store after apart h))

  grant-Gone :
      (nonce : Text) (body : PluginTokenRequest) (now : Clock) (svc : Option AuthService)
      (s : AppStores)
      → IsGone nonce s.plugin_challenge_store
      → Gone nonce (grant library is_loopback jose b64decode utf8 body now svc s)
  unfolding grant
  grant-Gone nonce body now none s h = h
  grant-Gone nonce body now (some svc) s h = h

  check_signature-Gone :
      (nonce : Text) (body : PluginTokenRequest) (now : Clock) (key : Key) (decoded : Option Text)
      (s : AppStores)
      → IsGone nonce s.plugin_challenge_store
      → Gone nonce (check_signature library is_loopback jose b64decode utf8 body now key decoded s)
  unfolding check_signature
  check_signature-Gone nonce body now key none s h = h
  check_signature-Gone nonce body now key (some signature) s h =
      unless-Gone nonce (verify_signature library key (utf8 body.nonce) signature) unauthorized
        (grant library is_loopback jose b64decode utf8 body now s.auth_service s) s h
        (grant-Gone nonce body now s.auth_service s h)

  consumed-Gone :
      (nonce : Text) (accepted : Result PythonError Bool)
      (rest : Result RouteError (PluginTokenResponse Token) × AppStores) (s : AppStores)
      → IsGone nonce s.plugin_challenge_store
      → Gone nonce rest
      → Gone nonce (consumed library is_loopback jose b64decode utf8 accepted rest s)
  unfolding consumed
  consumed-Gone nonce (raised e) rest s h k = h
  consumed-Gone nonce (ok accepted) rest s h k = unless-Gone nonce accepted unauthorized rest s h k

  consume_in-Gone :
      (nonce : Text) (body : PluginTokenRequest) (now : Clock) (key : Key)
      (stored : Option ChallengeStore) (s : AppStores)
      → IsGone nonce stored
      → IsGone nonce s.plugin_challenge_store
      → Gone nonce (consume_in library is_loopback jose b64decode utf8 body now key stored s)
  unfolding consume_in
  consume_in-Gone nonce body now key none s h k = k
  consume_in-Gone nonce body now key (some store) s h k =
      let answer = consume body.plugin body.nonce now.monotonic store in
      let after : AppStores = record s { plugin_challenge_store = some answer.1 } in
      let gone = consume-IsGone body.plugin body.nonce nonce now.monotonic store h in
      consumed-Gone nonce answer.0
        (check_signature library is_loopback jose b64decode utf8 body now key
          (b64decode body.signature) after)
        after gone (check_signature-Gone nonce body now key (b64decode body.signature) after gone)

  token_known-Gone :
      (nonce : Text) (body : PluginTokenRequest) (now : Clock)
      (found : Result PluginAuthError (Option Key)) (s : AppStores)
      → IsGone nonce s.plugin_challenge_store
      → Gone nonce (token_known library is_loopback jose b64decode utf8 body now found s)
  unfolding token_known
  token_known-Gone nonce body now (raised e) s h = h
  token_known-Gone nonce body now (ok none) s h = h
  token_known-Gone nonce body now (ok (some key)) s h =
      consume_in-Gone nonce body now key s.plugin_challenge_store s h h

  token_in-Gone :
      (nonce : Text) (body : PluginTokenRequest) (now : Clock) (stored : Option Directory)
      (s : AppStores)
      → IsGone nonce s.plugin_challenge_store
      → Gone nonce (token_in library is_loopback jose b64decode utf8 body now stored s)
  unfolding token_in
  token_in-Gone nonce body now none s h = h
  token_in-Gone nonce body now (some dir) s h =
      token_known-Gone nonce body now (get_public_key library body.plugin dir) s h

  pub token-Gone :
      (nonce : Text) (c : Context) (body : PluginTokenRequest) (s : AppStores)
      → IsGone nonce s.plugin_challenge_store
      → Gone nonce (token library is_loopback jose b64decode utf8 c body s)
  unfolding token
  token-Gone nonce c body s h =
      let limit = plugin_auth_rate_limit c.trust_proxy c.request c.now.monotonic s.limiters in
      let after : AppStores = record s { limiters = limit.1 } in
      let inner =
        token_in library is_loopback jose b64decode utf8 body c.now s.plugin_key_store after in
      let near = unless (is_local_or_allowed is_loopback c) forbidden inner after in
      after_limit-Gone nonce limit.0
        (λ s'.
          unless (fits_token body) unprocessable
            (unless (is_local_or_allowed is_loopback c) forbidden
              (token_in library is_loopback jose b64decode utf8 body c.now s'.plugin_key_store s')
              s')
            s')
        after h
        (unless-Gone nonce (fits_token body) unprocessable near after h (
          unless-Gone nonce (is_local_or_allowed is_loopback c) forbidden inner after h
            (token_in-Gone nonce body c.now s.plugin_key_store after h)))
