-- ===== src/PluginAuthRoutes/Token.antt =====
-- What a plugin has to show for a token.
use nomothetic.Base.{ℕ, ◌≡◌, refl, ap, Bool, true, Option, some, Result, ok, raised, ◌+◌, ◌≤◌, ◌++◌}
use mathlib.Core.Path.{sym, ◌∙◌}
use nomothetic.Base.Text.{Text}
use nomothetic.RateLimit.{HttpError, plugin_auth_rate_limit, AppState}
use nomothetic.Auth.{AuthService, plugin_token_ttl, plugin_sub_prefix, timestamp, scope_plugin}
use nomothetic.Auth.Libraries.{Jose}
use nomothetic.Auth.Tokens.{create_plugin_token, verify_token}
use nomothetic.PluginAuth.Keys.{KeyLibrary, Directory, get_public_key, verify_signature}
use nomothetic.PluginAuth.Challenges.{ChallengeStore, consume}
use nomothetic.Auth.Tokens.Scopes.{verify_token-create_plugin_token}
use nomothetic.PluginAuthRoutes.Stages.{
  raised_not_ok, unless-ok, grant-ok, check_signature-ok, consume_in-ok, token_known-ok,
  token_in-ok,
}
use nomothetic.PluginAuthRoutes.{
  RouteError, AppStores, Context, PluginTokenRequest, PluginTokenResponse, is_local_or_allowed,
  after_limit, unless, unprocessable, forbidden, fits_token, token_in, token, limited, limit_error,
}

module _ {Key Token : Type 0} (library : KeyLibrary Key) (is_loopback : Text → Option Bool)
    (jose : Jose Token) (b64decode : Text → Option Text) (utf8 : Text → Text) where
  -- The plugin has shown that it holds the registered key: the request comes from the device unless that
  -- is not asked for, the key store has a key for the plugin, the nonce was accepted and is used up, and
  -- the signature of the nonce verifies with the key. What it gets is a token of the auth service.
  pub record IsProven (c : Context) (body : PluginTokenRequest) (s : AppStores)
      (r : PluginTokenResponse Token) (s' : AppStores) (svc : AuthService) : Type 0 where
    pub key : Key
    pub dir : Directory
    pub store : ChallengeStore
    pub signature : Text
    pub local : is_local_or_allowed is_loopback c ≡ true
    pub key_store : s.plugin_key_store ≡ some dir
    pub registered : get_public_key library body.plugin dir ≡ ok (some key)
    pub challenges : s.plugin_challenge_store ≡ some store
    pub accepted : (consume body.plugin body.nonce c.now.monotonic store).0 ≡ ok true
    pub used_up :
        s'.plugin_challenge_store ≡ some (consume body.plugin body.nonce c.now.monotonic store).1
    pub decoded : b64decode body.signature ≡ some signature
    pub verified : verify_signature library key (utf8 body.nonce) signature ≡ true
    pub service : s.auth_service ≡ some svc
    pub granted :
        r.access_token ≡ create_plugin_token jose body.plugin plugin_token_ttl c.now.utc svc

  module _ (c : Context) (body : PluginTokenRequest) (r : PluginTokenResponse Token) where
    handler : AppStores → Result RouteError (PluginTokenResponse Token) × AppStores
    handler s =
        unless (fits_token body) unprocessable
          (unless (is_local_or_allowed is_loopback c) forbidden
            (token_in library is_loopback jose b64decode utf8 body c.now s.plugin_key_store s) s)
          s

    handler-ok :
        (s s' : AppStores)
        → handler s ≡ (ok r, s')
        → (svc : AuthService) × IsProven c body s r s' svc
    unfolding handler
    handler-ok s s' h =
        let rest =
          token_in library is_loopback jose b64decode utf8 body c.now s.plugin_key_store s in
        let fits =
          unless-ok unprocessable s s' r (fits_token body)
            (unless (is_local_or_allowed is_loopback c) forbidden rest s) h in
        let near = unless-ok forbidden s s' r (is_local_or_allowed is_loopback c) rest fits.1 in
        let keys =
          token_in-ok library is_loopback jose b64decode utf8 body c.now r s s' s.plugin_key_store
            near.1 in
        let known =
          token_known-ok library is_loopback jose b64decode utf8 body c.now r s s'
            (get_public_key library body.plugin keys.0) keys.2 in
        let used =
          consume_in-ok library is_loopback jose b64decode utf8 body c.now r s s' known.0
            s.plugin_challenge_store known.2 in
        let after : AppStores = record s {
          plugin_challenge_store = some (consume body.plugin body.nonce c.now.monotonic used.0).1;
        } in
        let signed =
          check_signature-ok library is_loopback jose b64decode utf8 body c.now r after s' known.0
            (b64decode body.signature) used.3 in
        let given =
          grant-ok library is_loopback jose b64decode utf8 body c.now r after s' s.auth_service
            signed.3 in
        (
          given.0,
          record {
            key = known.0;
            dir = keys.0;
            store = used.0;
            signature = signed.0;
            local = near.0;
            key_store = keys.1;
            registered = known.1;
            challenges = used.1;
            accepted = used.2;
            used_up = ap AppStores.plugin_challenge_store (sym given.3);
            decoded = signed.1;
            verified = signed.2;
            service = given.1;
            granted = given.2;
          },
        )

    limited-ok :
        (s0 : AppStores) (result : Result HttpError (Unit {0})) (s' : AppStores)
        → after_limit result handler s0 ≡ (ok r, s')
        → handler s0 ≡ (ok r, s')
    limited-ok s0 (raised e) s' h = raised_not_ok (limit_error e) s0 s' r h
    limited-ok s0 (ok passed) s' h = h

    token_lem :
        (s : AppStores)
        → token library is_loopback jose b64decode utf8 c body s ≡ limited c handler s
    unfolding token handler
    token_lem s = refl

    -- The limiters are no part of it.
    set_limiters :
        (limiters : AppState) (s s' : AppStores) (svc : AuthService)
        → IsProven c body (record s { limiters = limiters }) r s' svc
        → IsProven c body s r s' svc
    set_limiters limiters s s' svc p = record {
      key = p.key;
      dir = p.dir;
      store = p.store;
      signature = p.signature;
      local = p.local;
      key_store = p.key_store;
      registered = p.registered;
      challenges = p.challenges;
      accepted = p.accepted;
      used_up = p.used_up;
      decoded = p.decoded;
      verified = p.verified;
      service = p.service;
      granted = p.granted;
    }

    pub proven :
        (s s' : AppStores)
        → token library is_loopback jose b64decode utf8 c body s ≡ (ok r, s')
        → (svc : AuthService) × IsProven c body s r s' svc
    proven s s' h =
        let limit = plugin_auth_rate_limit c.trust_proxy c.request c.now.monotonic s.limiters in
        let shown =
          handler-ok (record s { limiters = limit.1 }) s'
            (limited-ok (record s { limiters = limit.1 }) limit.0 s' (sym (token_lem s) ∙ h)) in
        (shown.0, set_limiters limit.1 s s' shown.0 shown.1)

    -- A token is answered only to a plugin that has proven itself, as `IsProven` says; and up to its
    -- expiry the auth service reads the token as one of that plugin, with the scope of plugins.
    pub token-IsProven :
        (s s' : AppStores) (later : ℕ)
        → token library is_loopback jose b64decode utf8 c body s ≡ (ok r, s')
        → c.now.utc ≤ later
        → later ≤ c.now.utc + plugin_token_ttl
        → (svc : AuthService) × IsProven c body s r s' svc
          × (verify_token jose r.access_token later svc
              ≡ ok (record {
                sub = plugin_sub_prefix ++ body.plugin;
                exp = timestamp (c.now.utc + plugin_token_ttl);
                iat = timestamp c.now.utc;
                iss = svc.issuer;
                scope = scope_plugin;
              }))
    token-IsProven s s' later h from to =
        let shown = proven s s' h in
        (
          shown.0,
          shown.1,
          ap (λ t. verify_token jose t later shown.0) shown.1.granted
              ∙ verify_token-create_plugin_token jose body.plugin plugin_token_ttl c.now.utc later
                  shown.0 from to,
        )
