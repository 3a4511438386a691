-- ===== src/PluginAuthRoutes/Stages.antt =====
-- The answer of `token` traced back through its stages.
use nomothetic.Base.{
  ◌≡◌, refl, ap, Bool, true, false, Option, none, some, Result, ok, raised, arith, is_ok, ◌/◌,
}
use mathlib.Core.Path.{sym}
use nomothetic.Base.Text.{Text}
use nomothetic.Auth.{AuthService, plugin_token_ttl}
use nomothetic.Auth.Libraries.{Jose}
use nomothetic.Auth.Tokens.{create_plugin_token}
use nomothetic.PluginAuth.Names.{PluginAuthError}
use nomothetic.PluginAuth.Keys.{KeyLibrary, Directory, get_public_key, verify_signature}
use nomothetic.Files.{PythonError}
use nomothetic.PluginAuth.Challenges.{ChallengeStore, consume}
use nomothetic.PluginAuthRoutes.{
  RouteError, AppStores, PluginTokenRequest, PluginTokenResponse, unless, unauthorized, grant,
  check_signature, consume_in, token_known, token_in, unavailable, bad_request, name_error,
  consumed, server_error, Clock,
}

module _ {A : Type 0} (e : RouteError) (s s' : AppStores) (r : A) where
  -- An error is no answer.
  pub raised_not_ok :
      {C : Type 0} → ◌≡◌ {A = Result RouteError A × AppStores} (raised e, s) (ok r, s') → C
  raised_not_ok h = absurd (false_not_true (ap (λ x. is_ok x.0) h))
    where
      false_not_true : false ≡ true → ⊥
      false_not_true f = ground (arith, f)

  pub unless-ok :
      (b : Bool) (rest : Result RouteError A × AppStores)
      → unless b e rest s ≡ (ok r, s')
      → (b ≡ true) × (rest ≡ (ok r, s'))
  unless-ok true rest h = (refl, h)
  unless-ok false rest h = raised_not_ok h

module _ {Key Token : Type 0} (library : KeyLibrary Key) (is_loopback : Text → Option Bool)
    (jose : Jose Token) (b64decode : Text → Option Text) (utf8 : Text → Text) where
  module _ (body : PluginTokenRequest) (now : Clock) (r : PluginTokenResponse Token)
      (s s' : AppStores) where
    pub grant-ok :
        (svc : Option AuthService)
        → grant library is_loopback jose b64decode utf8 body now svc s ≡ (ok r, s')
        → (found : AuthService) × (svc ≡ some found)
          × (r.access_token ≡ create_plugin_token jose body.plugin plugin_token_ttl now.utc found)
          × (s ≡ s')
    unfolding grant
    grant-ok none h = raised_not_ok unavailable s s' r h
    grant-ok (some svc) h =
        (svc, refl, ap PluginTokenResponse.access_token (sym answer), ap (λ x. x.1) h)
      where
        answer :
            record {
              access_token = create_plugin_token jose body.plugin plugin_token_ttl now.utc svc;
              expires_in = plugin_token_ttl / 1_000_000;
            }
            ≡ r
        answer = cc

    pub check_signature-ok :
        (key : Key) (decoded : Option Text)
        → check_signature library is_loopback jose b64decode utf8 body now key decoded s
          ≡ (ok r, s')
        → (signature : Text) × (decoded ≡ some signature)
          × (verify_signature library key (utf8 body.nonce) signature ≡ true)
          × (grant library is_loopback jose b64decode utf8 body now s.auth_service s ≡ (ok r, s'))
    unfolding check_signature
    check_signature-ok key none h = raised_not_ok bad_request s s' r h
    check_signature-ok key (some signature) h =
        let passed =
          unless-ok unauthorized s s' r (verify_signature library key (utf8 body.nonce) signature)
            (grant library is_loopback jose b64decode utf8 body now s.auth_service s) h in
        (signature, refl, passed.0, passed.1)

    consumed-ok :
        (after : AppStores) (accepted : Result PythonError Bool)
        (rest : Result RouteError (PluginTokenResponse Token) × AppStores)
        → consumed library is_loopback jose b64decode utf8 accepted rest after ≡ (ok r, s')
        → (accepted ≡ ok true) × (rest ≡ (ok r, s'))
    unfolding consumed
    consumed-ok after (raised e) rest h = raised_not_ok server_error after s' r h
    consumed-ok after (ok accepted) rest h =
        let passed = unless-ok unauthorized after s' r accepted rest h in (ap ok passed.0, passed.1)

    pub consume_in-ok :
        (key : Key) (stored : Option ChallengeStore)
        → consume_in library is_loopback jose b64decode utf8 body now key stored s ≡ (ok r, s')
        → (store : ChallengeStore) × (stored ≡ some store)
          × ((consume body.plugin body.nonce now.monotonic store).0 ≡ ok true)
          × (check_signature library is_loopback jose b64decode utf8 body now key
                (b64decode body.signature)
                (record s {
                  plugin_challenge_store =
                      some (consume body.plugin body.nonce now.monotonic store).1;
                })
              ≡ (ok r, s'))
    unfolding consume_in
    consume_in-ok key none h = raised_not_ok unavailable s s' r h
    consume_in-ok key (some store) h =
        let after : AppStores = record s {
          plugin_challenge_store = some (consume body.plugin body.nonce now.monotonic store).1;
        } in
        let passed =
          consumed-ok after (consume body.plugin body.nonce now.monotonic store).0
            (check_signature library is_loopback jose b64decode utf8 body now key
              (b64decode body.signature) after)
            h in
        (store, refl, passed.0, passed.1)

    pub token_known-ok :
        (found : Result PluginAuthError (Option Key))
        → token_known library is_loopback jose b64decode utf8 body now found s ≡ (ok r, s')
        → (key : Key) × (found ≡ ok (some key))
          × (consume_in library is_loopback jose b64decode utf8 body now key
                s.plugin_challenge_store s
              ≡ (ok r, s'))
    unfolding token_known
    token_known-ok (raised e) h = raised_not_ok (name_error e) s s' r h
    token_known-ok (ok none) h = raised_not_ok unauthorized s s' r h
    token_known-ok (ok (some key)) h = (key, refl, h)

    pub token_in-ok :
        (stored : Option Directory)
        → token_in library is_loopback jose b64decode utf8 body now stored s ≡ (ok r, s')
        → (dir : Directory) × (stored ≡ some dir)
          × (token_known library is_loopback jose b64decode utf8 body now
                (get_public_key library body.plugin dir)
                s
              ≡ (ok r, s'))
    unfolding token_in
    token_in-ok none h = raised_not_ok unavailable s s' r h
    token_in-ok (some dir) h = (dir, refl, h)
