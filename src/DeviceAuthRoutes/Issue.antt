-- ===== src/DeviceAuthRoutes/Issue.antt =====
-- The answer of `pair` traced back through its stages, and the session that it issues.
use nomothetic.Base.{
  ℕ, ◌+◌, ◌≡◌, ◌≢◌, refl, ap, Bool, true, false, none, some, Result, ok, raised, arith, is_ok, ltb,
  length, inl, inr, Bool-cases,
}
use mathlib.Core.Path.{sym, subst, ◌∙◌}
use nomothetic.Base.Text
use nomothetic.Base.Text.{strip, Text, text_eq_iff, text_eq_refl}
use nomothetic.Base.Dict
use nomothetic.Base.Dict.{Dict, Distinct, get-put, get-retain}
use nomothetic.Files.{Disk, PythonError}
use nomothetic.RateLimit.{AppState, pairing_rate_limit}
use nomothetic.RateLimit as RateLimit
use nomothetic.TokenStore.{StoredToken, store_token, delete_tokens_for_user}
use nomothetic.Auth.{
  AuthService, AuthError, TokenPair, update_signing_secret, normalise, refresh_token_ttl,
  min_secret_length,
}
use nomothetic.Auth.Libraries.{Hashing, Jose}
use nomothetic.Auth.Accounts.{create_user, create_user-SameSessions}
use nomothetic.Auth.Tokens.{create_access_token}
use nomothetic.Auth.Sessions.{create_tokens, create_refresh_token, revoke_all_tokens}
use nomothetic.Pairing.State.{PairingState, complete_pairing, reset_session}
use nomothetic.DeviceJwt
use nomothetic.Auth.Accounts.Login.{get-delete_tokens_for_user}
use nomothetic.DeviceAuthRoutes.{
  RouteError, server_error, Device, Draws, Answer, limit_error, after_limit, unless, on_test,
  device_owner_email, reset_device_session, revoked, issue_tokens, issue_pairing_tokens,
}

module _ {A : Type 0} (r : A) (d' : Device) where
  -- An error is no answer.
  pub raised_not_ok :
      {C : Type 0} (e : RouteError) (d : Device) → ◌≡◌ {A = Answer A} (raised e, d) (ok r, d') → C
  raised_not_ok e d h = absurd (false_not_true (ap (λ x. is_ok x.0) h))
    where
      false_not_true : false ≡ true → ⊥
      false_not_true f = ground (arith, f)

  pub after_limit-ok :
      (result : Result RateLimit.HttpError (Unit {0})) (handler : Device → Answer A) (d : Device)
      → after_limit result handler d ≡ (ok r, d')
      → handler d ≡ (ok r, d')
  after_limit-ok (raised e) handler d h = raised_not_ok (limit_error e) d h
  after_limit-ok (ok passed) handler d h = h

  pub unless-ok :
      (b : Bool) (e : RouteError) (rest : Answer A) (d : Device)
      → unless b e rest d ≡ (ok r, d')
      → (b ≡ true) × (rest ≡ (ok r, d'))
  unless-ok true e rest d h = (refl, h)
  unless-ok false e rest d h = raised_not_ok e d h

  pub on_test-ok :
      (test : Result PythonError Bool) (refusal : RouteError) (rest : Answer A) (d : Device)
      → on_test test refusal rest d ≡ (ok r, d')
      → (test ≡ ok true) × (rest ≡ (ok r, d'))
  on_test-ok (raised e) refusal rest d h = raised_not_ok server_error d h
  on_test-ok (ok false) refusal rest d h = raised_not_ok refusal d h
  on_test-ok (ok true) refusal rest d h = (refl, h)

module _ {Token : Type 0} (is_digit : ℕ → Bool) (environ : Dict Text) (hashing : Hashing)
    (jose : Jose Token) where
  open hashing use {sha256}

  -- The address of the owner is in its normal form.
  owner_normal : normalise hashing device_owner_email ≡ device_owner_email
  unfolding normalise strip Text.lower
  owner_normal = hashing.lower-ascii (strip device_owner_email) refl

  -- The service once the sessions of the owner are reset and the new ones issued.
  pub reset_service : Draws → AuthService → AuthService
  reset_service draws svc = record (revoke_all_tokens hashing device_owner_email svc).1 {
    secret = draws.jwt_secret;
  }

  module _ (pairing : PairingState) (svc : AuthService) (draws : Draws) (disk : Disk) where
    pub reset_lem : Result AuthError (Unit {0}) × PairingState × AuthService × Disk
    reset_lem =
        reset_device_session is_digit environ hashing (some device_owner_email) draws pairing svc
          disk

    -- A reset that succeeds.
    reset-ok :
        reset_lem.0 ≡ ok tt
        → (reset_lem.2 ≡ reset_service draws svc) × (reset_lem.1.jwt_secret ≡ draws.jwt_secret)
    unfolding reset_lem reset_service reset_device_session revoked update_signing_secret
        reset_session DeviceJwt.rotate
    reset-ok h = elim (Bool-cases (ltb (length draws.jwt_secret) min_secret_length)) [
      | inl short ↦ absurd (let f : false ≡ true = ap is_ok (rw short at h) in ground (arith, f))
      | inr long ↦ (rw long refl, refl)
    ]

  issue_tokens-ok :
      (display_name : Text) (draws : Draws) (now : ℕ)
      (u : Result AuthError (Unit {0}) × PairingState × AuthService × Disk) (d d' : Device)
      (r : TokenPair Token)
      → issue_tokens is_digit environ hashing jose display_name draws now u d ≡ (ok r, d')
      → (u.0 ≡ ok tt)
        × (let made =
              create_tokens hashing jose device_owner_email draws.refresh now
                (create_user hashing device_owner_email draws.password display_name draws.salt now
                  u.2).1 in
            (made.0 ≡ r)
            × (record d {
              pairing_state = some (complete_pairing device_owner_email u.1);
              auth_service = some made.1;
              disk = u.3;
            }
                ≡ d'))
  unfolding issue_tokens
  issue_tokens-ok display_name draws now (raised e, pairing, svc, disk) d d' r h =
      raised_not_ok r d' server_error
        (record d { pairing_state = some pairing; auth_service = some svc; disk = disk }) h
  issue_tokens-ok display_name draws now (ok updated, pairing, svc, disk) d d' r h =
      (refl, (cc, ap (λ x. x.1) h))

  -- A session of the owner after a pairing: the device is paired and its passkey is not held in memory,
  -- the service signs with the secret of the pairing state, which is the one just drawn, and it knows
  -- the refresh token that the answer has.
  pub record IsPaired (draws : Draws) (now : ℕ) (r : TokenPair Token) (d : Device)
      (pairing : PairingState) (svc : AuthService) : Type 0 where
    pub pairing_state : d.pairing_state ≡ some pairing
    pub auth_service : d.auth_service ≡ some svc
    pub paired : pairing.paired ≡ true
    pub owner : pairing.owner_email ≡ some device_owner_email
    pub consumed : pairing.secret ≡ none
    pub drawn : pairing.jwt_secret ≡ draws.jwt_secret
    pub same_secret : svc.secret ≡ pairing.jwt_secret
    pub access : r.access_token ≡ create_access_token jose device_owner_email now svc
    pub refresh : r.refresh_token ≡ draws.refresh
    pub known :
        Dict.get svc.token_store (sha256 draws.refresh)
        ≡ some (record { email = device_owner_email; expires_at = now + refresh_token_ttl })

  module _ (pairing : PairingState) (svc : AuthService) (display_name : Text) (draws : Draws)
      (now : ℕ) (d d' : Device) (r : TokenPair Token) where
    pub created : AuthService
    created =
        (create_user hashing device_owner_email draws.password display_name draws.salt now
          (reset_service draws svc)).1

    pub renewed : AuthService
    renewed = (create_tokens hashing jose device_owner_email draws.refresh now created).1

    pub completed : PairingState
    completed = complete_pairing device_owner_email (reset_lem pairing svc draws d.disk).1

    issued :
        issue_pairing_tokens is_digit environ hashing jose pairing svc display_name draws now d
          ≡ (ok r, d')
        → ((reset_lem pairing svc draws d.disk).0 ≡ ok tt)
          × ((create_tokens hashing jose device_owner_email draws.refresh now created).0 ≡ r)
          × (record d {
            pairing_state = some completed;
            auth_service = some renewed;
            disk = (reset_lem pairing svc draws d.disk).3;
          }
              ≡ d')
    unfolding issue_pairing_tokens reset_lem created renewed completed
    issued h =
        let u = reset_lem pairing svc draws d.disk in
        let made = issue_tokens-ok display_name draws now u d d' r h in
        let reset = reset-ok pairing svc draws d.disk made.0 in
        let after =
          subst
            (λ x.
              let made' =
                create_tokens hashing jose device_owner_email draws.refresh now
                  (create_user hashing device_owner_email draws.password display_name draws.salt now
                    x).1 in
              (made'.0 ≡ r)
              × (record d {
                pairing_state = some (complete_pairing device_owner_email u.1);
                auth_service = some made'.1;
                disk = u.3;
              }
                  ≡ d'))
            reset.0 made.1 in
        (made.0, after.0, after.1)

    created_secret : created.secret ≡ draws.jwt_secret
    unfolding created reset_service
    created_secret =
        (create_user-SameSessions hashing device_owner_email draws.password display_name draws.salt
          now (reset_service draws svc)).1

    created_tokens :
        created.token_store
        ≡ (delete_tokens_for_user (normalise hashing device_owner_email) svc.token_store).1
    unfolding created reset_service revoke_all_tokens
    created_tokens =
        (create_user-SameSessions hashing device_owner_email draws.password display_name draws.salt
          now (reset_service draws svc)).0

    renewed_tokens :
        renewed.token_store
        ≡ Dict.put created.token_store
            (sha256 draws.refresh)
            (record { email = device_owner_email; expires_at = now + refresh_token_ttl })
    unfolding renewed create_tokens create_refresh_token store_token
    renewed_tokens =
        ap
          (λ email.
            Dict.put created.token_store (sha256 draws.refresh)
              (record { email = email; expires_at = now + refresh_token_ttl }))
          owner_normal

    renewed_secret : renewed.secret ≡ draws.jwt_secret
    unfolding renewed create_tokens create_refresh_token
    renewed_secret = created_secret

    answered :
        (create_tokens hashing jose device_owner_email draws.refresh now created).0.access_token
        ≡ create_access_token jose device_owner_email now renewed
    unfolding renewed create_tokens create_refresh_token create_access_token
    answered = refl

    answered_refresh :
        (create_tokens hashing jose device_owner_email draws.refresh now created).0.refresh_token
        ≡ draws.refresh
    unfolding create_tokens create_refresh_token
    answered_refresh = refl

    pub issued-IsPaired :
        issue_pairing_tokens is_digit environ hashing jose pairing svc display_name draws now d
          ≡ (ok r, d')
        → IsPaired draws now r d' completed renewed
    unfolding completed complete_pairing reset_lem reset_device_session reset_session
    issued-IsPaired h =
        let made = issued h in
        let reset = reset-ok pairing svc draws d.disk made.0 in
        record {
          pairing_state = ap Device.pairing_state (sym made.2);
          auth_service = ap Device.auth_service (sym made.2);
          paired = refl;
          owner = refl;
          consumed = refl;
          drawn = reset.1;
          same_secret = renewed_secret ∙ sym reset.1;
          access = ap TokenPair.access_token (sym made.1) ∙ answered;
          refresh = ap TokenPair.refresh_token (sym made.1) ∙ answered_refresh;
          known = rw renewed_tokens (
              get-put created.token_store (sha256 draws.refresh) (sha256 draws.refresh)
                (record { email = device_owner_email; expires_at = now + refresh_token_ttl })
              ∙ rw (text_eq_refl (sha256 draws.refresh)) refl);
        }

    -- A refresh token of the owner from before is not known any more.
    pub ended :
        (old : Text) (entry : StoredToken)
        → Distinct svc.token_store
        → Dict.get svc.token_store (sha256 old) ≡ some entry
        → entry.email ≡ device_owner_email
        → sha256 draws.refresh ≢ sha256 old
        → Dict.get renewed.token_store (sha256 old) ≡ none
    ended old entry distinct held owned fresh =
        rw (renewed_tokens, created_tokens, owner_normal) ground
          (
            arith,
            get-put (delete_tokens_for_user device_owner_email svc.token_store).1
                (sha256 draws.refresh) (sha256 old)
                (record { email = device_owner_email; expires_at = now + refresh_token_ttl }),
            get-delete_tokens_for_user hashing device_owner_email (sha256 old) svc.token_store
                distinct,
            held,
            owned,
            fresh,
            text_eq_iff (sha256 draws.refresh) (sha256 old),
            text_eq_iff entry.email device_owner_email,
          )
