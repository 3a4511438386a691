-- ===== src/DeviceAuthRoutes/Pair.antt =====
-- What a pairing takes, and what it does to the sessions before it.
use nomothetic.Base.{ℕ, ◌≡◌, ◌≢◌, refl, ap, Bool, true, some, ok, raised}
use mathlib.Core.Path.{sym, ◌∙◌}
use nomothetic.Base.Text.{Text}
use nomothetic.Base.Dict
use nomothetic.Base.Dict.{Dict, Distinct, get-put, get-retain}
use nomothetic.RateLimit.{pairing_rate_limit}
use nomothetic.TokenStore.{StoredToken}
use nomothetic.Auth.{AuthService, TokenPair, invalid_refresh_token}
use nomothetic.Auth.Libraries.{Hashing, Jose}
use nomothetic.Auth.Sessions.{refresh_token}
use nomothetic.Auth.Sessions.Rotation.{refresh_token-absent}
use nomothetic.Pairing.State.{PairingState, verify_secret}
use nomothetic.DeviceAuthRoutes.Issue.{
  IsPaired, after_limit-ok, unless-ok, on_test-ok, issued-IsPaired, ended, renewed, completed,
}
use nomothetic.DeviceAuthRoutes.{
  unauthorized, unprocessable, Device, Context, Draws, PairRequest, Answer, limited, unless,
  with_pairing, with_service, on_test, fits_pair, device_owner_email, issue_pairing_tokens, pair,
}

module _ {Token : Type 0} (is_digit : ℕ → Bool) (environ : Dict Text) (hashing : Hashing)
    (jose : Jose Token) where
  open hashing use {sha256}

  module _ (c : Context) (body : PairRequest) (draws : Draws) (d' : Device)
      (r : TokenPair Token) where
    pair_handler : Device → Answer (TokenPair Token)
    pair_handler d =
        unless (fits_pair body) unprocessable
          (with_pairing d.pairing_state
            (λ pairing.
              with_service d.auth_service
                (λ svc.
                  on_test (verify_secret is_digit environ body.secret pairing d.disk) unauthorized
                    (issue_pairing_tokens is_digit environ hashing jose pairing svc
                      body.display_name draws c.now d)
                    d)
                d)
            d)
          d

    pair_lem :
        (d : Device)
        → pair is_digit environ hashing jose c body draws d
          ≡ limited pairing_rate_limit c pair_handler d
    unfolding pair pair_handler
    pair_lem d = refl

    pair_handler-ok :
        (d : Device) (pairing : PairingState) (svc : AuthService)
        → pair_handler d ≡ (ok r, d')
        → d.pairing_state ≡ some pairing
        → d.auth_service ≡ some svc
        → (verify_secret is_digit environ body.secret pairing d.disk ≡ ok true)
          × (issue_pairing_tokens is_digit environ hashing jose pairing svc body.display_name draws
                c.now d
              ≡ (ok r, d'))
    unfolding pair_handler
    pair_handler-ok d pairing svc h p q =
        let verified = λ (pairing : PairingState) (svc : AuthService).
          on_test (verify_secret is_digit environ body.secret pairing d.disk) unauthorized
            (issue_pairing_tokens is_digit environ hashing jose pairing svc body.display_name draws
              c.now d)
            d in
        let fits =
          unless-ok r d' (fits_pair body) unprocessable
            (with_pairing d.pairing_state
              (λ pairing. with_service d.auth_service (λ svc. verified pairing svc) d) d)
            d h in
        let inner =
          λ (pairing : PairingState). with_service d.auth_service (λ svc. verified pairing svc) d in
        let rest =
          sym (ap (λ x. with_service x (λ svc. verified pairing svc) d) q)
          ∙ (sym (ap (λ x. with_pairing x inner d) p) ∙ fits.1) in
        on_test-ok r d' (verify_secret is_digit environ body.secret pairing d.disk) unauthorized
          (issue_pairing_tokens is_digit environ hashing jose pairing svc body.display_name draws
            c.now d)
          d rest

    -- Pairing with the device's secret, for a device with a pairing state and a service. The answer is
    -- tokens only where the secret of the request verifies. The pairing then ends every session before
    -- it: a refresh token that the store had for the owner is refused from then on (given that its hash
    -- is not that of the one just drawn), the device signs with a newly drawn secret, and is paired as
    -- `IsPaired` says.
    pub pair_effect :
        (d : Device) (pairing : PairingState) (svc : AuthService) (old next : Text) (later : ℕ)
        (entry : StoredToken)
        → pair is_digit environ hashing jose c body draws d ≡ (ok r, d')
        → d.pairing_state ≡ some pairing
        → d.auth_service ≡ some svc
        → Distinct svc.token_store
        → Dict.get svc.token_store (sha256 old) ≡ some entry
        → entry.email ≡ device_owner_email
        → sha256 draws.refresh ≢ sha256 old
        → (verify_secret is_digit environ body.secret pairing d.disk ≡ ok true)
          × ((paired : PairingState) × (service : AuthService) × IsPaired is_digit environ hashing
                jose draws c.now r d' paired service
              × ((refresh_token hashing jose old next later service).0
                  ≡ raised invalid_refresh_token))
    pair_effect d pairing svc old next later entry h p q distinct held owned fresh =
        let limit = pairing_rate_limit c.trust_proxy c.request c.monotonic d.limiters in
        let d0 : Device = record d { limiters = limit.1 } in
        let answer = after_limit-ok r d' limit.0 pair_handler d0 (sym (pair_lem d) ∙ h) in
        let done = pair_handler-ok d0 pairing svc answer p q in
        let service =
          renewed is_digit environ hashing jose pairing svc body.display_name draws c.now d0 d' r in
        (
          done.0,
          (
            completed is_digit environ hashing jose pairing svc body.display_name draws c.now d0 d'
                r,
            service,
            issued-IsPaired is_digit environ hashing jose pairing svc body.display_name draws c.now
                d0 d' r done.1,
            refresh_token-absent hashing jose old next later service (
                ended is_digit environ hashing jose pairing svc body.display_name draws c.now d0 d'
                  r old entry distinct held owned fresh),
          ),
        )
