-- ===== src/Auth/Sessions.antt =====
-- The refresh tokens of `AuthService` (src/nomothetic/auth.py). A raw token is drawn by
-- `secrets.token_urlsafe` and is an argument here.
pub mod Rotation
pub mod Revocation
use nomothetic.Base.{
  ℕ, ◌+◌, ◌/◌, Bool, true, false, not, Option, none, some, Result, ok, raised, if◌then◌else◌,
}
use nomothetic.Base.Text.{Text}
use nomothetic.TokenStore.{store_token, get_email, delete_token, delete_tokens_for_user}
use nomothetic.UserStore.{UserRecord, get_user}
use nomothetic.Auth.{
  AuthService, AuthError, TokenPair, access_token_ttl, refresh_token_ttl, normalise,
  invalid_refresh_token, inactive_user,
}
use nomothetic.Auth.Libraries.{Hashing, Jose}
use nomothetic.Auth.Tokens.{create_access_token}

module _ (hashing : Hashing) where
  open hashing use {sha256}

  unfoldable pub create_refresh_token :
      (email raw : Text) (now : ℕ) → AuthService → Text × AuthService
  create_refresh_token email raw now s = (
    raw,
    record s {
      token_store =
          store_token (sha256 raw) (normalise hashing email) (now + refresh_token_ttl)
            s.token_store;
    },
  )

  unfoldable pub revoke_refresh_token : Text → AuthService → Bool × AuthService
  revoke_refresh_token raw s =
      let (existed, tokens) = delete_token (sha256 raw) s.token_store in
      (existed, record s { token_store = tokens })

unfoldable pub revoke_all_tokens : Hashing → Text → AuthService → ℕ × AuthService
revoke_all_tokens hashing email s =
    let (count, tokens) = delete_tokens_for_user (normalise hashing email) s.token_store in
    (count, record s { token_store = tokens })

module _ {Token : Type 0} (hashing : Hashing) (jose : Jose Token) where
  unfoldable pub create_tokens :
      (email raw : Text) (now : ℕ) → AuthService → TokenPair Token × AuthService
  unfolding create_refresh_token
  create_tokens email raw now s =
      let (refresh, s') = create_refresh_token hashing email raw now s in
      (
        record {
          access_token = create_access_token jose email now s;
          refresh_token = refresh;
          expires_in = access_token_ttl / 1_000_000;
        },
        s',
      )

  -- The last step: the account must still be there and active.
  issue_for :
      (email raw : Text) (now : ℕ)
      → Option UserRecord
      → AuthService
      → Result AuthError (TokenPair Token) × AuthService
  issue_for email raw now none s = (raised inactive_user, s)
  issue_for email raw now (some user) s =
      if not user.active
      then (raised inactive_user, s)
      else let (tokens, s') = create_tokens email raw now s in (ok tokens, s')

  rotate :
      (token_hash raw : Text) (now : ℕ)
      → Option Text
      → AuthService
      → Result AuthError (TokenPair Token) × AuthService
  rotate token_hash raw now none s = (raised invalid_refresh_token, s)
  rotate token_hash raw now (some email) s =
      let s' = record s { token_store = (delete_token token_hash s.token_store).1 } in
      issue_for email raw now (get_user s'.user_store email) s'

  unfoldable pub refresh_token :
      (raw_refresh raw : Text) (now : ℕ)
      → AuthService
      → Result AuthError (TokenPair Token) × AuthService
  unfolding issue_for rotate
  refresh_token raw_refresh raw now s =
      let token_hash = hashing.sha256 raw_refresh in
      let (email, tokens) = get_email token_hash now s.token_store in
      rotate token_hash raw now email (record s { token_store = tokens })
