-- ===== src/Auth/Sessions/Revocation.antt =====
-- A change of password ends every session of the account, and no other.
use nomothetic.Base.{ℕ, ◌≡◌, ◌≢◌, refl, true, none, some, arith, ok, raised, if◌then◌else◌}
use nomothetic.Base.Text.{Text, text_eq, text_eq_refl, text_eq_iff}
use nomothetic.Base.Dict
use nomothetic.Base.Dict.{get-put, Distinct}
use nomothetic.TokenStore.{StoredToken, delete_tokens_for_user}
use nomothetic.UserStore.{UserRecord, seconds}
use nomothetic.Auth.{AuthService, invalid_refresh_token, normalise}
use nomothetic.Auth.Libraries.{Hashing, Jose}
use nomothetic.Auth.Accounts.{change_password, authenticate}
use nomothetic.Auth.Accounts.Login.{
  HasLogin, authenticate-HasLogin, change_password_lem, get-delete_tokens_for_user,
}
use nomothetic.Auth.Sessions.{refresh_token}
use nomothetic.Auth.Sessions.Rotation.{refresh_token-absent}

module _ {Token : Type 0} (hashing : Hashing) (jose : Jose Token)
    (email current new salt hashed : Text) (s : AuthService) (user : UserRecord)
    (distinct : Distinct s.token_store) (login : HasLogin hashing email current user s)
    (made : hashing.hashpw new salt ≡ some hashed) where
  open hashing use {sha256}

  abbrev renewed : UserRecord
  renewed = record user { password_hash = hashed }

  abbrev after : AuthService
  after = record s {
    user_store = Dict.put s.user_store (normalise hashing email) renewed;
    token_store = (delete_tokens_for_user (normalise hashing email) s.token_store).1;
  }

  changed_lem : change_password hashing email current new salt s ≡ (ok true, after)
  changed_lem =
      change_password_lem hashing email current new salt hashed s user login.stored login.checks
        made

  renewed-HasLogin : HasLogin hashing email new renewed after
  renewed-HasLogin = record {
    stored = simp (get-put, text_eq_refl);
    is_active = login.is_active;
    checks = hashing.checkpw-hashpw new salt hashed made;
  }

  get-after :
      (raw : Text) (entry : StoredToken)
      → Dict.get s.token_store (sha256 raw) ≡ some entry
      → Dict.get after.token_store (sha256 raw)
        ≡ (if text_eq entry.email (normalise hashing email) then none else some entry)
  get-after raw entry held = ground (
    arith,
    get-delete_tokens_for_user hashing (normalise hashing email) (sha256 raw) s.token_store
        distinct,
    held,
  )

  module _ (mine other next equalizer : Text) (now : ℕ) (own theirs : StoredToken)
      (held : Dict.get s.token_store (sha256 mine) ≡ some own)
      (belongs : own.email ≡ normalise hashing email)
      (held_too : Dict.get s.token_store (sha256 other) ≡ some theirs)
      (foreign : theirs.email ≢ normalise hashing email) where
    gone : Dict.get after.token_store (sha256 mine) ≡ none
    gone = ground (arith, get-after mine own held, text_eq_iff own.email (normalise hashing email))

    kept : Dict.get after.token_store (sha256 other) ≡ some theirs
    kept =
        ground (
          arith,
          get-after other theirs held_too,
          text_eq_iff theirs.email (normalise hashing email),
        )

    -- With the current password of an active account and a new one that bcrypt hashes, where `mine` is a refresh token of the
    -- account and `other` one of another account: the change succeeds; the new password logs in;
    -- `mine` is refused from then on; and `other` stays as it is.
    pub change_password_effect :
        ((change_password hashing email current new salt s).0 ≡ ok true)
        × ((authenticate hashing equalizer email new now
              (change_password hashing email current new salt s).1).0
            ≡ ok
                (some (record user { password_hash = hashed; last_login_at = some (seconds now) })))
        × ((refresh_token hashing jose mine next now
              (change_password hashing email current new salt s).1).0
            ≡ raised invalid_refresh_token)
        × (Dict.get (change_password hashing email current new salt s).1.token_store (sha256 other)
            ≡ some theirs)
    change_password_effect = rw changed_lem (
      refl,
      authenticate-HasLogin hashing equalizer email new now renewed after renewed-HasLogin,
      refresh_token-absent hashing jose mine next now after gone,
      kept,
    )
