-- ===== src/Auth/Sessions/Rotation.antt =====
-- Refresh tokens are single-use, and a change of password ends every session of the account.
use nomothetic.Base.{
  ℕ, ◌+◌, ◌<◌, ◌≡◌, ◌≢◌, refl, true, Option, none, some, arith, raised, inl, inr, Bool-cases,
  Option-cases, leb, is_ok, ◌↔◌,
}
use nomothetic.Base.Text.{Text, text_eq_refl, text_eq_iff}
use nomothetic.Base.Dict
use nomothetic.Base.Dict.{get-put, get-remove, Distinct}
use nomothetic.TokenStore.{StoredToken, get_email, delete_token, store_token}
use nomothetic.UserStore.{UserRecord, get_user}
use nomothetic.Auth.{AuthService, invalid_refresh_token, normalise, refresh_token_ttl}
use nomothetic.Auth.Libraries.{Hashing, Jose}
use nomothetic.Auth.Sessions.{refresh_token, create_tokens, rotate, issue_for}

module _ {Token : Type 0} (hashing : Hashing) (jose : Jose Token) where
  open hashing use {sha256}

  -- What is not in the store is not accepted.
  pub refresh_token-absent :
      (raw raw' : Text) (now : ℕ) (s : AuthService)
      → Dict.get s.token_store (sha256 raw) ≡ none
      → (refresh_token hashing jose raw raw' now s).0 ≡ raised invalid_refresh_token
  unfolding refresh_token get_email
  refresh_token-absent raw raw' now s h = ground (arith, h)

  -- Whatever the account, the issue of new tokens writes one entry at most, under the new hash.
  get-issue_for :
      (email raw key : Text) (now : ℕ) (user : Option UserRecord) (s : AuthService)
      → sha256 raw ≢ key
      → Dict.get (issue_for hashing jose email raw now user s).1.token_store key
        ≡ Dict.get s.token_store key
  unfolding issue_for create_tokens store_token
  get-issue_for email raw key now none s h = refl
  get-issue_for email raw key now (some user) s h = ground (
    arith,
    text_eq_iff (sha256 raw) key,
    get-put s.token_store (sha256 raw) key
        (record { email = normalise hashing email; expires_at = now + refresh_token_ttl }),
  )

  get-refresh_token :
      (raw raw' : Text) (now : ℕ) (s : AuthService)
      → sha256 raw' ≢ sha256 raw
      → Dict.get (refresh_token hashing jose raw raw' now s).1.token_store (sha256 raw) ≡ none
  unfolding refresh_token get_email rotate delete_token
  get-refresh_token raw raw' now s h = elim (Option-cases (Dict.get s.token_store (sha256 raw))) [
    | inl absent ↦ ground (arith, absent)
    | inr (entry, found) ↦ elim (Bool-cases (leb entry.expires_at now)) [
      | inl late ↦ ground (
        arith,
        found,
        get-remove s.token_store (sha256 raw) (sha256 raw),
        text_eq_refl (sha256 raw),
      )
      | inr live ↦
          let left = record s { token_store = Dict.remove s.token_store (sha256 raw) } in
          ground (
            arith,
            found,
            get-issue_for entry.email raw' (sha256 raw) now (get_user s.user_store entry.email) left
                h,
            get-remove s.token_store (sha256 raw) (sha256 raw),
            text_eq_refl (sha256 raw),
          )
    ]
  ]

  -- A refresh token can be presented once: whatever came of the first time (new tokens, an expired
  -- token, an account that is gone or inactive), the second time it is refused, unless the token
  -- drawn for the first answer has the same hash.
  pub refresh_token-refresh_token :
      (raw first second : Text) (now later : ℕ) (s : AuthService)
      → sha256 first ≢ sha256 raw
      → (refresh_token hashing jose raw second later
          (refresh_token hashing jose raw first now s).1).0
        ≡ raised invalid_refresh_token
  refresh_token-refresh_token raw first second now later s h =
      refresh_token-absent raw second later _ (get-refresh_token raw first now s h)

  -- An entry that `refresh_token` accepts: live, and of an active account.
  pub record IsAccepted (raw : Text) (now : ℕ) (s : AuthService) : Type 0 where
    pub entry : StoredToken
    pub user : UserRecord
    pub held : Dict.get s.token_store (sha256 raw) ≡ some entry
    pub live : now < entry.expires_at
    pub account : Dict.get s.user_store entry.email ≡ some user
    pub is_active : user.active ≡ true

  IsAccepted-of_ok :
      (raw raw' : Text) (now : ℕ) (s : AuthService)
      → is_ok (refresh_token hashing jose raw raw' now s).0 ≡ true
      → IsAccepted raw now s
  unfolding refresh_token get_email rotate issue_for get_user
  IsAccepted-of_ok raw raw' now s h = elim (Option-cases (Dict.get s.token_store (sha256 raw))) [
    | inl absent ↦ absurd (ground (arith, absent))
    | inr (entry, found) ↦ elim (Option-cases (Dict.get s.user_store entry.email)) [
      | inl gone ↦ absurd (ground (arith, found, gone))
      | inr (user, there) ↦ record {
        entry = entry;
        user = user;
        held = found;
        live = ground (arith, found, there);
        account = there;
        is_active = ground (arith, found, there);
      }
    ]
  ]

  ok_of_accepted :
      (raw raw' : Text) (now : ℕ) (s : AuthService)
      → IsAccepted raw now s
      → is_ok (refresh_token hashing jose raw raw' now s).0 ≡ true
  unfolding refresh_token get_email rotate issue_for get_user
  ok_of_accepted raw raw' now s a = ground (arith, a.held, a.account, a.is_active, a.live)

  -- New tokens are issued exactly for a stored token that has not expired, whose account exists
  -- and is active.
  pub refresh_token_iff :
      (raw raw' : Text) (now : ℕ) (s : AuthService)
      → (is_ok (refresh_token hashing jose raw raw' now s).0 ≡ true) ↔ IsAccepted raw now s
  refresh_token_iff raw raw' now s =
      (IsAccepted-of_ok raw raw' now s, ok_of_accepted raw raw' now s)
