-- ===== src/Auth/Accounts/Login.antt =====
-- What a client of the accounts sees: registration, login and the change of a password.
use nomothetic.Base.{ℕ, ◌≡◌, refl, true, not, some, arith, ok, inl, inr, Option-cases}
use nomothetic.Base.Text.{Text, text_eq_refl}
use nomothetic.Base.Dict
use nomothetic.Base.Dict.{get-put, get-retain, Distinct}
use nomothetic.TokenStore.{InMemoryTokenStore, belongs_to, delete_tokens_for_user}
use nomothetic.UserStore
use nomothetic.UserStore.{
  UserRecord, InMemoryUserStore, iso, seconds, set_password_hash, user_exists, get_user,
  update_user,
}
use nomothetic.Auth.{AuthService, normalise}
use nomothetic.Auth.Libraries.{Hashing}
use nomothetic.Auth.Accounts.{
  create_user, authenticate, change_password, check_login, record_login, check_change, compared,
  create_hashed, change_checked, renew_password,
}

-- The account is there, active, and its password is `password`.
pub record HasLogin (hashing : Hashing) (email password : Text) (user : UserRecord)
    (s : AuthService) : Type 0 where
  pub stored : Dict.get s.user_store (normalise hashing email) ≡ some user
  pub is_active : user.active ≡ true
  pub checks : hashing.checkpw password user.password_hash ≡ some true

module _ (hashing : Hashing) where
  record_login_lem :
      (key : Text) (now : ℕ) (user : UserRecord) (s : AuthService)
      → (record_login key now user s).0 ≡ some (record user { last_login_at = some (seconds now) })
  unfolding record_login update_user get_user
  record_login_lem key now user s = simp (get-put, text_eq_refl) (ground arith)

  -- A login to an active account with its password returns the record with the new login time.
  pub authenticate-HasLogin :
      (equalizer email password : Text) (now : ℕ) (user : UserRecord) (s : AuthService)
      → HasLogin hashing email password user s
      → (authenticate hashing equalizer email password now s).0
        ≡ ok (some (record user { last_login_at = some (seconds now) }))
  unfolding authenticate get_user check_login compared
  authenticate-HasLogin equalizer email password now user s h = ground (
    arith,
    h.stored,
    h.is_active,
    h.checks,
    record_login_lem (normalise hashing email) now user s,
  )

  created-HasLogin :
      (email password name salt : Text) (now : ℕ) (s : AuthService) (user : UserRecord)
      → (create_user hashing email password name salt now s).0 ≡ ok user
      → HasLogin hashing email password user (create_user hashing email password name salt now s).1
        × (user.email ≡ normalise hashing email)
        × (user.display_name ≡ name)
  unfolding create_user create_hashed UserStore.create_user user_exists
  created-HasLogin email password name salt now s user h =
      elim (Option-cases (Dict.get s.user_store (normalise hashing email))) [
        | inr (old, taken) ↦ absurd (ground (arith, h, taken))
        | inl free ↦ elim (Option-cases (hashing.hashpw password salt)) [
          | inl long ↦ absurd (ground (arith, h, free, long))
          | inr (hashed, made) ↦
              let key = normalise hashing email in
              let new = UserStore.new_user key name hashed (iso now) in
              let e : new ≡ user = ground (arith, h, free, made) in
              (
                record {
                  stored =
                      ground
                        (arith, free, made, e, get-put s.user_store key key new, text_eq_refl key);
                  is_active = ground (arith, e);
                  checks = rw (← e) (hashing.checkpw-hashpw password salt hashed made);
                },
                ground (arith, e),
                ground (arith, e),
              )
        ]
      ]

  -- After a registration that succeeds, a login with that password, under any text that is the same
  -- address once it is stripped and lowered, returns the account: its normalised address, its name,
  -- active, and with the time of the login.
  pub authenticate-create_user :
      (equalizer email other password name salt : Text) (now later : ℕ) (s : AuthService)
      (user : UserRecord)
      → (create_user hashing email password name salt now s).0 ≡ ok user
      → normalise hashing other ≡ normalise hashing email
      → (found : UserRecord) × ((authenticate hashing equalizer other password later
            (create_user hashing email password name salt now s).1).0
          ≡ ok (some found))
        × (found.email ≡ normalise hashing email)
        × (found.display_name ≡ name)
        × (found.active ≡ true)
        × (found.last_login_at ≡ some (seconds later))
  authenticate-create_user equalizer email other password name salt now later s user h same =
      let (has, email_lem, name_lem) = created-HasLogin email password name salt now s user h in
      (
        record user { last_login_at = some (seconds later) },
        authenticate-HasLogin equalizer other password later user _ (record {
          stored = rw same has.stored;
          is_active = has.is_active;
          checks = has.checks;
        }),
        email_lem,
        name_lem,
        has.is_active,
        refl,
      )

  -- The state after a change of password that succeeds.
  pub change_password_lem :
      (email current new salt hashed : Text) (s : AuthService) (user : UserRecord)
      → Dict.get s.user_store (normalise hashing email) ≡ some user
      → hashing.checkpw current user.password_hash ≡ some true
      → hashing.hashpw new salt ≡ some hashed
      → change_password hashing email current new salt s ≡ (
        ok true,
        record s {
          user_store =
              Dict.put s.user_store
                (normalise hashing email)
                (record user { password_hash = hashed });
          token_store = (delete_tokens_for_user (normalise hashing email) s.token_store).1;
        },
      )
  unfolding change_password check_change change_checked renew_password set_password_hash get_user
  change_password_lem email current new salt hashed s user found checks made =
      ground (arith, found, checks, made)

  -- Every refresh token of the account is gone, and no other token is.
  pub get-delete_tokens_for_user :
      (email token_hash : Text) (tokens : InMemoryTokenStore)
      → Distinct tokens
      → Dict.get (delete_tokens_for_user email tokens).1 token_hash
        ≡ Dict.select
            (λ h entry. not (belongs_to email h entry))
            token_hash
            (Dict.get tokens token_hash)
  unfolding delete_tokens_for_user
  get-delete_tokens_for_user email token_hash tokens h = get-retain _ tokens token_hash h
