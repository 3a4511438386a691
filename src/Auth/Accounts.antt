-- ===== src/Auth/Accounts.antt =====
-- The methods of `AuthService` (src/nomothetic/auth.py) for accounts and passwords.
pub mod Login
use nomothetic.Base.{
  ℕ, Bool, true, false, not, Option, none, some, List, [], ◌∷◌, Result, ok, raised, if◌then◌else◌,
  ◌≡◌, refl,
}
use nomothetic.Base.Text.{Text}
use nomothetic.Base.Dict
use nomothetic.TokenStore.{delete_tokens_for_user}
use nomothetic.UserStore
use nomothetic.UserStore.{
  UserRecord, InMemoryUserStore, iso, seconds, set_password_hash, user_exists, get_user,
  update_user,
}
use nomothetic.Auth.{
  AuthService, AuthError, already_registered, wrong_password, bad_password, normalise,
}
use nomothetic.Auth.Libraries.{Hashing}

from_user_store :
    Result UserStore.UserError UserRecord × InMemoryUserStore
    → AuthService
    → Result AuthError UserRecord × AuthService
from_user_store (ok user, users) s = (ok user, record s { user_store = users })
from_user_store (raised e, users) s = (raised already_registered, record s { user_store = users })

-- The store hands out the record itself: what is assigned to it is seen in the store, and the
-- update that follows is seen in the record that is returned.
record_login : Text → ℕ → UserRecord → AuthService → Option UserRecord × AuthService
record_login normalised now user s =
    let assigned =
      Dict.put s.user_store normalised (record user { last_login_at = some (iso now) }) in
    let updated = update_user normalised (UserStore.last_login_at (seconds now) ∷ []) assigned in
    (get_user updated.1 normalised, record s { user_store = updated.1 })

module _ (hashing : Hashing) where
  open hashing use {hashpw, checkpw}

  -- The record is stored once the password is hashed.
  create_hashed :
      (normalised display_name : Text) (now : ℕ)
      → Option Text
      → AuthService
      → Result AuthError UserRecord × AuthService
  unfolding from_user_store
  create_hashed normalised display_name now none s = (raised bad_password, s)
  create_hashed normalised display_name now (some hashed) s =
      from_user_store (UserStore.create_user normalised display_name hashed (iso now) s.user_store)
        s

  unfoldable pub create_user :
      (email password display_name salt : Text) (now : ℕ)
      → AuthService
      → Result AuthError UserRecord × AuthService
  unfolding create_hashed
  create_user email password display_name salt now s =
      if user_exists s.user_store (normalise hashing email)
      then (raised already_registered, s)
      else create_hashed (normalise hashing email) display_name now (hashpw password salt) s

  abbrev pub LoginAnswer : Type 0
  LoginAnswer = Result AuthError (Option UserRecord) × AuthService

  -- The comparison with the throwaway hash, whose answer does not count.
  refuse : Option Bool → AuthService → LoginAnswer
  refuse none s = (raised bad_password, s)
  refuse (some matches) s = (ok none, s)

  compared : Text → ℕ → UserRecord → Option Bool → AuthService → LoginAnswer
  compared normalised now user none s = (raised bad_password, s)
  compared normalised now user (some false) s = (ok none, s)
  compared normalised now user (some true) s =
      let (found, s') = record_login normalised now user s in (ok found, s')

  check_login :
      (equalizer normalised password : Text) → ℕ → Option UserRecord → AuthService → LoginAnswer
  unfolding refuse compared
  check_login equalizer normalised password now none s = refuse (checkpw password equalizer) s
  check_login equalizer normalised password now (some user) s =
      if not user.active
      then refuse (checkpw password equalizer) s
      else compared normalised now user (checkpw password user.password_hash) s

  -- `equalizer` is the throwaway hash that `_get_timing_equalizer_hash` keeps.
  unfoldable pub authenticate :
      (equalizer email password : Text) (now : ℕ) → AuthService → LoginAnswer
  unfolding check_login record_login
  authenticate equalizer email password now s =
      check_login equalizer (normalise hashing email) password now
        (get_user s.user_store (normalise hashing email)) s

  -- The new password is hashed before anything is stored.
  renew_password :
      (normalised : Text) → Option Text → AuthService → Result AuthError Bool × AuthService
  renew_password normalised none s = (raised bad_password, s)
  renew_password normalised (some hashed) s = (
    ok true,
    record s {
      user_store = (set_password_hash normalised hashed s.user_store).1;
      token_store = (delete_tokens_for_user normalised s.token_store).1;
    },
  )

  change_checked :
      (normalised : Text)
      → Option Bool
      → Option Text
      → AuthService
      → Result AuthError Bool × AuthService
  unfolding renew_password
  change_checked normalised none hashed s = (raised bad_password, s)
  change_checked normalised (some false) hashed s = (raised wrong_password, s)
  change_checked normalised (some true) hashed s = renew_password normalised hashed s

  check_change :
      (normalised current_password new_password salt : Text)
      → Option UserRecord
      → AuthService
      → Result AuthError Bool × AuthService
  unfolding change_checked
  check_change normalised current_password new_password salt none s = (raised wrong_password, s)
  check_change normalised current_password new_password salt (some user) s =
      change_checked normalised (checkpw current_password user.password_hash)
        (hashpw new_password salt) s

  unfoldable pub change_password :
      (email current_password new_password salt : Text)
      → AuthService
      → Result AuthError Bool × AuthService
  unfolding check_change
  change_password email current_password new_password salt s =
      check_change (normalise hashing email) current_password new_password salt
        (get_user s.user_store (normalise hashing email)) s

-- The tokens and the signing secret are as they were.
abbrev pub SameSessions : AuthService → AuthService → Type 0
SameSessions before after =
    (after.token_store ≡ before.token_store) × (after.secret ≡ before.secret)

if-SameSessions :
    (b : Bool) (s : AuthService) (x y : Result AuthError UserRecord × AuthService)
    → SameSessions s x.1
    → SameSessions s y.1
    → SameSessions s (if b then x else y).1
if-SameSessions true s x y h k = h
if-SameSessions false s x y h k = k

from_user_store-SameSessions :
    (stored : Result UserStore.UserError UserRecord × InMemoryUserStore) (s : AuthService)
    → SameSessions s (from_user_store stored s).1
unfolding from_user_store
from_user_store-SameSessions (ok user, users) s = (refl, refl)
from_user_store-SameSessions (raised e, users) s = (refl, refl)

create_hashed-SameSessions :
    (hashing : Hashing) (normalised display_name : Text) (now : ℕ) (hashed : Option Text)
    (s : AuthService)
    → SameSessions s (create_hashed hashing normalised display_name now hashed s).1
unfolding create_hashed
create_hashed-SameSessions hashing normalised display_name now none s = (refl, refl)
create_hashed-SameSessions hashing normalised display_name now (some hashed) s =
    from_user_store-SameSessions
      (UserStore.create_user normalised display_name hashed (iso now) s.user_store) s

pub create_user-SameSessions :
    (hashing : Hashing) (email password display_name salt : Text) (now : ℕ) (s : AuthService)
    → SameSessions s (create_user hashing email password display_name salt now s).1
unfolding create_user
create_user-SameSessions hashing email password display_name salt now s =
    let key = normalise hashing email in
    let hashed = hashing.hashpw password salt in
    if-SameSessions (user_exists s.user_store key) s (raised already_registered, s)
      (create_hashed hashing key display_name now hashed s) (refl, refl)
      (create_hashed-SameSessions hashing key display_name now hashed s)

unfoldable pub find_user : Hashing → Text → AuthService → Option UserRecord
find_user hashing email s = get_user s.user_store (normalise hashing email)

updated : Result UserStore.UserError (Option UserRecord) → Option UserRecord
updated (ok user) = user
updated (raised e) = none

-- The one field is in the whitelist of the store, so the store raises nothing.
unfoldable pub update_display_name :
    Hashing → Text → Text → AuthService → Option UserRecord × AuthService
unfolding updated
update_display_name hashing email name s =
    let (result, users) =
      update_user (normalise hashing email) (UserStore.display_name name ∷ []) s.user_store in
    (updated result, record s { user_store = users })
