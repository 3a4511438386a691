-- ===== src/UserStore.antt =====
-- src/nomothetic/user_store.py: the in-memory user store, with the user record of auth.py.
use nomothetic.Base.{
  ℕ, Bool, true, false, Option, none, some, List, [], ◌∷◌, is_some, Result, ok, raised,
  if◌then◌else◌,
}
use nomothetic.Base.Text.{Text}
use nomothetic.Base.Dict
use nomothetic.Base.Dict.{Dict}

-- A time as text: which format of which clock value (`isoformat()`, or `strftime` to the second).
pub data Stamp : Type 0 where
  iso seconds : ℕ → Stamp

pub record UserRecord : Type 0 where
  pub email : Text
  pub display_name : Text
  pub password_hash : Text
  pub created_at : Stamp
  pub last_login_at : Option Stamp
  pub active : Bool

-- A keyword argument of `update_user`: one of the three names that it allows, or another.
pub data Field : Type 0 where
  display_name : Text → Field
  last_login_at : Stamp → Field
  active : Bool → Field
  other : Text → Field

-- The ValueErrors of the store.
pub data UserError : Type 0 where
  already_registered cannot_update : UserError

abbrev pub InMemoryUserStore : Type 0
InMemoryUserStore = Dict UserRecord

unfoldable pub get_user : InMemoryUserStore → Text → Option UserRecord
get_user users email = Dict.get users email

unfoldable pub user_exists : InMemoryUserStore → Text → Bool
user_exists users email = is_some (Dict.get users email)

abbrev pub new_user : (email name password_hash : Text) (created_at : Stamp) → UserRecord
new_user email name password_hash created_at = record {
  email = email;
  display_name = name;
  password_hash = password_hash;
  created_at = created_at;
  last_login_at = none;
  active = true;
}

unfoldable pub create_user :
    (email name password_hash : Text) (created_at : Stamp)
    → InMemoryUserStore
    → Result UserError UserRecord × InMemoryUserStore
create_user email name password_hash created_at users =
    let user = new_user email name password_hash created_at in
    if is_some (Dict.get users email)
    then (raised already_registered, users)
    else (ok user, Dict.put users email user)

-- `all(key in _ALLOWED_USER_UPDATE_FIELDS for key in fields)`
unfoldable pub allowed : List Field → Bool
allowed [] = true
allowed (other name ∷ fields) = false
allowed (field ∷ fields) = allowed fields

unfoldable pub set_fields : List Field → UserRecord → UserRecord
set_fields [] user = user
set_fields (display_name name ∷ fields) user =
    set_fields fields (record user { display_name = name })
set_fields (last_login_at stamp ∷ fields) user =
    set_fields fields (record user { last_login_at = some stamp })
set_fields (active flag ∷ fields) user = set_fields fields (record user { active = flag })
set_fields (other name ∷ fields) user = set_fields fields user

update_found :
    Text
    → List Field
    → Option UserRecord
    → InMemoryUserStore
    → Result UserError (Option UserRecord) × InMemoryUserStore
update_found email fields none users = (ok none, users)
update_found email fields (some user) users =
    (ok (some (set_fields fields user)), Dict.put users email (set_fields fields user))

unfoldable pub update_user :
    Text → List Field → InMemoryUserStore → Result UserError (Option UserRecord) × InMemoryUserStore
unfolding allowed set_fields update_found
update_user email fields users =
    if allowed fields
    then update_found email fields (Dict.get users email) users
    else (raised cannot_update, users)

replace_hash : Text → Text → Option UserRecord → InMemoryUserStore → Bool × InMemoryUserStore
replace_hash email password_hash none users = (false, users)
replace_hash email password_hash (some user) users =
    (true, Dict.put users email (record user { password_hash = password_hash }))

unfoldable pub set_password_hash : Text → Text → InMemoryUserStore → Bool × InMemoryUserStore
unfolding replace_hash
set_password_hash email password_hash users =
    replace_hash email password_hash (Dict.get users email) users
