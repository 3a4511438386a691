-- ===== src/Auth/Guards.antt =====
-- The dependencies of src/nomothetic/auth.py that guard the routes. The module's globals are
-- arguments: the service, if it was set, and the clock of the last owner contact.
pub mod Confinement
use nomothetic.Base.{
  ℕ, ◌-◌, Bool, true, false, not, ◌&&◌, Option, none, some, Result, ok, raised, if◌then◌else◌,
}
use nomothetic.Base.Text.{Text, text_eq}
use nomothetic.Auth.{AuthService, AuthError, TokenPayload, scope_owner, scope_plugin}
use nomothetic.Auth.Libraries.{Jose}
use nomothetic.Auth.Routes.{plugin_may_call}
use nomothetic.Auth.Tokens.{verify_token}

-- `HTTPException` with status 503, 401 without a header, 401 for a token that was refused, and 403.
pub data HttpError : Type 0 where
  service_unavailable missing_header forbidden : HttpError
  unauthorized : AuthError → HttpError

from_verify : Result AuthError TokenPayload → Result HttpError TokenPayload
from_verify (ok payload) = ok payload
from_verify (raised e) = raised (unauthorized e)

module _ {Token : Type 0} (jose : Jose Token) where
  unfoldable pub jwt_required :
      Option AuthService → Option Token → ℕ → Result HttpError TokenPayload
  unfolding from_verify
  jwt_required none credentials now = raised service_unavailable
  jwt_required (some s) none now = raised missing_header
  jwt_required (some s) (some token) now = from_verify (verify_token jose token now s)

-- `_last_owner_contact`
abbrev pub Contact : Type 0
Contact = Option ℕ

unfoldable pub record_owner_contact : (clock : ℕ) → Contact → Contact
record_owner_contact clock last = some clock

-- The clock does not go back, so the difference loses nothing.
unfoldable pub seconds_since_owner_contact : (clock : ℕ) → Contact → Option ℕ
seconds_since_owner_contact clock none = none
seconds_since_owner_contact clock (some last) = some (clock - last)

unfoldable pub device_jwt_required :
    (method path : Text) (clock : ℕ)
    → TokenPayload
    → Contact
    → Result HttpError TokenPayload × Contact
device_jwt_required method path clock claims contact =
    if text_eq claims.scope scope_plugin && not (plugin_may_call method path)
    then (raised forbidden, contact)
    else if text_eq claims.scope scope_owner
    then (ok claims, record_owner_contact clock contact)
    else (ok claims, contact)

unfoldable pub owner_required : TokenPayload → Result HttpError TokenPayload
owner_required claims =
    if not (text_eq claims.scope scope_owner) then raised forbidden else ok claims

-- `Depends(jwt_required)`: the claims reach the dependency only where `jwt_required` returns.
unfoldable pub after_jwt_device :
    (method path : Text) (clock : ℕ)
    → Result HttpError TokenPayload
    → Contact
    → Result HttpError TokenPayload × Contact
after_jwt_device method path clock (ok claims) contact =
    device_jwt_required method path clock claims contact
after_jwt_device method path clock (raised e) contact = (raised e, contact)

unfoldable pub after_jwt_owner : Result HttpError TokenPayload → Result HttpError TokenPayload
after_jwt_owner (ok claims) = owner_required claims
after_jwt_owner (raised e) = raised e
