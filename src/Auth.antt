-- ===== src/Auth.antt =====
-- src/nomothetic/auth.py: the state of `AuthService` over the in-memory stores. Its accounts are in
-- `Accounts`, its JSON Web Tokens in `Tokens`, its refresh tokens in `Sessions`, what a plugin token
-- may call in `Routes`, and the dependencies that guard the routes in `Guards`. The libraries that
-- it calls are the parameters of `Libraries`. The in-memory stores never suspend, so a method runs
-- without interleaving. What a method draws (a salt, a token, a uuid) and the clock, in
-- microseconds, are arguments.
pub mod Libraries
pub mod Routes
pub mod Accounts
pub mod Tokens
pub mod Sessions
pub mod Guards
mod Examples
use nomothetic.Base.{
  ℕ, ◌+◌, ◌*◌, ◌/◌, ◌≡◌, Bool, true, false, not, Option, none, some, List, [], ◌∷◌, ◌++◌, ltb,
  length, Result, ok, raised, if◌then◌else◌,
}
use nomothetic.Base.Text.{Text, text, text_eq, strip, starts_with}
use nomothetic.Auth.Libraries.{Hashing}
use nomothetic.TokenStore.{InMemoryTokenStore}
use nomothetic.UserStore.{InMemoryUserStore}

abbrev pub access_token_ttl : ℕ
access_token_ttl = 15 * 60 * 1_000_000

abbrev pub refresh_token_ttl : ℕ
refresh_token_ttl = 7 * 24 * 3600 * 1_000_000

abbrev pub plugin_token_ttl : ℕ
plugin_token_ttl = 60 * 60 * 1_000_000

abbrev pub min_secret_length : ℕ
min_secret_length = 32

abbrev pub scope_owner : Text
scope_owner = text "owner"

abbrev pub scope_plugin : Text
scope_plugin = text "plugin"

abbrev pub plugin_sub_prefix : Text
plugin_sub_prefix = text "plugin:"

-- The ValueErrors of the module, one for each place that raises one; `bad_password` is bcrypt's.
pub data AuthError : Type 0 where
  short_secret already_registered wrong_password bad_password : AuthError
  invalid_refresh_token inactive_user : AuthError
  token_expired invalid_token unknown_scope invalid_payload : AuthError

pub record TokenPayload : Type 0 where
  pub sub : Text
  pub exp : ℕ
  pub iat : ℕ
  pub iss : Text
  pub scope : Text

pub record AuthService : Type 0 where
  pub secret : Text
  pub issuer : Text
  pub user_store : InMemoryUserStore
  pub token_store : InMemoryTokenStore

-- The answer of `create_tokens`; `token_type` is always "bearer".
pub record TokenPair (Token : Type 0) : Type 0 where
  pub access_token : Token
  pub refresh_token : Text
  pub expires_in : ℕ

-- `email.strip().lower()`
unfoldable pub normalise : Hashing → Text → Text
normalise hashing email = hashing.lower (strip email)

-- `int(t.timestamp())`
abbrev pub timestamp : ℕ → ℕ
timestamp t = t / 1_000_000

-- The constructor, where the libraries are installed; `resolved` is the argument or else the
-- environment's NOMON_JWT_SECRET, empty where there is none.
unfoldable pub init :
    (resolved issuer : Text) → InMemoryUserStore → InMemoryTokenStore → Result AuthError AuthService
init resolved issuer users tokens =
    if ltb (length resolved) min_secret_length
    then raised short_secret
    else ok
        (record { secret = resolved; issuer = issuer; user_store = users; token_store = tokens })

unfoldable pub update_signing_secret :
    Text → AuthService → Result AuthError (Unit {0}) × AuthService
update_signing_secret secret s =
    if ltb (length secret) min_secret_length
    then (raised short_secret, s)
    else (ok tt, record s { secret = secret })
