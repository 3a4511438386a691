-- ===== src/Auth/Tokens.antt =====
-- The JSON Web Tokens of `AuthService` (src/nomothetic/auth.py). Claims hold whole seconds.
pub mod Scopes
use nomothetic.Base.{
  ℕ, ◌+◌, ◌*◌, ◌/◌, Bool, true, false, ◌||◌, Option, none, some, ◌++◌, Result, ok, raised,
  if◌then◌else◌,
}
use nomothetic.Base.Text.{Text, text, text_eq, starts_with}
use nomothetic.Auth.{
  AuthService, AuthError, TokenPayload, access_token_ttl, scope_owner, scope_plugin,
  plugin_sub_prefix, timestamp, token_expired, invalid_token, unknown_scope, invalid_payload,
}
use nomothetic.Auth.Libraries.{Jose, JoseError, Claims, expired_token, other_jose_error}

abbrev pub access_claims : AuthService → Text → ℕ → Claims
access_claims s email now = record {
  sub = some email;
  iat = some (timestamp now);
  exp = some (timestamp (now + access_token_ttl));
  iss = some s.issuer;
  scope = some scope_owner;
  aud = none;
  jti = none;
}

abbrev pub plugin_claims : AuthService → Text → ℕ → ℕ → Claims
plugin_claims s plugin_name ttl now = record {
  sub = some (plugin_sub_prefix ++ plugin_name);
  iat = some (timestamp now);
  exp = some (timestamp (now + ttl));
  iss = some s.issuer;
  scope = some scope_plugin;
  aud = none;
  jti = none;
}

abbrev pub proof_claims : AuthService → Text → ℕ → Text → ℕ → Claims
proof_claims s vin ttl_seconds uuid now = record {
  sub = some vin;
  iat = some (timestamp now);
  exp = some (timestamp (now + ttl_seconds * 1_000_000));
  iss = some s.issuer;
  scope = none;
  aud = some (text "nomon-fleet");
  jti = some uuid;
}

-- Tokens minted before the scope claim existed: `str(data.get("sub", ""))` decides.
abbrev pub inferred_scope : Option Text → Text
inferred_scope none = scope_owner
inferred_scope (some sub) = if starts_with sub plugin_sub_prefix then scope_plugin else scope_owner

read_scope : Claims → Option Text → Result AuthError Text
read_scope claims none = ok (inferred_scope claims.sub)
read_scope claims (some scope) =
    if text_eq scope scope_owner || text_eq scope scope_plugin
    then ok scope
    else raised unknown_scope

-- `TokenPayload(**data)`: a missing field is a ValidationError, which is a ValueError.
make_payload :
    Option Text → Option ℕ → Option ℕ → Option Text → Text → Result AuthError TokenPayload
make_payload (some sub) (some exp) (some iat) (some iss) scope =
    ok (record { sub = sub; exp = exp; iat = iat; iss = iss; scope = scope })
make_payload _ _ _ _ scope = raised invalid_payload

with_scope : Claims → Result AuthError Text → Result AuthError TokenPayload
with_scope claims (ok scope) = make_payload claims.sub claims.exp claims.iat claims.iss scope
with_scope claims (raised e) = raised e

unfoldable pub read_claims : Result JoseError Claims → Result AuthError TokenPayload
unfolding read_scope make_payload with_scope
read_claims (raised expired_token) = raised token_expired
read_claims (raised other_jose_error) = raised invalid_token
read_claims (ok claims) = with_scope claims (read_scope claims claims.scope)

module _ {Token : Type 0} (jose : Jose Token) where
  unfoldable pub create_access_token : Text → ℕ → AuthService → Token
  create_access_token email now s = jose.encode (access_claims s email now) s.secret

  unfoldable pub create_plugin_token : Text → (ttl now : ℕ) → AuthService → Token
  create_plugin_token plugin_name ttl now s =
      jose.encode (plugin_claims s plugin_name ttl now) s.secret

  unfoldable pub create_registration_proof :
      Text → (ttl_seconds : ℕ) → Text → ℕ → AuthService → Token
  create_registration_proof vin ttl_seconds uuid now s =
      jose.encode (proof_claims s vin ttl_seconds uuid now) s.secret

  unfoldable pub verify_token : Token → ℕ → AuthService → Result AuthError TokenPayload
  unfolding read_claims
  verify_token token now s = read_claims (jose.decode token s.secret s.issuer (timestamp now))
