-- ===== src/Auth/Tokens/Scopes.antt =====
-- What a verified token says: the claims that were signed, and a scope that is never an upgrade.
use nomothetic.Base.{
  ℕ, ◌+◌, ◌≤◌, ◌≡◌, refl, none, some, ◌++◌, arith, ok, if◌then◌else◌, ◌⊎◌, inl, inr, Option-cases,
}
use nomothetic.Base.Text.{Text, text_eq, text_eq_iff, starts_with}
use nomothetic.Auth.{
  AuthService, TokenPayload, access_token_ttl, scope_owner, scope_plugin, plugin_sub_prefix,
  timestamp,
}
use nomothetic.Auth.Libraries.{Jose, Claims}
use nomothetic.Auth.Tokens.{
  create_access_token, create_plugin_token, verify_token, access_claims, plugin_claims,
}

module _ {Token : Type 0} (jose : Jose Token) where
  pub verify_token-create_plugin_token :
      (name : Text) (ttl now later : ℕ) (s : AuthService)
      → now ≤ later
      → later ≤ now + ttl
      → verify_token jose (create_plugin_token jose name ttl now s) later s
        ≡ ok (record {
          sub = plugin_sub_prefix ++ name;
          exp = timestamp (now + ttl);
          iat = timestamp now;
          iss = s.issuer;
          scope = scope_plugin;
        })
  unfolding verify_token create_plugin_token text_eq
  verify_token-create_plugin_token name ttl now later s h k = rw (
      jose.decode-encode (plugin_claims s name ttl now) s.secret s.issuer (timestamp now)
        (timestamp (now + ttl)) (timestamp later) refl refl refl (omega arith) (omega arith))

  pub verify_token-create_access_token :
      (email : Text) (now later : ℕ) (s : AuthService)
      → now ≤ later
      → later ≤ now + access_token_ttl
      → verify_token jose (create_access_token jose email now s) later s
        ≡ ok (record {
          sub = email;
          exp = timestamp (now + access_token_ttl);
          iat = timestamp now;
          iss = s.issuer;
          scope = scope_owner;
        })
  unfolding verify_token create_access_token text_eq
  verify_token-create_access_token email now later s h k = rw (
      jose.decode-encode (access_claims s email now) s.secret s.issuer (timestamp now)
        (timestamp (now + access_token_ttl)) (timestamp later) refl refl refl (omega arith)
        (omega arith))

  -- The scope of an accepted token is the one that it declares, owner or plugin. Where it declares
  -- none, the subject decides: `plugin:` before it makes the scope plugin, and never owner.
  pub verify_token-scope :
      (token : Token) (now : ℕ) (s : AuthService) (claims : Claims) (payload : TokenPayload)
      → jose.decode token s.secret s.issuer (timestamp now) ≡ ok claims
      → verify_token jose token now s ≡ ok payload
      → (claims.scope ≡ some payload.scope)
          × ((payload.scope ≡ scope_owner) ⊎ (payload.scope ≡ scope_plugin))
        ⊎ (claims.scope ≡ none)
          × (payload.scope
              ≡ (if starts_with payload.sub plugin_sub_prefix then scope_plugin else scope_owner))
  unfolding verify_token
  verify_token-scope token now s claims payload decoded verified =
      elim (Option-cases claims.scope) [
        | inl absent ↦ inr (absent, ground (arith, decoded, absent))
        | inr (scope, declared) ↦ inl (
          ground (arith, decoded, declared),
          ground (
            arith,
            decoded,
            declared,
            text_eq_iff scope scope_owner,
            text_eq_iff scope scope_plugin,
          ),
        )
      ]
