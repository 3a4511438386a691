-- ===== src/Auth/Guards/Confinement.antt =====
-- A plugin token is confined to its routes, and an owner token is not.
use nomothetic.Base.{ℕ, ◌+◌, ◌≤◌, ◌≡◌, refl, some, ◌++◌, arith, ok, raised, if◌then◌else◌}
use nomothetic.Base.Text.{Text, text_eq}
use nomothetic.Auth.{
  AuthService, TokenPayload, access_token_ttl, scope_owner, scope_plugin, plugin_sub_prefix,
  timestamp,
}
use nomothetic.Auth.Libraries.{Jose}
use nomothetic.Auth.Routes.{plugin_may_call}
use nomothetic.Auth.Tokens.{create_plugin_token, create_access_token}
use nomothetic.Auth.Tokens.Scopes.{
  verify_token-create_plugin_token, verify_token-create_access_token,
}
use nomothetic.Auth.Guards.{
  forbidden, jwt_required, Contact, device_jwt_required, owner_required, after_jwt_device,
  after_jwt_owner, record_owner_contact,
}

abbrev pub plugin_payload : Text → (ttl now : ℕ) → AuthService → TokenPayload
plugin_payload name ttl now s = record {
  sub = plugin_sub_prefix ++ name;
  exp = timestamp (now + ttl);
  iat = timestamp now;
  iss = s.issuer;
  scope = scope_plugin;
}

abbrev pub owner_payload : Text → (now : ℕ) → AuthService → TokenPayload
owner_payload email now s = record {
  sub = email;
  exp = timestamp (now + access_token_ttl);
  iat = timestamp now;
  iss = s.issuer;
  scope = scope_owner;
}

module _ {Token : Type 0} (jose : Jose Token) (method path : Text) (s : AuthService)
    (now later clock : ℕ) (contact : Contact) where
  -- A plugin token that this service issued, within its lifetime: a device route answers 403 unless
  -- the plugin may call it, and then sees the plugin's claims; an owner route always answers 403;
  -- and neither counts as a contact of the owner.
  pub plugin_token_confined :
      (name : Text) (ttl : ℕ)
      → now ≤ later
      → later ≤ now + ttl
      → (after_jwt_device method path clock
            (jwt_required jose (some s) (some (create_plugin_token jose name ttl now s)) later)
            contact
          ≡ (
            (if plugin_may_call method path
                then ok (plugin_payload name ttl now s)
                else raised forbidden),
            contact,
          ))
        × (after_jwt_owner
              (jwt_required jose (some s) (some (create_plugin_token jose name ttl now s)) later)
            ≡ raised forbidden)
  unfolding jwt_required after_jwt_device after_jwt_owner device_jwt_required owner_required text_eq
  plugin_token_confined name ttl h k =
      rw (verify_token-create_plugin_token jose name ttl now later s h k) (ground arith, refl)

  -- An access token that this service issued, within its lifetime, passes every device and owner
  -- route with the owner's claims, and a device route notes the contact.
  pub access_token_unconfined :
      (email : Text)
      → now ≤ later
      → later ≤ now + access_token_ttl
      → (after_jwt_device method path clock
            (jwt_required jose (some s) (some (create_access_token jose email now s)) later)
            contact
          ≡ (ok (owner_payload email now s), some clock))
        × (after_jwt_owner
              (jwt_required jose (some s) (some (create_access_token jose email now s)) later)
            ≡ ok (owner_payload email now s))
  unfolding jwt_required after_jwt_device after_jwt_owner device_jwt_required owner_required text_eq
      record_owner_contact
  access_token_unconfined email h k =
      rw (verify_token-create_access_token jose email now later s h k) (refl, refl)
