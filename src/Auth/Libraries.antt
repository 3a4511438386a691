-- ===== src/Auth/Libraries.antt =====
-- What auth.py calls: bcrypt, SHA-256 and the JSON Web Tokens of authlib, as parameters with the
-- documented behaviour that the program relies on.
use nomothetic.Base.{ℕ, all, leb, ◌≤◌, ◌≡◌, Bool, true, Option, some, Result, ok}
use nomothetic.Base.Text
use nomothetic.Base.Text.{Text}

-- `bcrypt.hashpw(password, salt)` and `bcrypt.checkpw`, with the ValueError that bcrypt raises for a
-- password of more than 72 bytes as none; `hashlib.sha256(...).hexdigest()`; and `str.lower`, which
-- stands on the Unicode tables.
pub record Hashing : Type 0 where
  pub hashpw : (password salt : Text) → Option Text
  pub checkpw : (password hashed : Text) → Option Bool
  pub sha256 : Text → Text
  pub lower : Text → Text
  -- A password checks against each of its hashes.
  pub checkpw-hashpw :
      (password salt hashed : Text)
      → hashpw password salt ≡ some hashed
      → checkpw password hashed ≡ some true
  -- Of ASCII text, the letters A to Z are lowered.
  pub lower-ascii : (s : Text) → all (λ c. leb c 127) s ≡ true → lower s ≡ Text.lower s

-- The claims of a token, each of which a token may lack.
pub record Claims : Type 0 where
  pub sub : Option Text
  pub exp : Option ℕ
  pub iat : Option ℕ
  pub iss : Option Text
  pub scope : Option Text
  pub aud : Option Text
  pub jti : Option Text

-- `ExpiredTokenError`, and every other `JoseError`.
pub data JoseError : Type 0 where
  expired_token other_jose_error : JoseError

pub record Jose (Token : Type 0) : Type 0 where
  -- `_authlib_jwt.encode(header, payload, secret)`
  pub encode : Claims → (secret : Text) → Token
  -- `_authlib_jwt.decode(token, secret, claims_options)` and `claims.validate()`, with the issuer
  -- required and the clock in seconds.
  pub decode : Token → (secret issuer : Text) (now : ℕ) → Result JoseError Claims
  -- What was signed with a secret is read back with it, from its issue to its expiry.
  pub decode-encode :
      (claims : Claims) (secret issuer : Text) (issued expires now : ℕ)
      → claims.iss ≡ some issuer
      → claims.iat ≡ some issued
      → claims.exp ≡ some expires
      → issued ≤ now
      → now ≤ expires
      → decode (encode claims secret) secret issuer now ≡ ok claims
