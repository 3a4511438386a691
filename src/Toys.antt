-- ===== src/Toys.antt =====
-- Toy versions of the libraries, which the tests of several modules use.
use nomothetic.Base.{
  ℕ, refl, length, ◌≤◌, ◌≡◌, Bool, true, false, ◌&&◌, Option, none, some, arith, leb, Result, ok,
  raised, if◌then◌else◌, ◌++◌,
}
use nomothetic.Base.Text.{Text, lower, text_eq, text_eq_refl}
use nomothetic.Auth.Libraries.{Jose, JoseError, Claims, expired_token, other_jose_error, Hashing}
use nomothetic.PluginAuth.Keys.{KeyLibrary, ed25519}

-- A token is its claims beside the secret.
abbrev pub ToyToken : Type 0
ToyToken = Claims × Text

matches : Option Text → Text → Bool
matches none issuer = false
matches (some iss) issuer = text_eq iss issuer

lives : Option ℕ → ℕ → Bool
lives none now = true
lives (some exp) now = leb now exp

unfoldable pub toy_decode : ToyToken → Text → Text → ℕ → Result JoseError Claims
unfolding matches lives
toy_decode (claims, signed) secret issuer now =
    if text_eq signed secret && matches claims.iss issuer
    then if lives claims.exp now then ok claims else raised expired_token
    else raised other_jose_error

pub toy_decode-encode :
    (claims : Claims) (secret issuer : Text) (issued expires now : ℕ)
    → claims.iss ≡ some issuer
    → claims.iat ≡ some issued
    → claims.exp ≡ some expires
    → issued ≤ now
    → now ≤ expires
    → toy_decode (claims, secret) secret issuer now ≡ ok claims
unfolding toy_decode
toy_decode-encode claims secret issuer issued expires now p q r h k =
    ground (arith, p, r, k, text_eq_refl secret, text_eq_refl issuer)

abbrev pub toy_jose : Jose ToyToken
toy_jose = record {
  encode = λ claims secret. (claims, secret);
  decode = toy_decode;
  decode-encode = toy_decode-encode;
}

abbrev pub toy_keys : KeyLibrary Text
toy_keys = record {
  load_pem_public_key = λ pem. ed25519 pem;
  raw_pub = λ key. key;
  verify = λ key signature message. text_eq signature (key ++ message);
}

pub toy_checkpw-hashpw :
    (password salt hashed : Text)
    → (if leb (length password) 72 then some password else none) ≡ some hashed
    → (if leb (length password) 72 then some (text_eq password hashed) else none) ≡ some true
toy_checkpw-hashpw password salt hashed h = ground (arith, h, text_eq_refl password)

abbrev pub toy_hashing : Hashing
toy_hashing = record {
  hashpw = λ password salt. if leb (length password) 72 then some password else none;
  checkpw =
      λ password hashed. if leb (length password) 72 then some (text_eq password hashed) else none;
  sha256 = λ raw. raw;
  lower = lower;
  checkpw-hashpw = toy_checkpw-hashpw;
  lower-ascii = λ s ascii. refl;
}
