-- ===== src/TokenStore.antt =====
-- src/nomothetic/token_store.py: the in-memory refresh token store. A clock value is a number of
-- microseconds. A loop of `del self._tokens[h]` over the keys that a comprehension selected keeps
-- the entries for which the test fails.
use nomothetic.Base.{ℕ, Bool, not, Option, none, some, leb, length, is_some, if◌then◌else◌}
use nomothetic.Base.Text.{Text, text_eq}
use nomothetic.Base.Dict
use nomothetic.Base.Dict.{Dict}

-- An entry of `_tokens`, whose key is the token's hash.
pub record StoredToken : Type 0 where
  pub email : Text
  pub expires_at : ℕ

abbrev pub InMemoryTokenStore : Type 0
InMemoryTokenStore = Dict StoredToken

unfoldable pub store_token : Text → Text → ℕ → InMemoryTokenStore → InMemoryTokenStore
store_token token_hash email expires_at tokens =
    Dict.put tokens token_hash (record { email = email; expires_at = expires_at })

-- The branch on the entry that was found; an expired one is dropped.
lookup_entry : Text → ℕ → Option StoredToken → InMemoryTokenStore → Option Text × InMemoryTokenStore
lookup_entry token_hash now none tokens = (none, tokens)
lookup_entry token_hash now (some entry) tokens =
    if leb entry.expires_at now
    then (none, Dict.remove tokens token_hash)
    else (some entry.email, tokens)

unfoldable pub get_email : Text → ℕ → InMemoryTokenStore → Option Text × InMemoryTokenStore
unfolding lookup_entry
get_email token_hash now tokens = lookup_entry token_hash now (Dict.get tokens token_hash) tokens

unfoldable pub delete_token : Text → InMemoryTokenStore → Bool × InMemoryTokenStore
delete_token token_hash tokens =
    (is_some (Dict.get tokens token_hash), Dict.remove tokens token_hash)

abbrev pub belongs_to : Text → Text → StoredToken → Bool
belongs_to email token_hash entry = text_eq entry.email email

unfoldable pub delete_tokens_for_user : Text → InMemoryTokenStore → ℕ × InMemoryTokenStore
delete_tokens_for_user email tokens = (
  length (Dict.retain (belongs_to email) tokens),
  Dict.retain (λ h entry. not (belongs_to email h entry)) tokens,
)

abbrev pub is_expired : ℕ → Text → StoredToken → Bool
is_expired now token_hash entry = leb entry.expires_at now

unfoldable pub cleanup_expired : ℕ → InMemoryTokenStore → ℕ × InMemoryTokenStore
cleanup_expired now tokens = (
  length (Dict.retain (is_expired now) tokens),
  Dict.retain (λ h entry. not (is_expired now h entry)) tokens,
)
