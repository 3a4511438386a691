-- ===== src/PluginAuth/Challenges.antt =====
-- `ChallengeStore`: nonces that a plugin signs once. Clock values are whole ticks; the nonce that
-- `secrets.token_urlsafe` draws is an argument.
pub mod Bounded
pub mod SingleUse
use nomothetic.Base.{
  ℕ, ◌+◌, ◌*◌, Bool, true, false, not, Option, none, some, List, [], ◌∷◌, length, ltb, leb, Result,
  ok, raised, if◌then◌else◌,
}
use nomothetic.Base.Text.{Text}
use nomothetic.Files.{PythonError}
use nomothetic.Pairing.{compare_digest}
use nomothetic.Base.Dict
use nomothetic.Base.Dict.{Dict}

pub record Challenge : Type 0 where
  pub plugin : Text
  pub expires_at : ℕ

pub record ChallengeStore : Type 0 where
  pub ttl : ℕ
  pub max : ℕ
  pub pending : Dict Challenge

-- `min` of an empty dict raises ValueError.
pub data ValueError : Type 0 where
  empty_min : ValueError

abbrev pub default_store : ChallengeStore
default_store = record { ttl = 30 * 1_000_000; max = 256; pending = [] }

-- `now > expires_at`
abbrev pub is_expired : ℕ → Text → Challenge → Bool
is_expired now nonce c = ltb c.expires_at now

unfoldable pub sweep : ℕ → Dict Challenge → Dict Challenge
sweep now pending = Dict.retain (λ nonce c. not (is_expired now nonce c)) pending

-- `min(d, key=...)` over the rest of a dict: the first key with the least expiry.
unfoldable pub oldest_of : Text → ℕ → Dict Challenge → Text
oldest_of best expiry [] = best
oldest_of best expiry ((nonce, c) ∷ rest) =
    let earlier = ltb c.expires_at expiry in
    oldest_of (if earlier then nonce else best) (if earlier then c.expires_at else expiry) rest

-- Evicts the entry that expires the soonest.
evict : Dict Challenge → Result ValueError (Dict Challenge)
unfolding oldest_of
evict [] = raised empty_min
evict ((nonce, c) ∷ rest) = ok (Dict.remove ((nonce, c) ∷ rest) (oldest_of nonce c.expires_at rest))

unfoldable pub make_room : ℕ → Dict Challenge → Result ValueError (Dict Challenge)
unfolding evict
make_room max pending = if leb max (length pending) then evict pending else ok pending

add :
    Text
    → Text
    → ℕ
    → ChallengeStore
    → Result ValueError (Dict Challenge)
    → Result ValueError (Text × ℕ) × ChallengeStore
add plugin nonce now s (raised e) = (raised e, s)
add plugin nonce now s (ok pending) = (
  ok (nonce, s.ttl),
  record s {
    pending = Dict.put pending nonce (record { plugin = plugin; expires_at = now + s.ttl });
  },
)

unfoldable pub issue :
    (plugin nonce : Text) (now : ℕ) → ChallengeStore → Result ValueError (Text × ℕ) × ChallengeStore
unfolding add
issue plugin nonce now s =
    let swept = sweep now s.pending in
    add plugin nonce now (record s { pending = swept }) (make_room s.max swept)

-- The comparison raises TypeError for a name that is not ASCII.
accepts : Text → ℕ → Option Challenge → Result PythonError Bool
accepts plugin now none = ok false
accepts plugin now (some c) =
    if ltb c.expires_at now then ok false else compare_digest c.plugin plugin

unfoldable pub consume :
    (plugin nonce : Text) (now : ℕ) → ChallengeStore → Result PythonError Bool × ChallengeStore
unfolding accepts
consume plugin nonce now s = (
  accepts plugin now (Dict.get s.pending nonce),
  record s { pending = Dict.remove s.pending nonce },
)
