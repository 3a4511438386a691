-- ===== src/RateLimit.antt =====
-- src/nomothetic/rate_limit.py: the sliding-window limiter, the address that it counts by, and the
-- dependencies that guard the routes. Clock values are whole ticks of `time.monotonic`, and
-- `ts > now - window` is written with the window on the other side, where ℕ has no loss.
pub mod Window
pub mod Isolation
mod Examples
use nomothetic.Base.{
  arith, ℕ, ◌+◌, ◌≡◌, Bool, true, false, ◌||◌, Option, none, some, List, [], ◌∷◌, ◌++◌, ltb, leb,
  length, keep, Result, ok, raised, if◌then◌else◌,
}
use nomothetic.Base.Text.{Text, text, text_eq, lower, strip, before}
use nomothetic.Base.Dict
use nomothetic.Base.Dict.{Dict, get-put}

-- `HTTPException(status_code=429)`, and the AttributeError of a limiter that was never set.
pub data HttpError : Type 0 where
  too_many_requests attribute_error : HttpError

pub record RateLimiter : Type 0 where
  pub max_requests : ℕ
  pub window_seconds : ℕ
  pub requests : Dict (List ℕ)

abbrev pub limiter : ℕ → ℕ → RateLimiter
limiter max_requests window_seconds = record {
  max_requests = max_requests;
  window_seconds = window_seconds;
  requests = [];
}

-- `self._requests[key]` of a `defaultdict(list)`, read
unfoldable pub times_of : Option (List ℕ) → List ℕ
times_of none = []
times_of (some times) = times

unfoldable pub stamps : RateLimiter → Text → List ℕ
unfolding times_of
stamps l key = times_of (Dict.get l.requests key)

-- `self._requests[key] = times`
unfoldable pub set_stamps : RateLimiter → Text → List ℕ → RateLimiter
set_stamps l key times = record l { requests = Dict.put l.requests key times }

pub stamps-set_stamps :
    (l : RateLimiter) (key other : Text) (times : List ℕ)
    → stamps (set_stamps l key times) other ≡ (if text_eq key other then times else stamps l other)
unfolding stamps set_stamps
stamps-set_stamps l key other times = simp get-put (ground arith)

-- `ts > now - window_seconds`
abbrev pub is_live : ℕ → ℕ → ℕ → Bool
is_live window now ts = ltb now (ts + window)

unfoldable pub clean_old : RateLimiter → Text → ℕ → RateLimiter
clean_old l key now = set_stamps l key (keep (is_live l.window_seconds now) (stamps l key))

unfoldable pub check : Text → ℕ → RateLimiter → Result HttpError (Unit {0}) × RateLimiter
check key now l =
    let l' = clean_old l key now in
    if leb l'.max_requests (length (stamps l' key))
    then (raised too_many_requests, l')
    else (ok tt, set_stamps l' key (stamps l' key ++ now ∷ []))

unfoldable pub reset : RateLimiter → RateLimiter
reset l = record l { requests = [] }

-- What `_client_ip` reads of a request: the forwarded header and the peer, where there is one.
pub record Request : Type 0 where
  pub forwarded_for : Option Text
  pub client_host : Option Text

direct_host : Option Text → Text
direct_host none = text "unknown"
direct_host (some host) = host

-- An empty header is falsy.
forwarded_host : Option Text → Text → Text
unfolding before strip
forwarded_host none direct = direct
forwarded_host (some []) direct = direct
forwarded_host (some (c ∷ header)) direct = strip (before b',' (c ∷ header))

-- `trust_proxy` is the text of NOMON_TRUST_PROXY.
unfoldable pub client_ip : Text → Request → Text
unfolding direct_host forwarded_host lower
client_ip trust_proxy request =
    let direct = direct_host request.client_host in
    if text_eq (lower trust_proxy) (text "1") || text_eq (lower trust_proxy) (text "true")
    then forwarded_host request.forwarded_for direct
    else direct

-- The limiters stand on `app.state`, an attribute each.
abbrev pub AppState : Type 0
AppState = Dict RateLimiter

abbrev pub Dependency : Type 0
Dependency = Text → Request → ℕ → AppState → Result HttpError (Unit {0}) × AppState

check_with : Text → Option RateLimiter → Result HttpError (Unit {0}) → Dependency
check_with attr none absent trust_proxy request now app = (absent, app)
check_with attr (some l) absent trust_proxy request now app =
    let (result, l') = check (client_ip trust_proxy request) now l in (result, Dict.put app attr l')

-- `request.app.state.<attr>`, which raises AttributeError where `create_app` set no such limiter.
unfoldable pub check_required : Text → Dependency
unfolding check_with
check_required attr trust_proxy request now app =
    check_with attr (Dict.get app attr) (raised attribute_error) trust_proxy request now app

-- `getattr(request.app.state, attr, None)`: a bare router is exempt.
unfoldable pub check_optional : Text → Dependency
unfolding check_with
check_optional attr trust_proxy request now app =
    check_with attr (Dict.get app attr) (ok tt) trust_proxy request now app

unfoldable pub login_rate_limit : Dependency
login_rate_limit = check_required (text "login_limiter")

unfoldable pub register_rate_limit : Dependency
register_rate_limit = check_required (text "register_limiter")

unfoldable pub pairing_rate_limit : Dependency
pairing_rate_limit = check_required (text "pairing_limiter")

unfoldable pub network_rate_limit : Dependency
network_rate_limit = check_required (text "network_limiter")

unfoldable pub ai_rate_limit : Dependency
ai_rate_limit = check_required (text "ai_limiter")

unfoldable pub refresh_rate_limit : Dependency
refresh_rate_limit = check_optional (text "refresh_limiter")

unfoldable pub events_rate_limit : Dependency
events_rate_limit = check_optional (text "events_limiter")

unfoldable pub identity_rate_limit : Dependency
identity_rate_limit = check_optional (text "identity_limiter")

unfoldable pub plugin_auth_rate_limit : Dependency
plugin_auth_rate_limit = check_required (text "plugin_auth_limiter")

unfoldable pub stt_rate_limit : Dependency
stt_rate_limit = check_required (text "stt_limiter")
