-- ===== src/RateLimit/Isolation.antt =====
-- Each dependency counts on a limiter of its own.
use nomothetic.Base.{ℕ, ◌≡◌, refl, ◌∙◌, false, Option, none, some, List, [], ◌∷◌, Result}
use nomothetic.Base.Text.{Text, text, text_eq}
use nomothetic.Base.Dict
use nomothetic.Base.Dict.{get-put}
use nomothetic.RateLimit.{
  HttpError, RateLimiter, Request, AppState, Dependency, check_with, check_required, check_optional,
  pairing_rate_limit, identity_rate_limit,
}

-- A series of requests to one route.
unfoldable pub flood : Dependency → Text → List (Request × ℕ) → AppState → AppState
flood route trust_proxy [] app = app
flood route trust_proxy ((request, now) ∷ rest) app =
    flood route trust_proxy rest (route trust_proxy request now app).1

get-check_with :
    (attr other : Text) (l : Option RateLimiter) (absent : Result HttpError (Unit {0}))
    (trust_proxy : Text) (request : Request) (now : ℕ) (app : AppState)
    → text_eq attr other ≡ false
    → Dict.get (check_with attr l absent trust_proxy request now app).1 other ≡ Dict.get app other
unfolding check_with
get-check_with attr other none absent trust_proxy request now app h = refl
get-check_with attr other (some l) absent trust_proxy request now app h = simp (get-put, h)

-- An answer depends on the route's own limiter alone.
module _ (attr trust_proxy : Text) (request : Request) (now : ℕ) (app app' : AppState) where
  answer-check_with :
      (l : Option RateLimiter) (absent : Result HttpError (Unit {0}))
      → (check_with attr l absent trust_proxy request now app).0
        ≡ (check_with attr l absent trust_proxy request now app').0
  unfolding check_with
  answer-check_with none absent = refl
  answer-check_with (some l) absent = refl

  answer-check_required :
      Dict.get app attr ≡ Dict.get app' attr
      → (check_required attr trust_proxy request now app).0
        ≡ (check_required attr trust_proxy request now app').0
  unfolding check_required
  answer-check_required h = rw h (answer-check_with (Dict.get app' attr) _)

  answer-check_optional :
      Dict.get app attr ≡ Dict.get app' attr
      → (check_optional attr trust_proxy request now app).0
        ≡ (check_optional attr trust_proxy request now app').0
  unfolding check_optional
  answer-check_optional h = rw h (answer-check_with (Dict.get app' attr) _)

-- A route changes no limiter but its own.
abbrev Leaves : Text → Dependency → Type 0
Leaves other route =
    (trust_proxy : Text) (request : Request) (now : ℕ) (app : AppState)
    → Dict.get (route trust_proxy request now app).1 other ≡ Dict.get app other

get-flood :
    (route : Dependency) (other trust_proxy : Text) (requests : List (Request × ℕ)) (app : AppState)
    → Leaves other route
    → Dict.get (flood route trust_proxy requests app) other ≡ Dict.get app other
unfolding flood
get-flood route other trust_proxy [] app h = refl
get-flood route other trust_proxy ((request, now) ∷ rest) app h =
    get-flood route other trust_proxy rest (route trust_proxy request now app).1 h
    ∙ h trust_proxy request now app

pairing-Leaves : Leaves (text "identity_limiter") pairing_rate_limit
unfolding pairing_rate_limit check_required text_eq
pairing-Leaves trust_proxy request now app =
    get-check_with (text "pairing_limiter") (text "identity_limiter")
      (Dict.get app (text "pairing_limiter")) _ trust_proxy request now app refl

identity-Leaves : Leaves (text "pairing_limiter") identity_rate_limit
unfolding identity_rate_limit check_optional text_eq
identity-Leaves trust_proxy request now app =
    get-check_with (text "identity_limiter") (text "pairing_limiter")
      (Dict.get app (text "identity_limiter")) _ trust_proxy request now app refl

-- However many requests were made to one of the two routes, with whatever outcomes, the answer of
-- the other is the one that it gives without them: pairing attempts cannot starve the identity
-- endpoint of its budget, nor identity requests the pairing endpoint.
pub pairing_identity_independent :
    (trust_proxy : Text) (requests : List (Request × ℕ)) (request : Request) (now : ℕ)
    (app : AppState)
    → ((identity_rate_limit trust_proxy request now
          (flood pairing_rate_limit trust_proxy requests app)).0
        ≡ (identity_rate_limit trust_proxy request now app).0)
      × ((pairing_rate_limit trust_proxy request now
            (flood identity_rate_limit trust_proxy requests app)).0
          ≡ (pairing_rate_limit trust_proxy request now app).0)
unfolding pairing_rate_limit identity_rate_limit
pairing_identity_independent trust_proxy requests request now app = (
  answer-check_optional (text "identity_limiter") trust_proxy request now _ app (
      get-flood pairing_rate_limit (text "identity_limiter") trust_proxy requests app
        pairing-Leaves),
  answer-check_required (text "pairing_limiter") trust_proxy request now _ app (
      get-flood identity_rate_limit (text "pairing_limiter") trust_proxy requests app
        identity-Leaves),
)
