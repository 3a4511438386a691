-- ===== src/RateLimit/Examples.antt =====
-- Small runs of the limiter.
use nomothetic.Base.{◌≤◌, ◌≡◌, refl, some, List, [], ◌∷◌, arith, length, keep, ltb, is_ok}
use nomothetic.Base.Text.{Text, text, text_eq}
use nomothetic.RateLimit.{
  Request, limiter, check, clean_old, stamps, set_stamps, client_ip, pairing_rate_limit,
  identity_rate_limit, AppState,
}
use nomothetic.RateLimit.Window.{
  Arrival, run, fresh, in_window, live_of, length-admitted-le, check-eq-ltb,
}
use nomothetic.RateLimit.Isolation.{flood, pairing_identity_independent}
use nomothetic.Base.Dict

abbrev a : Text
a = text "10.0.0.1"

abbrev b : Text
b = text "10.0.0.2"

abbrev burst : List Arrival
burst = (a, 0) ∷ (b, 1) ∷ (a, 2) ∷ (a, 3) ∷ []

-- The third request of `a` is rejected; the log has the latest first.
admitted-burst : (run (fresh 2 60) burst).admitted ≡ (a, 2) ∷ (b, 1) ∷ (a, 0) ∷ []
unfolding run check clean_old stamps set_stamps Dict.get Dict.put text_eq
admitted-burst = refl

length-admitted-le_example : length (keep (in_window 60 a 61) (run (fresh 2 60) burst).admitted) ≤ 2
length-admitted-le_example = length-admitted-le 2 60 0 burst (omega arith) a 61

-- At clock 60 the request of clock 0 has left the window.
check-eq-ltb_example :
    is_ok (check a 60 (run (fresh 2 60) burst).state).0
    ≡ ltb (length (keep (live_of 60 a 60) (run (fresh 2 60) burst).admitted)) 2
check-eq-ltb_example = check-eq-ltb 2 60 0 burst (omega arith) a 60 (omega arith)

abbrev from_proxy : Request
from_proxy = record { forwarded_for = some (text " 1.2.3.4 , 5.6.7.8"); client_host = some a }

client_ip-trusted : client_ip (text "TRUE") from_proxy ≡ text "1.2.3.4"
unfolding client_ip text_eq
client_ip-trusted = refl

client_ip-direct : client_ip (text "") from_proxy ≡ a
unfolding client_ip text_eq
client_ip-direct = refl

abbrev app : AppState
app = (text "pairing_limiter", limiter 3 60) ∷ (text "identity_limiter", limiter 1 60) ∷ []

pairing_identity_independent_example :
    ((identity_rate_limit
        (text "")
        from_proxy
        5
        (flood pairing_rate_limit (text "") ((from_proxy, 1) ∷ (from_proxy, 2) ∷ []) app)).0
      ≡ (identity_rate_limit (text "") from_proxy 5 app).0)
    × ((pairing_rate_limit
          (text "")
          from_proxy
          5
          (flood identity_rate_limit (text "") ((from_proxy, 1) ∷ (from_proxy, 2) ∷ []) app)).0
        ≡ (pairing_rate_limit (text "") from_proxy 5 app).0)
pairing_identity_independent_example =
    pairing_identity_independent (text "") ((from_proxy, 1) ∷ (from_proxy, 2) ∷ []) from_proxy 5 app
