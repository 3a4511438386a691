-- ===== src/Auth/Routes.antt =====
-- What a plugin token may call: `PLUGIN_ALLOWED_ROUTES` and `_plugin_may_call` of
-- src/nomothetic/auth.py.
pub mod Split
pub mod Allowed
use nomothetic.Base.{
  ℕ, Bool, true, false, not, ◌&&◌, List, [], ◌∷◌, ◌++◌, length, drop, ◌==◌, if◌then◌else◌,
}
use nomothetic.Base.Text.{Text, text, text_eq, starts_with}

abbrev pub slash : ℕ
slash = b'/'

-- The routes but the last, and the last, which is narrowed to the event sink.
unfoldable pub raw_io_routes : List (Text × Text)
raw_io_routes =
    (text "GET", text "/api/sensor/")
    ∷ (text "GET", text "/api/hat/battery")
    ∷ (text "GET", text "/api/camera/frame")
    ∷ (text "POST", text "/api/drive")
    ∷ (text "POST", text "/api/steer")
    ∷ (text "POST", text "/api/hat/motor/stop")
    ∷ (text "POST", text "/api/camera/pan")
    ∷ (text "POST", text "/api/camera/tilt")
    ∷ []

unfoldable pub routines_prefix : Text
routines_prefix = text "/api/routines/"

unfoldable pub plugin_allowed_routes : List (Text × Text)
plugin_allowed_routes = raw_io_routes ++ (text "POST", routines_prefix) ∷ []

-- `s.split("/")`
cons_head : ℕ → List Text → List Text
cons_head c [] = (c ∷ []) ∷ []
cons_head c (part ∷ parts) = (c ∷ part) ∷ parts

unfoldable pub split : Text → List Text
unfolding cons_head
split [] = [] ∷ []
split (c ∷ s) = let parts = split s in if c == slash then [] ∷ parts else cons_head c parts

-- `s.rstrip("/")`
cons_unless_last : ℕ → Text → Text
cons_unless_last c [] = if c == slash then [] else c ∷ []
cons_unless_last c (d ∷ s) = c ∷ d ∷ s

unfoldable pub rstrip : Text → Text
unfolding cons_unless_last
rstrip [] = []
rstrip (c ∷ s) = cons_unless_last c (rstrip s)

-- `len(tail) == 2 and tail[1] == "events" and bool(tail[0])`
is_sink : List Text → Bool
is_sink ((c ∷ name) ∷ action ∷ []) = text_eq action (text "events")
is_sink _ = false

unfoldable pub is_event_sink : Text → Bool
unfolding is_sink split rstrip
is_event_sink tail = is_sink (split (rstrip tail))

unfoldable pub may_call : Text → Text → List (Text × Text) → Bool
unfolding is_event_sink
may_call method path [] = false
may_call method path ((allowed_method, prefix) ∷ routes) =
    let rest = may_call method path routes in
    if text_eq method allowed_method && starts_with path prefix
    then if text_eq prefix routines_prefix then is_event_sink (drop (length prefix) path) else true
    else rest

unfoldable pub plugin_may_call : Text → Text → Bool
unfolding may_call
plugin_may_call method path = may_call method path plugin_allowed_routes
