-- ===== src/Auth/Routes/Allowed.antt =====
-- The allow-list test of a plugin token decides an independent description of the allowed routes.
use nomothetic.Base.{
  ◌≡◌, refl, ◌∙◌, ap, true, false, ◌&&◌, List, [], ◌∷◌, ◌++◌, arith, All, length, drop, inl, inr,
  ◌⊎◌, ◌↔◌, Bool-cases,
}
use nomothetic.Base.Text.{
  Text, text, text_eq, text_eq_iff, text_eq_refl, starts_with, starts_with-append,
  starts_with-eq_true,
}
use nomothetic.Auth.Routes.{
  may_call, plugin_may_call, raw_io_routes, routines_prefix, plugin_allowed_routes, is_event_sink,
}
use nomothetic.Auth.Routes.Split.{IsEventSink, is_event_sink_complete, is_event_sink_sound}

-- The request is on one of the listed routes: its method, and a path below its prefix.
abbrev pub OnRoute : Text → Text → List (Text × Text) → Type 0
OnRoute method path [] = ⊥
OnRoute method path ((allowed, prefix) ∷ routes) =
    (method ≡ allowed) × ((rest : Text) × (path ≡ prefix ++ rest)) ⊎ OnRoute method path routes

-- The request reports an event of one routine.
abbrev pub OnEventSink : Text → Text → Type 0
OnEventSink method path =
    (method ≡ text "POST") × ((tail : Text) × (path ≡ routines_prefix ++ tail) × IsEventSink tail)

drop-length : (prefix rest : Text) → drop (length prefix) (prefix ++ rest) ≡ rest
drop-length [] rest = refl
drop-length (c ∷ prefix) rest = drop-length prefix rest

-- The raw routes have no prefix that is narrowed.
abbrev Plain : List (Text × Text) → Type 0
Plain = All (λ route. text_eq route.1 routines_prefix ≡ false)

module _ (method path : Text) where
  abbrev last_route : List (Text × Text)
  last_route = (text "POST", routines_prefix) ∷ []

  last_sound : may_call method path last_route ≡ true → OnEventSink method path
  unfolding may_call
  last_sound h =
      let post : text_eq method (text "POST") ≡ true = ground arith in
      let below : starts_with path routines_prefix ≡ true = ground arith in
      let (tail, spelled) = starts_with-eq_true path routines_prefix below in
      let sink : is_event_sink (drop (length routines_prefix) path) ≡ true =
        ground (arith, text_eq_refl routines_prefix) in
      let same : drop (length routines_prefix) path ≡ tail =
        ap (drop (length routines_prefix)) spelled ∙ drop-length routines_prefix tail in
      (
        (text_eq_iff method (text "POST")).0 post,
        (tail, spelled, is_event_sink_sound tail (rw same at sink)),
      )

  last_complete : OnEventSink method path → may_call method path last_route ≡ true
  unfolding may_call
  last_complete (post, (tail, spelled, sink)) =
      let same : drop (length routines_prefix) path ≡ tail =
        ap (drop (length routines_prefix)) spelled ∙ drop-length routines_prefix tail in
      let below : starts_with path routines_prefix ≡ true =
        rw spelled (starts_with-append routines_prefix tail) in
      ground (
        arith,
        (text_eq_iff method (text "POST")).1 post,
        below,
        same,
        is_event_sink_complete tail sink,
      )

  may_call_sound :
      (routes : List (Text × Text))
      → Plain routes
      → may_call method path (routes ++ last_route) ≡ true
      → OnRoute method path routes ⊎ OnEventSink method path
  unfolding may_call
  may_call_sound [] plain h = inr (last_sound h)
  may_call_sound ((allowed, prefix) ∷ routes) plain h =
      elim (Bool-cases (text_eq method allowed && starts_with path prefix)) [
        | inl here ↦ inl (
            inl (
              (text_eq_iff method allowed).0 (ground arith),
              starts_with-eq_true path prefix (ground arith),
            ))
        | inr elsewhere ↦ elim (may_call_sound routes plain.1 (ground (arith, elsewhere))) [
          | inl raw ↦ inl (inr raw)
          | inr sink ↦ inr sink
        ]
      ]

  may_call_complete :
      (routes : List (Text × Text))
      → Plain routes
      → OnRoute method path routes ⊎ OnEventSink method path
      → may_call method path (routes ++ last_route) ≡ true
  unfolding may_call
  may_call_complete [] plain (inr sink) = last_complete sink
  may_call_complete [] plain (inl none) = absurd none
  may_call_complete ((allowed, prefix) ∷ routes) plain (inl (inl (same, (rest, spelled)))) =
      let below : starts_with path prefix ≡ true = rw spelled (starts_with-append prefix rest) in
      ground (arith, (text_eq_iff method allowed).1 same, below, plain.0)
  may_call_complete ((allowed, prefix) ∷ routes) plain (inl (inr raw)) =
      ground (arith, may_call_complete routes plain.1 (inl raw), plain.0)
  may_call_complete ((allowed, prefix) ∷ routes) plain (inr sink) =
      ground (arith, may_call_complete routes plain.1 (inr sink), plain.0)

raw_io-Plain : Plain raw_io_routes
unfolding raw_io_routes routines_prefix text_eq
raw_io-Plain = (refl, (refl, (refl, (refl, (refl, (refl, (refl, (refl, tt))))))))

-- A plugin token may call a route exactly when the method and path are below one of the raw I/O
-- prefixes, or the request is a POST to the event sink of one routine: after the prefix of the
-- routines one non-empty name without a slash, then `/events`, then slashes only.
pub plugin_may_call_iff :
    (method path : Text)
    → (plugin_may_call method path ≡ true)
      ↔ (OnRoute method path raw_io_routes ⊎ OnEventSink method path)
unfolding plugin_may_call plugin_allowed_routes
plugin_may_call_iff method path = (
  may_call_sound method path raw_io_routes raw_io-Plain,
  may_call_complete method path raw_io_routes raw_io-Plain,
)
