-- ===== src/AiCommand/Bounded.antt =====
-- What a command can make the robot do, and that it ends with a result.
use nomothetic.Base.{
  ℕ, ◌*◌, ◌≤◌, ◌≡◌, refl, Bool, true, false, Option, none, some, [], ◌∷◌, arith, if◌then◌else◌, inl,
  inr, Bool-cases,
}
use mathlib.Core.Path.{sym, subst, ◌∙◌}
use nomothetic.Base.Text.{Text, text}
use nomothetic.Base.Dict
use nomothetic.Base.Dict.{Dict}
use nomothetic.AiCommand.{
  Number, one, Call, stop_all_motors, list_routines, stop_all_routines, start_routine, stop_routine,
  drive, steer, pan_camera, tilt_camera, reads, Tool, stop, drive_tool, steer_tool, pan_tool,
  tilt_tool, list_routines_tool, start_tool, stop_tool, stop_all_tool, reader, is_speed, is_angle,
  is_ttl, FieldReader, call_of, only_keys, move_args, no_args, read_with, passing, ttl_field, both,
  routine_field, params_field, start_with, default_ttl,
}

-- A move is within the bounds of the manual controls, and its lease is between a tenth of a second and
-- five seconds.
abbrev pub IsLease : ℕ → Type 0
IsLease ttl = (100 ≤ ttl) × (ttl ≤ 5000)

-- From 0 to 180 degrees.
abbrev pub IsAngle : Number → Type 0
IsAngle angle = (angle.negative ≡ true → angle.magnitude ≡ 0) × (angle.magnitude ≤ 180 * one)

is_angle-IsAngle : (n : Number) → is_angle n ≡ true → IsAngle n
is_angle-IsAngle n h = (λ negative. ground (arith, h, negative), ground (arith, h))

module _ {Json : Type 0} where
  abbrev pub IsInBounds : Call Json → Type 0
  IsInBounds (drive speed ttl) = (speed.magnitude ≤ 100 * one) × IsLease ttl
  IsInBounds (steer angle ttl) = IsAngle angle × IsLease ttl
  IsInBounds (pan_camera angle ttl) = IsAngle angle × IsLease ttl
  IsInBounds (tilt_camera angle ttl) = IsAngle angle × IsLease ttl
  IsInBounds _ = Unit

module _ {Json : Type 0} (reads_field : FieldReader Json) where
  passing-some :
      (test : Number → Bool) (read : Option Number) (n : Number)
      → passing reads_field test read ≡ some n
      → test n ≡ true
  unfolding passing
  passing-some test none n h = absurd (ground (arith, h))
  passing-some test (some m) n h = elim (Bool-cases (test m)) [
    | inl passes ↦
        let e : some m ≡ some n = sym (rw passes refl) ∙ h in
        subst (λ x. test x ≡ true) (let f : m ≡ n = cc in f) passes
    | inr fails ↦ absurd (ground (arith, rw fails at h))
  ]

  ttl_field-some :
      (value : Option Json) (ttl : ℕ) → ttl_field reads_field value ≡ some ttl → IsLease ttl
  unfolding ttl_field
  ttl_field-some none ttl h = let e : default_ttl ≡ ttl = cc in (omega (e, arith), omega (e, arith))
  ttl_field-some (some value) ttl h =
      go (passing reads_field is_ttl (reads_field.as_int value)) refl h
    where
      go :
          (read : Option Number)
          → passing reads_field is_ttl (reads_field.as_int value) ≡ read
          → elim read as (λ x. Option ℕ) [ none ↦ none | some n ↦ some n.magnitude ] ≡ some ttl
          → IsLease ttl
      go none p q = absurd (ground (arith, q))
      go (some n) p q =
          let passes = passing-some is_ttl (reads_field.as_int value) n p in
          let e : n.magnitude ≡ ttl = cc in ground (arith, passes, e)

  -- A move that its arguments describe.
  both-IsInBounds :
      (call : Number → ℕ → Call Json) (value : Option Number) (ttl : Option ℕ) (made : Call Json)
      → ((n : Number) (t : ℕ) → value ≡ some n → ttl ≡ some t → IsInBounds (call n t))
      → both reads_field call value ttl ≡ some made
      → IsInBounds made
  unfolding both
  both-IsInBounds call none ttl made h e = absurd (ground (arith, e))
  both-IsInBounds call (some n) none made h e = absurd (ground (arith, e))
  both-IsInBounds call (some n) (some t) made h e =
      subst IsInBounds (let f : call n t ≡ made = cc in f) (h n t refl refl)

  move_args-IsInBounds :
      (field : Text) (test : Number → Bool) (call : Number → ℕ → Call Json) (input : Dict Json)
      (made : Call Json)
      → ((n : Number) (t : ℕ) → test n ≡ true → IsLease t → IsInBounds (call n t))
      → move_args reads_field field test call input ≡ some made
      → IsInBounds made
  unfolding move_args
  move_args-IsInBounds field test call input made h e =
      let value = read_with reads_field reads_field.as_float (Dict.get input field) in
      let ttl = Dict.get input (text "ttl_ms") in
      elim (Bool-cases (only_keys (field ∷ text "ttl_ms" ∷ []) input)) [
        | inl fits ↦
            both-IsInBounds call (passing reads_field test value) (ttl_field reads_field ttl) made
              (λ n t p q. h n t (passing-some test value n p) (ttl_field-some ttl t q))
              (rw fits at e)
        | inr bad ↦ absurd (ground (arith, rw bad at e))
      ]

  no_args-IsInBounds :
      (call made : Call Json) (input : Dict Json)
      → IsInBounds call
      → no_args reads_field call input ≡ some made
      → IsInBounds made
  unfolding no_args
  no_args-IsInBounds call made [] h e = subst IsInBounds (let f : call ≡ made = cc in f) h
  no_args-IsInBounds call made (field ∷ input) h e = absurd (ground (arith, e))

  start_with-IsInBounds :
      (name : Option Text) (params : Option (Dict Json)) (made : Call Json)
      → start_with reads_field name params ≡ some made
      → IsInBounds made
  unfolding start_with
  start_with-IsInBounds none params made e = absurd (ground (arith, e))
  start_with-IsInBounds (some name) none made e = absurd (ground (arith, e))
  start_with-IsInBounds (some name) (some params) made e =
      subst IsInBounds (let f : start_routine name params ≡ made = cc in f) tt

  if_some :
      (b : Bool) (x : Option (Call Json)) (made : Call Json)
      → (if b then x else none) ≡ some made
      → x ≡ some made
  if_some true x made h = h
  if_some false x made h = absurd (ground (arith, h))

  stop_with-IsInBounds :
      (name : Option Text) (made : Call Json)
      → elim name as (λ x. Option (Call Json)) [
        | none ↦ none
        | some name' ↦ some (stop_routine name')
      ]
        ≡ some made
      → IsInBounds made
  stop_with-IsInBounds none made e = absurd (ground (arith, e))
  stop_with-IsInBounds (some name) made e =
      subst IsInBounds (let f : stop_routine name ≡ made = cc in f) tt

  -- Whatever arguments pass, the call is in bounds.
  pub call_of-IsInBounds :
      (tool : Tool) (input : Dict Json) (made : Call Json)
      → call_of reads_field tool input ≡ some made
      → IsInBounds made
  unfolding call_of
  call_of-IsInBounds stop input made e = no_args-IsInBounds stop_all_motors made input tt e
  call_of-IsInBounds drive_tool input made e =
      move_args-IsInBounds (text "speed_pct") is_speed drive input made
        (λ n t p q. (ground (arith, p), q)) e
  call_of-IsInBounds steer_tool input made e =
      move_args-IsInBounds (text "angle_deg") is_angle steer input made
        (λ n t p q. (is_angle-IsAngle n p, q)) e
  call_of-IsInBounds pan_tool input made e =
      move_args-IsInBounds (text "angle_deg") is_angle pan_camera input made
        (λ n t p q. (is_angle-IsAngle n p, q)) e
  call_of-IsInBounds tilt_tool input made e =
      move_args-IsInBounds (text "angle_deg") is_angle tilt_camera input made
        (λ n t p q. (is_angle-IsAngle n p, q)) e
  call_of-IsInBounds (reader method) input made e =
      no_args-IsInBounds (reads method) made input tt e
  call_of-IsInBounds list_routines_tool input made e =
      no_args-IsInBounds list_routines made input tt e
  call_of-IsInBounds start_tool input made e =
      start_with-IsInBounds (routine_field reads_field (Dict.get input (text "routine")))
        (params_field reads_field (Dict.get input (text "params"))) made
        (if_some (only_keys (text "routine" ∷ text "params" ∷ []) input)
          (start_with reads_field (routine_field reads_field (Dict.get input (text "routine")))
            (params_field reads_field (Dict.get input (text "params"))))
          made e)
  call_of-IsInBounds stop_tool input made e =
      stop_with-IsInBounds (routine_field reads_field (Dict.get input (text "routine"))) made (
        if_some (only_keys (text "routine" ∷ []) input)
          (elim (routine_field reads_field (Dict.get input (text "routine")))
            as (λ x. Option (Call Json)) [ none ↦ none | some name' ↦ some (stop_routine name') ])
          made e)
  call_of-IsInBounds stop_all_tool input made e =
      no_args-IsInBounds stop_all_routines made input tt e
