-- ===== src/AiCommand.antt =====
-- src/nomothetic/ai_command.py: the tools that a chat command may use, and the loop between the model
-- and the tools. `Json` is the type of JSON values. A number is a count of the smallest steps of a
-- float, 2 ^ -1074, with its sign, so that every finite float is one.
pub mod Loop
pub mod Bounded
pub mod Keys
pub mod Confined
pub mod Returns
mod Examples
use nomothetic.Base.{
  ℕ, ◌+◌, ◌*◌, ◌^◌, ◌≤◌, Bool, true, false, not, ◌&&◌, ◌||◌, ◌==◌, Option, none, some, List, [],
  ◌∷◌, length, leb, map, Result, ok, raised, if◌then◌else◌,
}
use nomothetic.Base.Text.{Text, text, text_eq}
use nomothetic.Base.Dict
use nomothetic.Base.Dict.{Dict}

pub record Number : Type 0 where
  pub negative : Bool
  pub magnitude : ℕ

-- The steps in 1.0.
abbrev pub one : ℕ
one = 2 ^ 1074

-- How pydantic reads a field: none where it refuses the value, or the number is not finite, which no
-- bound lets pass.
pub record FieldReader (Json : Type 0) : Type 0 where
  pub as_float : Json → Option Number
  pub as_int : Json → Option Number
  pub as_text : Json → Option Text
  pub as_dict : Json → Option (Dict Json)

-- What a tool asks of the robot.
pub data Call (Json : Type 0) : Type 0 where
  stop_all_motors list_routines stop_all_routines : Call Json
  drive steer pan_camera tilt_camera : (value : Number) (ttl_ms : ℕ) → Call Json
  reads : (method : Text) → Call Json
  start_routine : (routine : Text) → Dict Json → Call Json
  stop_routine : (routine : Text) → Call Json

-- The registered tools.
pub data Tool : Type 0 where
  stop drive_tool steer_tool pan_tool tilt_tool list_routines_tool start_tool stop_tool
        stop_all_tool :
      Tool
  reader : (method : Text) → Tool

-- `ge=-100.0, le=100.0`
abbrev pub is_speed : Number → Bool
is_speed n = leb n.magnitude (100 * one)

-- `ge=0.0, le=180.0`; the float -0.0 is 0.
abbrev pub is_angle : Number → Bool
is_angle n = (not n.negative || n.magnitude == 0) && leb n.magnitude (180 * one)

-- `ge=100, le=5000`, of a whole number.
abbrev pub is_ttl : Number → Bool
is_ttl n = not n.negative && leb 100 n.magnitude && leb n.magnitude 5000

abbrev pub is_routine : Text → Bool
is_routine name = leb 1 (length name) && leb (length name) 64

abbrev pub default_ttl : ℕ
default_ttl = 500

unfoldable pub registry : Dict Tool
registry =
    (text "stop", stop)
    ∷ (text "drive", drive_tool)
    ∷ (text "steer", steer_tool)
    ∷ (text "pan_camera", pan_tool)
    ∷ (text "tilt_camera", tilt_tool)
    ∷ (text "read_ultrasonic", reader (text "read_ultrasonic"))
    ∷ (text "read_grayscale", reader (text "read_grayscale"))
    ∷ (text "get_battery_voltage", reader (text "get_battery_voltage"))
    ∷ (text "get_daemon_health", reader (text "health"))
    ∷ (text "get_motor_status", reader (text "get_motor_status"))
    ∷ (text "get_servo_status", reader (text "get_servo_status"))
    ∷ (text "get_mcu_status", reader (text "get_mcu_status"))
    ∷ (text "list_routines", list_routines_tool)
    ∷ (text "start_routine", start_tool)
    ∷ (text "stop_routine", stop_tool)
    ∷ (text "stop_all_routines", stop_all_tool)
    ∷ []

abbrev pub names_of : Dict Tool → List Text
names_of [] = []
names_of ((name, tool) ∷ tools) = name ∷ names_of tools

unfoldable pub tool_names : List Text
tool_names = names_of registry

unfoldable pub is_in : Text → List Text → Bool
is_in name [] = false
is_in name (other ∷ names) = text_eq other name || is_in name names

-- `name in allowed`, where there is such a set.
abbrev pub is_allowed : Option (List Text) → Text → Bool
is_allowed none name = true
is_allowed (some names) name = is_in name names

-- `extra="forbid"`
unfoldable pub only_keys {ℓ} : {V : Type ℓ} → List Text → Dict V → Bool
only_keys keys [] = true
only_keys keys ((k, v) ∷ d) = is_in k keys && only_keys keys d

module _ {Json : Type 0} (reads_field : FieldReader Json) where
  open reads_field use {as_float, as_int, as_text, as_dict}

  read_with : {A : Type 0} → (Json → Option A) → Option Json → Option A
  read_with read none = none
  read_with read (some value) = read value

  passing : (Number → Bool) → Option Number → Option Number
  passing test none = none
  passing test (some n) = if test n then some n else none

  -- A field with `default=500`.
  ttl_field : Option Json → Option ℕ
  unfolding passing
  ttl_field none = some default_ttl
  ttl_field (some value) = elim (passing is_ttl (as_int value)) [
    | none ↦ none
    | some n ↦ some n.magnitude
  ]

  both : (Number → ℕ → Call Json) → Option Number → Option ℕ → Option (Call Json)
  both call none ttl = none
  both call (some value) none = none
  both call (some value) (some ttl) = some (call value ttl)

  -- `_DriveArgs` and `_AngleArgs`
  move_args :
      (field : Text) → (Number → Bool) → (Number → ℕ → Call Json) → Dict Json → Option (Call Json)
  unfolding read_with passing ttl_field both
  move_args field test call input =
      if only_keys (field ∷ text "ttl_ms" ∷ []) input
      then both call (passing test (read_with as_float (Dict.get input field)))
          (ttl_field (Dict.get input (text "ttl_ms")))
      else none

  -- `_EmptyArgs`
  no_args : Call Json → Dict Json → Option (Call Json)
  no_args call [] = some call
  no_args call (field ∷ input) = none

  routine_field : Option Json → Option Text
  unfolding read_with
  routine_field value = elim (read_with as_text value) [
    | none ↦ none
    | some name ↦ if is_routine name then some name else none
  ]

  params_field : Option Json → Option (Dict Json)
  params_field none = some []
  params_field (some value) = as_dict value

  start_with : Option Text → Option (Dict Json) → Option (Call Json)
  start_with none params = none
  start_with (some name) none = none
  start_with (some name) (some params) = some (start_routine name params)

  -- `args_model.model_validate(tool_input)`, and the call that the runner then makes.
  unfoldable pub call_of : Tool → Dict Json → Option (Call Json)
  unfolding move_args no_args routine_field params_field start_with
  call_of stop input = no_args stop_all_motors input
  call_of drive_tool input = move_args (text "speed_pct") is_speed drive input
  call_of steer_tool input = move_args (text "angle_deg") is_angle steer input
  call_of pan_tool input = move_args (text "angle_deg") is_angle pan_camera input
  call_of tilt_tool input = move_args (text "angle_deg") is_angle tilt_camera input
  call_of (reader method) input = no_args (reads method) input
  call_of list_routines_tool input = no_args list_routines input
  call_of start_tool input =
      if only_keys (text "routine" ∷ text "params" ∷ []) input
      then start_with (routine_field (Dict.get input (text "routine")))
          (params_field (Dict.get input (text "params")))
      else none
  call_of stop_tool input =
      if only_keys (text "routine" ∷ []) input
      then elim (routine_field (Dict.get input (text "routine"))) [
        | none ↦ none
        | some name ↦ some (stop_routine name)
      ]
      else none
  call_of stop_all_tool input = no_args stop_all_routines input
