-- ===== src/AiCommand/Examples.antt =====
-- A robot that writes down what it is asked, and a model that drives twice.
use nomothetic.Base.{
  ℕ, ◌≡◌, refl, Bool, true, false, none, some, List, [], ◌∷◌, length, ltb, Result, ok,
  if◌then◌else◌,
}
use nomothetic.Base.Text.{Text, text, strip, starts_with, is_space}
use nomothetic.AiCommand.{Call, FieldReader}
use nomothetic.AiCommand.Bounded.{IsInBounds}
use nomothetic.AiCommand.Confined.{IsPermitted, run_command-kept}
use nomothetic.AiCommand.Returns.{IsEnding, run_command-IsEnding}
use nomothetic.AiCommand.Keys.{validate_api_key_format, resolve, save, stored, resolve-save}
use nomothetic.AiCommand.Loop.{
  Robot, Response, Turn, user, ProviderError, said, tool_use, run_command,
}

-- A JSON value is a whole number.
abbrev steps : FieldReader ℕ
steps = record {
  as_float = λ n. some (record { negative = false; magnitude = n });
  as_int = λ n. some (record { negative = false; magnitude = n });
  as_text = λ n. none;
  as_dict = λ n. none;
}

abbrev recorder : Robot ℕ (List (Call ℕ))
recorder = record {
  perform = λ call w. (ok none, call ∷ w);
  has_manager = false;
  has_catalogue = false;
  null = 0;
  object = λ name value. value;
}

abbrev drives : Response ℕ
drives = record {
  content =
      tool_use (text "1") (text "drive") ((text "speed_pct", 50) ∷ [])
      ∷ tool_use (text "2") (text "drive") ((text "ttl_ms", 90000) ∷ [])
      ∷ [];
  stop_reason = some (text "tool_use");
  model = none;
}

abbrev done : Response ℕ
done = record {
  content = said (text "Done.") ∷ [];
  stop_reason = some (text "end_turn");
  model = none;
}

create : List (Turn ℕ) → (tools : List Text) → Result ProviderError (Response ℕ)
create convo tools = if ltb (length convo) 2 then ok drives else ok done

abbrev AllInBounds : List (Call ℕ) → Type 0
AllInBounds [] = Unit
AllInBounds (call ∷ calls) = IsInBounds call × AllInBounds calls

asked-kept :
    (call : Call ℕ) (w : List (Call ℕ))
    → IsPermitted steps (some (text "drive" ∷ [])) call
    → AllInBounds w
    → AllInBounds (recorder.perform call w).1
asked-kept call w p h = (p.in_bounds, h)

run_command-kept_example :
    AllInBounds
      (run_command steps recorder create
        (text "m")
        (some (text "drive" ∷ []))
        8
        (user (text "go") ∷ [])
        []).1
run_command-kept_example =
    run_command-kept steps recorder AllInBounds (some (text "drive" ∷ [])) asked-kept create
      (text "m") 8 (user (text "go") ∷ []) [] tt

run_command-IsEnding_example :
    IsEnding steps recorder create
      (text "m")
      none
      8
      (record { convo = user (text "go") ∷ []; actions = []; robot_state = [] })
      (run_command steps recorder create (text "m") none 8 (user (text "go") ∷ []) [])
run_command-IsEnding_example =
    run_command-IsEnding steps recorder create (text "m") none 8 (user (text "go") ∷ []) []

abbrev api_key : Text
api_key = text "sk-ant-0123456789abcdef"

-- Every character is printable.
abbrev any_character : ℕ → Bool
any_character c = true

key_passes : validate_api_key_format any_character (text " sk-ant-0123456789abcdef ") ≡ ok api_key
unfolding validate_api_key_format strip starts_with is_space
key_passes = refl

resolve-save_example :
    resolve (text "/k") [] (save (text "/k") api_key true true []).1 ≡ ok (some (api_key, stored))
resolve-save_example =
    resolve-save any_character (text " sk-ant-0123456789abcdef ") api_key (text "/k") [] []
      key_passes
