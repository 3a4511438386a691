-- ===== src/AiCommand/Loop.antt =====
-- `AiCommandService.run_command`: the rounds between the model and the tools. `W` is the state of the
-- robot; the model is a function of what it is sent.
use nomothetic.Base.{
  ℕ, zero, suc, Bool, false, Option, none, some, List, [], ◌∷◌, ◌++◌, Result, ok, raised,
  if◌then◌else◌,
}
use nomothetic.Base.Text.{Text, text, text_eq, strip}
use nomothetic.Base.Dict
use nomothetic.Base.Dict.{Dict}
use nomothetic.AiCommand.{
  Call, stop_all_motors, list_routines, stop_all_routines, start_routine, stop_routine, Tool,
  registry, tool_names, is_in, is_allowed, FieldReader, call_of,
}

-- Why a tool call failed, in place of the message.
pub data ToolError : Type 0 where
  not_offered unknown_tool invalid_arguments no_manager no_catalogue not_running : ToolError
  failed : (message : Text) → ToolError

-- The HAT client, the routine manager and the catalogue, with the message of an exception. Python's
-- None is none.
pub record Robot (Json W : Type 0) : Type 0 where
  pub perform : Call Json → W → Result Text (Option Json) × W
  pub has_manager : Bool
  pub has_catalogue : Bool
  pub null : Json
  -- `{name: value}`
  pub object : (name : Text) → Json → Json

pub data Block (Json : Type 0) : Type 0 where
  said : Text → Block Json
  tool_use : (id name : Text) → Dict Json → Block Json
  other_block : Block Json

pub record Response (Json : Type 0) : Type 0 where
  pub content : List (Block Json)
  pub stop_reason : Option Text
  pub model : Option Text

-- A record of `actions`, and a `tool_result` block.
pub record Action (Json : Type 0) : Type 0 where
  pub tool : Text
  pub input : Dict Json
  pub outcome : Result ToolError Json

pub record ToolResult (Json : Type 0) : Type 0 where
  pub tool_use_id : Text
  pub outcome : Result ToolError Json

-- What the conversation holds.
pub data Turn (Json : Type 0) : Type 0 where
  user assistant : Text → Turn Json
  used : List (Block Json) → Turn Json
  results : List (ToolResult Json) → Turn Json

-- `AiProviderAuthError`, `AiProviderError`, and an exception that is not the library's.
pub data ProviderError : Type 0 where
  auth_error provider_error foreign_error : ProviderError

pub record CommandResult (Json : Type 0) : Type 0 where
  pub reply : Text
  pub actions : List (Action Json)
  pub model : Text
  pub stop_reason : Text

abbrev pub limit_reply : Text
limit_reply =
    text
      "I stopped after reaching the tool-call limit for a single command. Any motion stops on its own when its lease expires."

-- `getattr(x, ...) or y`
abbrev pub or_text : Option Text → Text → Text
or_text none y = y
or_text (some []) y = y
or_text (some (c ∷ s)) y = c ∷ s

module _ {Json W : Type 0} (reads_field : FieldReader Json) (robot : Robot Json W) where
  open robot use {perform, has_manager, has_catalogue, null, object}

  -- The value of a runner: some wrap it, and `stop_routine` refuses a None.
  shaped : Call Json → Option Json → Result ToolError Json
  shaped stop_all_motors value =
      ok (object (text "stopped_channels") (elim value [ none ↦ null | some v ↦ v ]))
  shaped stop_all_routines value =
      ok (object (text "stopped") (elim value [ none ↦ null | some v ↦ v ]))
  shaped (stop_routine routine) none = raised not_running
  shaped _ none = ok null
  shaped _ (some v) = ok v

  unfoldable pub answered : Call Json → Result Text (Option Json) × W → Result ToolError Json × W
  unfolding shaped
  answered call (raised message, w) = (raised (failed message), w)
  answered call (ok value, w) = (shaped call value, w)

  -- `_require_manager` and the test of `_get_catalog`.
  unfoldable pub missing : Call Json → Option ToolError
  missing list_routines = if has_catalogue then none else some no_catalogue
  missing (start_routine routine params) = if has_manager then none else some no_manager
  missing (stop_routine routine) = if has_manager then none else some no_manager
  missing stop_all_routines = if has_manager then none else some no_manager
  missing _ = none

  unfoldable pub run_call : Option ToolError → Call Json → W → Result ToolError Json × W
  unfolding answered
  run_call (some e) call w = (raised e, w)
  run_call none call w = answered call (perform call w)

  unfoldable pub run_checked : Option (Call Json) → W → Result ToolError Json × W
  run_checked none w = (raised invalid_arguments, w)
  run_checked (some call) w = run_call (missing call) call w

  unfoldable pub run_tool : Option Tool → Dict Json → W → Result ToolError Json × W
  run_tool none input w = (raised unknown_tool, w)
  run_tool (some tool) input w = run_checked (call_of reads_field tool input) w

  unfoldable pub execute_tool : (name : Text) → Dict Json → W → Result ToolError Json × W
  execute_tool name input w = run_tool (Dict.get registry name) input w

  unfoldable pub run_block :
      Option (List Text) → (name : Text) → Dict Json → W → Result ToolError Json × W
  run_block allowed name input w =
      if is_allowed allowed name then execute_tool name input w else (raised not_offered, w)

  -- The results, the actions and the robot after the blocks.
  pub record Ran : Type 0 where
    pub tool_results : List (ToolResult Json)
    pub actions : List (Action Json)
    pub robot_state : W

  unfoldable pub run_tool_blocks :
      Option (List Text) → List (Block Json) → List (Action Json) → W → Ran
  run_tool_blocks allowed [] actions w = record {
    tool_results = [];
    actions = actions;
    robot_state = w;
  }
  run_tool_blocks allowed (said s ∷ blocks) actions w = run_tool_blocks allowed blocks actions w
  run_tool_blocks allowed (other_block ∷ blocks) actions w =
      run_tool_blocks allowed blocks actions w
  run_tool_blocks allowed (tool_use id name input ∷ blocks) actions w =
      let (outcome, w') = run_block allowed name input w in
      let action : Action Json = record { tool = name; input = input; outcome = outcome } in
      let rest = run_tool_blocks allowed blocks (actions ++ action ∷ []) w' in
      record rest {
        tool_results = record { tool_use_id = id; outcome = outcome } ∷ rest.tool_results;
      }

  joined : List (Block Json) → Text
  joined [] = []
  joined (said s ∷ blocks) = s ++ joined blocks
  joined (_ ∷ blocks) = joined blocks

  reply_or : Text → (stop_reason : Text) → Text
  reply_or (c ∷ s) stop_reason = c ∷ s
  reply_or [] stop_reason =
      if text_eq stop_reason (text "refusal")
      then text "The model declined to act on this request."
      else text "(no response text)"

  unfoldable pub final_result :
      (own_model : Text) → Response Json → List (Action Json) → CommandResult Json
  unfolding joined reply_or
  final_result own_model response actions =
      let stop_reason = or_text response.stop_reason (text "end_turn") in
      record {
        reply = reply_or (strip (joined response.content)) stop_reason;
        actions = actions;
        model = or_text response.model own_model;
        stop_reason = stop_reason;
      }

  unfoldable pub limit_result : (own_model : Text) → List (Action Json) → CommandResult Json
  limit_result own_model actions = record {
    reply = limit_reply;
    actions = actions;
    model = own_model;
    stop_reason = text "tool_iteration_limit";
  }

  abbrev pub asks_tools : Response Json → Bool
  asks_tools response = elim response.stop_reason [
    | none ↦ false
    | some reason ↦ text_eq reason (text "tool_use")
  ]

  -- `tool_params`, by the names.
  unfoldable pub offered : Option (List Text) → List Text → List Text
  offered none names = names
  offered (some allowed) [] = []
  offered (some allowed) (name ∷ names) =
      let rest = offered (some allowed) names in if is_in name allowed then name ∷ rest else rest

  -- `create` is `messages.create`, with the exceptions as `_map_provider_error` maps them.
  module _ (create : List (Turn Json) → (tools : List Text) → Result ProviderError (Response Json))
      (own_model : Text) (allowed : Option (List Text)) where
    abbrev pub CommandAnswer : Type 0
    CommandAnswer = Result ProviderError (CommandResult Json) × W

    -- The body of the loop, before the rounds that are left.
    unfoldable pub on_response :
        Result ProviderError (Response Json)
        → List (Turn Json)
        → List (Action Json)
        → W
        → (List (Turn Json) → List (Action Json) → W → CommandAnswer)
        → CommandAnswer
    on_response (raised e) convo actions w next = (raised e, w)
    on_response (ok response) convo actions w next =
        if asks_tools response
        then (let ran = run_tool_blocks allowed response.content actions w in
            next (convo ++ used response.content ∷ results ran.tool_results ∷ []) ran.actions
              ran.robot_state)
        else (ok (final_result own_model response actions), w)

    unfoldable pub run_rounds :
        (rounds : ℕ) → List (Turn Json) → List (Action Json) → W → CommandAnswer
    run_rounds zero convo actions w = (ok (limit_result own_model actions), w)
    run_rounds (suc rounds) convo actions w =
        on_response (create convo (offered allowed tool_names)) convo actions w (run_rounds rounds)

    unfoldable pub run_command : (max_tool_iterations : ℕ) → List (Turn Json) → W → CommandAnswer
    run_command max_tool_iterations messages w = run_rounds max_tool_iterations messages [] w
