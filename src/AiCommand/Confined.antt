-- ===== src/AiCommand/Confined.antt =====
-- A command reaches the robot through the tools that it is allowed, and ends with a result.
use nomothetic.Base.{
  ℕ, zero, suc, ◌≡◌, refl, true, Option, none, some, List, [], ◌∷◌, ◌++◌, Result, ok, raised, inl,
  inr, Bool-cases,
}
use nomothetic.Base.Text.{Text}
use nomothetic.Base.Dict
use nomothetic.Base.Dict.{Dict}
use nomothetic.AiCommand.{Call, Tool, registry, is_allowed, FieldReader, call_of, tool_names}
use nomothetic.AiCommand.Bounded.{IsInBounds, call_of-IsInBounds}
use nomothetic.AiCommand.Loop.{
  ToolError, Robot, Block, said, tool_use, other_block, Response, Action, Turn, ProviderError,
  CommandResult, missing, run_call, run_checked, run_tool, execute_tool, run_block, run_tool_blocks,
  run_rounds, run_command, on_response, offered, asks_tools, answered,
}

module _ {Json : Type 0} (reads_field : FieldReader Json) where
  -- A call that an allowed tool makes of valid arguments, which is then within the bounds.
  pub record IsPermitted (allowed : Option (List Text)) (call : Call Json) : Type 0 where
    pub name : Text
    pub tool : Tool
    pub input : Dict Json
    pub is_allowed_tool : is_allowed allowed name ≡ true
    pub registered : Dict.get registry name ≡ some tool
    pub valid : call_of reads_field tool input ≡ some call
    pub in_bounds : IsInBounds call

  module _ {W : Type 0} (robot : Robot Json W) (P : W → Type 0) (allowed : Option (List Text)) where
    open robot use {perform}

    module _
        (kept : (call : Call Json) (w : W)
          → IsPermitted allowed call
          → P w
          → P (perform call w).1) where
      answered-kept :
          (call : Call Json) (done : Result Text (Option Json) × W)
          → P done.1
          → P (answered reads_field robot call done).1
      unfolding answered
      answered-kept call (raised message, w) h = h
      answered-kept call (ok value, w) h = h

      run_call-kept :
          (e : Option ToolError) (call : Call Json) (w : W)
          → IsPermitted allowed call
          → P w
          → P (run_call reads_field robot e call w).1
      unfolding run_call
      run_call-kept (some e) call w p h = h
      run_call-kept none call w p h = answered-kept call (perform call w) (kept call w p h)

      run_checked-kept :
          (made : Option (Call Json)) (w : W)
          → ((call : Call Json) → made ≡ some call → IsPermitted allowed call)
          → P w
          → P (run_checked reads_field robot made w).1
      unfolding run_checked
      run_checked-kept none w p h = h
      run_checked-kept (some call) w p h =
          run_call-kept (missing reads_field robot call) call w (p call refl) h

      run_tool-kept :
          (name : Text) (input : Dict Json) (found : Option Tool) (w : W)
          → is_allowed allowed name ≡ true
          → Dict.get registry name ≡ found
          → P w
          → P (run_tool reads_field robot found input w).1
      unfolding run_tool
      run_tool-kept name input none w a g h = h
      run_tool-kept name input (some tool) w a g h =
          run_checked-kept (call_of reads_field tool input) w
            (λ call v. record {
              name = name;
              tool = tool;
              input = input;
              is_allowed_tool = a;
              registered = g;
              valid = v;
              in_bounds = call_of-IsInBounds reads_field tool input call v;
            })
            h

      run_block-kept :
          (name : Text) (input : Dict Json) (w : W)
          → P w
          → P (run_block reads_field robot allowed name input w).1
      unfolding run_block execute_tool
      run_block-kept name input w h = elim (Bool-cases (is_allowed allowed name)) [
        | inl offer ↦ rw offer (run_tool-kept name input (Dict.get registry name) w offer refl h)
        | inr other ↦ rw other h
      ]

      run_tool_blocks-kept :
          (blocks : List (Block Json)) (actions : List (Action Json)) (w : W)
          → P w
          → P (run_tool_blocks reads_field robot allowed blocks actions w).robot_state
      unfolding run_tool_blocks
      run_tool_blocks-kept [] actions w h = h
      run_tool_blocks-kept (said s ∷ blocks) actions w h = run_tool_blocks-kept blocks actions w h
      run_tool_blocks-kept (other_block ∷ blocks) actions w h =
          run_tool_blocks-kept blocks actions w h
      run_tool_blocks-kept (tool_use id name input ∷ blocks) actions w h =
          let done = run_block reads_field robot allowed name input w in
          run_tool_blocks-kept blocks
            (actions ++ record { tool = name; input = input; outcome = done.0 } ∷ []) done.1
            (run_block-kept name input w h)

      module _
          (create : List (Turn Json) → (tools : List Text) → Result ProviderError (Response Json))
          (own_model : Text) where
        abbrev Next : Type 0
        Next =
            List (Turn Json)
            → List (Action Json)
            → W
            → Result ProviderError (CommandResult Json) × W

        on_response-kept :
            (answer : Result ProviderError (Response Json)) (convo : List (Turn Json))
            (actions : List (Action Json)) (w : W) (next : Next)
            → ((convo' : List (Turn Json)) (actions' : List (Action Json)) (w' : W)
                → P w'
                → P (next convo' actions' w').1)
            → P w
            → P
                (on_response reads_field robot create own_model allowed answer convo actions w
                  next).1
        unfolding on_response
        on_response-kept (raised e) convo actions w next n h = h
        on_response-kept (ok response) convo actions w next n h =
            elim (Bool-cases (asks_tools reads_field robot response)) [
              | inl asks ↦ rw asks (n _ _ _ (run_tool_blocks-kept response.content actions w h))
              | inr ends ↦ rw ends h
            ]

        run_rounds-kept :
            (rounds : ℕ) (convo : List (Turn Json)) (actions : List (Action Json)) (w : W)
            → P w
            → P (run_rounds reads_field robot create own_model allowed rounds convo actions w).1
        unfolding run_rounds
        run_rounds-kept zero convo actions w h = h
        run_rounds-kept (suc rounds) convo actions w h =
            on_response-kept (create convo (offered reads_field robot allowed tool_names)) convo
              actions w (run_rounds reads_field robot create own_model allowed rounds)
              (run_rounds-kept rounds) h

        -- What the calls of allowed tools with arguments in bounds keep true of the robot, a command
        -- keeps true, whatever the model answers and however many rounds it takes.
        pub run_command-kept :
            (max_tool_iterations : ℕ) (messages : List (Turn Json)) (w : W)
            → P w
            → P
                (run_command reads_field robot create own_model allowed max_tool_iterations messages
                  w).1
        unfolding run_command
        run_command-kept max_tool_iterations messages w h =
            run_rounds-kept max_tool_iterations messages [] w h
