-- ===== src/AiCommand/Returns.antt =====
-- How a command ends, and after how many rounds.
use nomothetic.Base.{
  ℕ, zero, suc, ◌≡◌, ◌<◌, ◌⊎◌, refl, true, false, Option, List, [], ◌∷◌, ◌++◌, Result, ok, raised,
  inl, inr, Bool-cases, arith,
}
use nomothetic.Base.Text.{Text}
use nomothetic.AiCommand.{FieldReader, tool_names}
use nomothetic.AiCommand.Loop.{
  Robot, Response, Action, Turn, used, results, ProviderError, CommandResult, run_rounds,
  run_command, on_response, offered, asks_tools, run_tool_blocks, final_result, limit_result,
}

-- What a round of the loop starts from.
pub record Round (Json W : Type 0) : Type 0 where
  pub convo : List (Turn Json)
  pub actions : List (Action Json)
  pub robot_state : W

module _ {Json W : Type 0} (reads_field : FieldReader Json) (robot : Robot Json W)
    (create : List (Turn Json) → (tools : List Text) → Result ProviderError (Response Json))
    (own_model : Text) (allowed : Option (List Text)) where
  -- What the model answers to a round.
  abbrev pub answer_to : Round Json W → Result ProviderError (Response Json)
  answer_to r = create r.convo (offered reads_field robot allowed tool_names)

  -- The round after one whose answer asks for tools: they have run.
  abbrev pub next_round : Round Json W → Response Json → Round Json W
  next_round r response =
      let ran =
        run_tool_blocks reads_field robot allowed response.content r.actions r.robot_state in
      record {
        convo = r.convo ++ used response.content ∷ results ran.tool_results ∷ [];
        actions = ran.actions;
        robot_state = ran.robot_state;
      }

  -- `after` comes `n` rounds after `before`, each of which asks for tools.
  abbrev pub AsksTools : (n : ℕ) (before after : Round Json W) → Type 0
  AsksTools zero before after = before ≡ after
  AsksTools (suc n) before after =
      (response : Response Json) × (answer_to before ≡ ok response)
      × (asks_tools reads_field robot response ≡ true)
      × AsksTools n (next_round before response) after

  abbrev pub Ending : Type 0
  Ending = Result ProviderError (CommandResult Json) × W

  -- The answer of the last round asks for no tool, or there is none, and decides the result.
  abbrev pub EndsWith : Result ProviderError (Response Json) → Round Json W → Ending → Type 0
  EndsWith (raised e) last ending = ending ≡ (raised e, last.robot_state)
  EndsWith (ok response) last ending =
      (asks_tools reads_field robot response ≡ false)
      × (ending
          ≡ (ok (final_result reads_field robot own_model response last.actions), last.robot_state))

  abbrev pub IsEnding : (rounds : ℕ) → Round Json W → Ending → Type 0
  IsEnding rounds first ending =
      ((n : ℕ) × (last : Round Json W) × (n < rounds)
        × AsksTools n first last
        × EndsWith (answer_to last) last ending)
      ⊎ ((last : Round Json W) × AsksTools rounds first last
          × (ending
              ≡ (ok (limit_result reads_field robot own_model last.actions), last.robot_state)))

  one_more :
      (rounds : ℕ) (first : Round Json W) (response : Response Json) (ending : Ending)
      → answer_to first ≡ ok response
      → asks_tools reads_field robot response ≡ true
      → IsEnding rounds (next_round first response) ending
      → IsEnding (suc rounds) first ending
  one_more rounds first response ending e asks (inl (n, last, le, chain, ends)) =
      inl (suc n, last, omega (arith, le), (response, e, asks, chain), ends)
  one_more rounds first response ending e asks (inr (last, chain, ends)) =
      inr (last, (response, e, asks, chain), ends)

  run_rounds-IsEnding :
      (rounds : ℕ) (first : Round Json W)
      → IsEnding rounds first (
          run_rounds reads_field robot create own_model allowed rounds first.convo first.actions
            first.robot_state)
  unfolding run_rounds on_response
  run_rounds-IsEnding zero first = inr (first, refl, refl)
  run_rounds-IsEnding (suc rounds) first =
      go (answer_to first) refl (λ response. run_rounds-IsEnding rounds (next_round first response))
    where
      go :
          (answer : Result ProviderError (Response Json))
          → answer_to first ≡ answer
          → ((response : Response Json)
              → IsEnding rounds (next_round first response) (
                  run_rounds reads_field robot create own_model allowed rounds
                    (next_round first response).convo
                    (next_round first response).actions
                    (next_round first response).robot_state))
          → IsEnding (suc rounds) first (
              on_response reads_field robot create own_model allowed answer first.convo
                first.actions first.robot_state
                (run_rounds reads_field robot create own_model allowed rounds))
      go (raised e) p rest = inl (0, first, omega arith, refl, rw p refl)
      go (ok response) p rest = elim (Bool-cases (asks_tools reads_field robot response)) [
        | inl asks ↦ rw asks (one_more rounds first response _ p asks (rest response))
        | inr ends ↦ rw ends (inl (0, first, omega arith, refl, rw p (ends, refl)))
      ]

  -- A command ends in one of three ways, whatever fails on the robot. After fewer rounds than it is
  -- allowed, each of which asked for tools, the model answers without asking for one, and the reply,
  -- the actions of those rounds and the state of the robot are the result; or the model service fails
  -- then, and its error is the result. Or each round that is allowed asked for tools, they have run, and
  -- the result says that the limit is reached, with the actions of all rounds.
  pub run_command-IsEnding :
      (max_tool_iterations : ℕ) (messages : List (Turn Json)) (w : W)
      → IsEnding max_tool_iterations
          (record { convo = messages; actions = []; robot_state = w })
          (run_command reads_field robot create own_model allowed max_tool_iterations messages w)
  unfolding run_command
  run_command-IsEnding max_tool_iterations messages w =
      run_rounds-IsEnding max_tool_iterations
        (record { convo = messages; actions = []; robot_state = w })
