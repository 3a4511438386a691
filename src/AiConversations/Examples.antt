-- ===== src/AiConversations/Examples.antt =====
-- A store with one conversation of two commands.
use nomothetic.Base.{
  ℕ, ◌≤◌, ◌<◌, ◌≡◌, ◌≢◌, ◌⊎◌, refl, none, some, List, [], ◌∷◌, length, ok, raised,
}
use nomothetic.Base.Text.{Text, text, text_eq, text_ne}
use nomothetic.Base.Dict
use nomothetic.Base.Dict.{AllValues}
use nomothetic.AiConversations.{
  Message, is_busy, said, user, assistant, trim_history, max_history_messages, begin, commit,
  expire, make_room,
}
use nomothetic.AiConversations.Trim.{IsPrompt, drop_pairs, trim_history_drop}
use nomothetic.AiConversations.Eviction.{IsBusy}
use nomothetic.AiConversations.History.{
  Call, begin_call, commit_call, abort_call, perform, perform_all, empty_store, begin_history,
}
use nomothetic.AiConversations.Exclusive.{begin-begin}
use nomothetic.AiConversations.Room.{begin_room}

abbrev c1 : Text
c1 = text "c1"

abbrev hi : Text
hi = text "hi"

abbrev yes : Text
yes = text "yes"

abbrev past : List Call
past = begin_call none hi c1 5 ∷ commit_call c1 hi yes 9 ∷ []

abbrev prompt : List Message
prompt = said user hi ∷ said assistant yes ∷ said user (text "go") ∷ []

-- A run of the store.
begun :
    (begin (some c1) (text "go") (text "c2") 20 (perform_all past (empty_store 1800 1))).0
    ≡ ok (c1, prompt)
unfolding begin perform_all perform Dict.get expire Dict.retain commit Dict.put make_room text_eq
    trim_history
begun = refl

abbrev Recorded : Text → Text → Type 0
Recorded message reply = (message ≡ hi) × (reply ≡ yes)

begin_history_example :
    IsPrompt Recorded (text "go") prompt × (length prompt ≤ max_history_messages)
begin_history_example =
    begin_history Recorded past 1800 1 (some c1) (text "go") (text "c2") c1 20 prompt
      (tt, ((refl, refl), tt)) begun

trim_history_drop_example :
    (length (trim_history 1 prompt) ≤ 1)
    × ((pairs : ℕ) × (trim_history 1 prompt ≡ drop_pairs pairs prompt)
        × ((j : ℕ) → j < pairs → 1 < length (drop_pairs j prompt)))
trim_history_drop_example = trim_history_drop 1 prompt

c3-ne-c1 : text "c3" ≢ c1
unfolding text_eq
c3-ne-c1 = text_ne (text "c3") c1 refl

begin-begin_example :
    (begin (some c1) hi (text "c4") 9999 (
      perform_all
        (begin_call none hi (text "c3") 5000 ∷ abort_call (text "c3") ∷ [])
        (begin (some c1) (text "go") (text "c2") 20 (perform_all past (empty_store 1800 1))).1)).0
    ≡ raised is_busy
begin-begin_example =
    begin-begin c1 past (begin_call none hi (text "c3") 5000 ∷ abort_call (text "c3") ∷ []) 1800 1
      (some c1) (text "go") (text "c2") hi (text "c4") 20 9999 prompt begun
      (c3-ne-c1, (c3-ne-c1, tt))

begin_room_example :
    (let left =
        (begin none hi (text "c2") 20 (perform_all past (empty_store 1800 1))).1.conversations in
      (length left ≤ 1) ⊎ AllValues IsBusy left)
begin_room_example = begin_room past 1800 1 hi (text "c2") 20
