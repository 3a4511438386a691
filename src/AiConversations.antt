-- ===== src/AiConversations.antt =====
-- src/nomothetic/ai_conversations.py: the conversation histories of the AI command endpoint. Clock
-- values are whole ticks; `now - last_used > ttl` is written with the sum on the other side. The id
-- that `secrets.token_urlsafe` draws is an argument.
pub mod Trim
pub mod History
pub mod Eviction
pub mod Busy
pub mod Exclusive
pub mod Room
mod Examples
use nomothetic.Base.{
  ℕ, zero, suc, ◌+◌, ◌*◌, Bool, true, false, not, ◌&&◌, ◌||◌, Option, none, some, List, [], ◌∷◌,
  ◌++◌, length, ltb, leb, ◌==◌, Result, ok, raised, if◌then◌else◌,
}
use nomothetic.Base.Text.{Text, text_eq}
use nomothetic.Base.Dict
use nomothetic.Base.Dict.{Dict}

abbrev pub max_history_messages : ℕ
max_history_messages = 20

pub data Role : Type 0 where
  user assistant : Role

pub record Message : Type 0 where
  pub role : Role
  pub content : Text

-- `while len(trimmed) > max_messages: del trimmed[:2]`, on a copy.
unfoldable pub trim_history : ℕ → List Message → List Message
trim_history max_messages [] = []
trim_history max_messages (m ∷ []) = if ltb max_messages 1 then [] else m ∷ []
trim_history max_messages (m ∷ n ∷ rest) =
    let shorter = trim_history max_messages rest in
    if ltb max_messages (length (m ∷ n ∷ rest)) then shorter else m ∷ n ∷ rest

pub data ConversationError : Type 0 where
  not_found is_busy : ConversationError

pub record Conversation : Type 0 where
  pub messages : List Message
  pub last_used : ℕ
  pub busy : Bool

pub record AiConversationStore : Type 0 where
  pub idle_ttl : ℕ
  pub max_conversations : ℕ
  pub conversations : Dict Conversation

-- `not conv.busy and now - conv.last_used > self._idle_ttl_s`
abbrev pub is_stale : ℕ → ℕ → Text → Conversation → Bool
is_stale idle_ttl now cid conv = not conv.busy && ltb (conv.last_used + idle_ttl) now

unfoldable pub expire : ℕ → AiConversationStore → AiConversationStore
expire now s = record s {
  conversations = Dict.retain (λ cid conv. not (is_stale s.idle_ttl now cid conv)) s.conversations;
}

-- The order of texts, and of the pairs `(last_used, cid)`.
unfoldable pub text_lt : Text → Text → Bool
text_lt [] [] = false
text_lt [] (d ∷ t) = true
text_lt (c ∷ s) [] = false
text_lt (c ∷ s) (d ∷ t) = ltb c d || c == d && text_lt s t

unfoldable pub before_pair : ℕ → Text → ℕ → Text → Bool
unfolding text_lt
before_pair used cid used' cid' = ltb used used' || used == used' && text_lt cid cid'

-- `min(idle)[1]`, with the best pair so far.
unfoldable pub least_idle : Option (ℕ × Text) → Dict Conversation → Option Text
unfolding before_pair
least_idle none [] = none
least_idle (some (used, best)) [] = some best
least_idle none ((cid, conv) ∷ rest) =
    least_idle (if conv.busy then none else some (conv.last_used, cid)) rest
least_idle (some (used, best)) ((cid, conv) ∷ rest) =
    least_idle
      (if not conv.busy && before_pair conv.last_used cid used best
        then some (conv.last_used, cid)
        else some (used, best))
      rest

-- One round of the loop of `_make_room`: the next dict, or `none` where the loop ends.
unfoldable pub room_round : ℕ → Dict Conversation → Option Text → Option (Dict Conversation)
room_round max_conversations d none = none
room_round max_conversations d (some cid) =
    if leb max_conversations (length d) then some (Dict.remove d cid) else none

-- Each round deletes an entry, so as many rounds as entries are enough.
unfoldable pub make_room_loop : ℕ → ℕ → Dict Conversation → Dict Conversation
unfolding room_round least_idle
make_room_loop zero max_conversations d = d
make_room_loop (suc fuel) max_conversations d =
    elim (room_round max_conversations d (least_idle none d)) [
      | none ↦ d
      | some left ↦ make_room_loop fuel max_conversations left
    ]

unfoldable pub make_room : AiConversationStore → AiConversationStore
unfolding make_room_loop
make_room s = record s {
  conversations = make_room_loop (length s.conversations) s.max_conversations s.conversations;
}

abbrev pub said : Role → Text → Message
said role content = record { role = role; content = content }

-- The conversation is marked busy, and its history goes to the model.
unfoldable pub enter :
    Text
    → Text
    → ℕ
    → Conversation
    → AiConversationStore
    → Result ConversationError (Text × List Message) × AiConversationStore
enter cid user_message now conv s = (
  ok (cid, trim_history max_history_messages (conv.messages ++ said user user_message ∷ [])),
  record s {
    conversations = Dict.put s.conversations cid (record conv { last_used = now; busy = true });
  },
)

unfoldable pub resume :
    Text
    → Text
    → ℕ
    → Option Conversation
    → AiConversationStore
    → Result ConversationError (Text × List Message) × AiConversationStore
unfolding enter
resume cid user_message now none s = (raised not_found, s)
resume cid user_message now (some found) s =
    if found.busy then (raised is_busy, s) else enter cid user_message now found s

abbrev pub new_conversation : Conversation
new_conversation = record { messages = []; last_used = 0; busy = false }

unfoldable pub begin :
    (conversation_id : Option Text) (user_message new_id : Text) (now : ℕ)
    → AiConversationStore
    → Result ConversationError (Text × List Message) × AiConversationStore
unfolding resume
begin none user_message new_id now s =
    let roomy = make_room (expire now s) in
    enter new_id user_message now new_conversation
      (record roomy { conversations = Dict.put roomy.conversations new_id new_conversation })
begin (some cid) user_message new_id now s =
    let s' = expire now s in resume cid user_message now (Dict.get s'.conversations cid) s'

unfoldable pub commit_found :
    (cid user_message reply : Text) (now : ℕ)
    → Option Conversation
    → AiConversationStore
    → AiConversationStore
commit_found cid user_message reply now none s = s
commit_found cid user_message reply now (some conv) s = record s {
  conversations = Dict.put s.conversations cid (record {
    messages =
        trim_history max_history_messages
          (conv.messages ++ said user user_message ∷ said assistant reply ∷ []);
    last_used = now;
    busy = false;
  });
}

unfoldable pub commit :
    (conversation_id user_message reply : Text) (now : ℕ)
    → AiConversationStore
    → AiConversationStore
unfolding commit_found
commit cid user_message reply now s =
    commit_found cid user_message reply now (Dict.get s.conversations cid) s

-- A conversation with no completed exchange is dropped.
unfoldable pub release :
    Text → Conversation → List Message → AiConversationStore → AiConversationStore
release cid conv [] s = record s { conversations = Dict.remove s.conversations cid }
release cid conv (m ∷ messages) s = record s {
  conversations = Dict.put s.conversations cid (record conv { busy = false });
}

unfoldable pub abort_found : Text → Option Conversation → AiConversationStore → AiConversationStore
unfolding release
abort_found cid none s = s
abort_found cid (some conv) s = release cid conv conv.messages s

unfoldable pub abort : Text → AiConversationStore → AiConversationStore
unfolding abort_found
abort cid s = abort_found cid (Dict.get s.conversations cid) s
