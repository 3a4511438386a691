-- ===== src/AiConversations/History.antt =====
-- The history that `begin` hands to the model, after any calls of the store.
use mathlib.Core.Path.{subst}
use nomothetic.Base.{
  ℕ, ◌≤◌, ◌≡◌, refl, Bool, true, false, not, Option, none, some, List, [], ◌∷◌, ◌++◌, length, All,
  arith, Result, ok, raised, if◌then◌else◌,
}
use nomothetic.Base.Text.{Text}
use nomothetic.Base.Dict
use nomothetic.Base.Dict.{
  Dict, AllValues, get-AllValues, put-AllValues, remove-AllValues, retain-AllValues,
}
use nomothetic.AiConversations.{
  Message, Conversation, ConversationError, not_found, is_busy, AiConversationStore, said, user,
  assistant, new_conversation, trim_history, max_history_messages, is_stale, expire, make_room,
  enter, resume, begin, commit_found, commit, release, abort_found, abort,
}
use nomothetic.AiConversations.Eviction.{make_room_loop_keeps}
use nomothetic.AiConversations.Trim.{
  IsExchanges, IsPrompt, trim_history_drop, trim-IsExchanges, trim-IsPrompt, IsExchanges-snoc,
  IsPrompt-snoc,
}

pub data Call : Type 0 where
  begin_call : (conversation_id : Option Text) (user_message new_id : Text) (now : ℕ) → Call
  commit_call : (conversation_id user_message reply : Text) (now : ℕ) → Call
  abort_call : (conversation_id : Text) → Call

unfoldable pub perform : Call → AiConversationStore → AiConversationStore
perform (begin_call conversation_id user_message new_id now) s =
    (begin conversation_id user_message new_id now s).1
perform (commit_call conversation_id user_message reply now) s =
    commit conversation_id user_message reply now s
perform (abort_call conversation_id) s = abort conversation_id s

unfoldable pub perform_all : List Call → AiConversationStore → AiConversationStore
perform_all [] s = s
perform_all (call ∷ calls) s = perform_all calls (perform call s)

abbrev pub empty_store : (idle_ttl max_conversations : ℕ) → AiConversationStore
empty_store idle_ttl max_conversations = record {
  idle_ttl = idle_ttl;
  max_conversations = max_conversations;
  conversations = [];
}

-- A commit records an exchange with the property.
abbrev pub Records : (Text → Text → Type 0) → Call → Type 0
Records P (begin_call conversation_id user_message new_id now) = Unit
Records P (commit_call conversation_id user_message reply now) = P user_message reply
Records P (abort_call conversation_id) = Unit

module _ (P : Text → Text → Type 0) where
  abbrev Holds : Conversation → Type 0
  Holds conv = IsExchanges P conv.messages

  abbrev Stored : Dict Conversation → Type 0
  Stored d = AllValues Holds d

  -- A call that begins leaves such conversations, and hands over a prompt made of them.
  abbrev Begins :
      (user_message : Text)
      → Result ConversationError (Text × List Message) × AiConversationStore
      → Type 0
  Begins user_message x =
      Stored x.1.conversations
      × ((id : Text) (history : List Message)
          → x.0 ≡ ok (id, history)
          → IsPrompt P user_message history × (length history ≤ max_history_messages))

  enter-Begins :
      (cid user_message : Text) (now : ℕ) (conv : Conversation) (s : AiConversationStore)
      → Stored s.conversations
      → Holds conv
      → Begins user_message (enter cid user_message now conv s)
  unfolding enter
  enter-Begins cid user_message now conv s h held = (
    put-AllValues Holds s.conversations cid (record conv { last_used = now; busy = true }) h held,
    λ id history e.
        let full = conv.messages ++ said user user_message ∷ [] in
        let same : trim_history max_history_messages full ≡ history = ground (arith, e) in
        subst (λ l. IsPrompt P user_message l × (length l ≤ max_history_messages)) same
          (
            trim-IsPrompt P max_history_messages user_message full (omega arith)
                (IsPrompt-snoc P conv.messages user_message held),
            (trim_history_drop max_history_messages full).0,
          ),
  )

  raised-Begins :
      (user_message : Text) (e : ConversationError) (s : AiConversationStore)
      → Stored s.conversations
      → Begins user_message (raised e, s)
  raised-Begins user_message e s h = (h, λ id history e'. absurd (ground (arith, e')))

  resume-Begins :
      (cid user_message : Text) (now : ℕ) (s : AiConversationStore) (found : Option Conversation)
      → Dict.get s.conversations cid ≡ found
      → Stored s.conversations
      → Begins user_message (resume cid user_message now found s)
  unfolding resume
  resume-Begins cid user_message now s none e h = raised-Begins user_message not_found s h
  resume-Begins cid user_message now s (some found) e h =
      go found.busy (get-AllValues Holds s.conversations cid found h e)
    where
      go :
          (b : Bool)
          → Holds found
          → Begins user_message
              (if b then (raised is_busy, s) else enter cid user_message now found s)
      go true held = raised-Begins user_message is_busy s h
      go false held = enter-Begins cid user_message now found s h held

  begin-Begins :
      (conversation_id : Option Text) (user_message new_id : Text) (now : ℕ)
      (s : AiConversationStore)
      → Stored s.conversations
      → Begins user_message (begin conversation_id user_message new_id now s)
  unfolding begin expire make_room
  begin-Begins none user_message new_id now s h =
      let kept =
        retain-AllValues Holds (λ cid conv. not (is_stale s.idle_ttl now cid conv)) s.conversations
          h in
      let roomy = make_room (expire now s) in
      enter-Begins new_id user_message now new_conversation
        (record roomy { conversations = Dict.put roomy.conversations new_id new_conversation })
        (put-AllValues Holds roomy.conversations new_id new_conversation
          (make_room_loop_keeps Stored (length (expire now s).conversations) s.max_conversations
            (expire now s).conversations (λ d cid e. remove-AllValues Holds d cid) kept)
          tt)
        tt
  begin-Begins (some cid) user_message new_id now s h =
      resume-Begins cid user_message now (expire now s) (Dict.get (expire now s).conversations cid)
        refl
        (retain-AllValues Holds (λ cid conv. not (is_stale s.idle_ttl now cid conv)) s.conversations
          h)

  perform-Stored :
      (call : Call) (s : AiConversationStore)
      → Records P call
      → Stored s.conversations
      → Stored (perform call s).conversations
  unfolding perform commit abort
  perform-Stored (begin_call conversation_id user_message new_id now) s p h =
      (begin-Begins conversation_id user_message new_id now s h).0
  perform-Stored (commit_call cid user_message reply now) s p h =
      go (Dict.get s.conversations cid) refl
    where
      go :
          (found : Option Conversation)
          → Dict.get s.conversations cid ≡ found
          → Stored (commit_found cid user_message reply now found s).conversations
      go none e = h
      go (some conv) e =
          let full = conv.messages ++ said user user_message ∷ said assistant reply ∷ [] in
          let held =
            IsExchanges-snoc P conv.messages user_message reply
              (get-AllValues Holds s.conversations cid conv h e) p in
          put-AllValues Holds s.conversations cid
            (record {
              messages = trim_history max_history_messages full;
              last_used = now;
              busy = false;
            })
            h (trim-IsExchanges P max_history_messages full held)
  perform-Stored (abort_call cid) s p h = go (Dict.get s.conversations cid) refl
    where
      released :
          (conv : Conversation) (messages : List Message)
          → Holds conv
          → Stored (release cid conv messages s).conversations
      released conv [] held = remove-AllValues Holds s.conversations cid h
      released conv (m ∷ messages) held =
          put-AllValues Holds s.conversations cid (record conv { busy = false }) h held

      go :
          (found : Option Conversation)
          → Dict.get s.conversations cid ≡ found
          → Stored (abort_found cid found s).conversations
      go none e = h
      go (some conv) e =
          released conv conv.messages (get-AllValues Holds s.conversations cid conv h e)

  perform_all-Stored :
      (calls : List Call) (s : AiConversationStore)
      → All (Records P) calls
      → Stored s.conversations
      → Stored (perform_all calls s).conversations
  unfolding perform_all
  perform_all-Stored [] s p h = h
  perform_all-Stored (call ∷ calls) s p h =
      perform_all-Stored calls (perform call s) p.1 (perform-Stored call s p.0 h)

  -- From an empty store and through any calls, where every exchange that a commit records has some
  -- property: the history that a `begin` returns is user and assistant turns in pairs, each an
  -- exchange with that property, and then the new turn of the user, and it has at most
  -- `max_history_messages` turns.
  pub begin_history :
      (calls : List Call) (idle_ttl max_conversations : ℕ) (conversation_id : Option Text)
      (user_message new_id id : Text) (now : ℕ) (history : List Message)
      → All (Records P) calls
      → (begin conversation_id user_message new_id now
          (perform_all calls (empty_store idle_ttl max_conversations))).0
        ≡ ok (id, history)
      → IsPrompt P user_message history × (length history ≤ max_history_messages)
  begin_history calls idle_ttl max_conversations conversation_id user_message new_id id now history
        p begun =
      (begin-Begins conversation_id user_message new_id now
          (perform_all calls (empty_store idle_ttl max_conversations))
          (perform_all-Stored calls (empty_store idle_ttl max_conversations) p tt)).1
        id history begun
