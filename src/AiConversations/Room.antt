-- ===== src/AiConversations/Room.antt =====
-- How many conversations the store keeps.
use nomothetic.Base.{
  ℕ, ◌≤◌, ◌≡◌, ◌⊎◌, inl, inr, refl, Bool, true, false, not, Option, none, some, List, [], ◌∷◌, ◌++◌,
  length, arith, raised, if◌then◌else◌,
}
use nomothetic.Base.Text.{Text}
use nomothetic.Base.Dict
use nomothetic.Base.Dict.{
  Dict, Distinct, AllValues, put-AllValues, get-put, length-put, put-put, put-Distinct,
  remove-Distinct, retain-Distinct,
}
use nomothetic.AiConversations.{
  Conversation, AiConversationStore, new_conversation, is_stale, is_busy, expire, said, user,
  assistant, trim_history, max_history_messages, make_room_loop, make_room, enter, resume, begin,
  commit_found, commit, release, abort_found, abort, Message,
}
use nomothetic.AiConversations.Eviction.{make_room_loop_keeps, make_room_loop_room, IsBusy}
use nomothetic.AiConversations.History.{
  Call, begin_call, commit_call, abort_call, perform, perform_all, empty_store,
}

-- The keys are distinct, and the bound is the one that the store was made with.
abbrev pub IsStore : ℕ → AiConversationStore → Type 0
IsStore max_conversations s = Distinct s.conversations × (s.max_conversations ≡ max_conversations)

module _ (max_conversations : ℕ) where
  pub expire-IsStore :
      (now : ℕ) (s : AiConversationStore)
      → IsStore max_conversations s
      → IsStore max_conversations (expire now s)
  unfolding expire
  expire-IsStore now s h = (
    retain-Distinct (λ cid conv. not (is_stale s.idle_ttl now cid conv)) s.conversations h.0,
    h.1,
  )

  pub make_room-IsStore :
      (s : AiConversationStore)
      → IsStore max_conversations s
      → IsStore max_conversations (make_room s)
  unfolding make_room
  make_room-IsStore s h = (
    make_room_loop_keeps Distinct (length s.conversations) s.max_conversations s.conversations
        (λ d cid e distinct. remove-Distinct d cid distinct) h.0,
    h.1,
  )

  put-IsStore :
      (cid : Text) (conv : Conversation) (s : AiConversationStore)
      → IsStore max_conversations s
      → IsStore max_conversations (record s { conversations = Dict.put s.conversations cid conv })
  put-IsStore cid conv s h = (put-Distinct s.conversations cid conv h.0, h.1)

  begin-IsStore :
      (conversation_id : Option Text) (user_message new_id : Text) (now : ℕ)
      (s : AiConversationStore)
      → IsStore max_conversations s
      → IsStore max_conversations (begin conversation_id user_message new_id now s).1
  unfolding begin resume enter
  begin-IsStore none user_message new_id now s h =
      let roomy = make_room (expire now s) in
      put-IsStore new_id (record { messages = []; last_used = now; busy = true })
        (record roomy { conversations = Dict.put roomy.conversations new_id new_conversation })
        (put-IsStore new_id new_conversation roomy
          (make_room-IsStore (expire now s) (expire-IsStore now s h)))
  begin-IsStore (some cid) user_message new_id now s h =
      go (Dict.get (expire now s).conversations cid)
    where
      entered :
          (c : Conversation) (b : Bool)
          → IsStore max_conversations
              (if b
                then (raised is_busy, expire now s)
                else enter cid user_message now c (expire now s)).1
      entered c true = expire-IsStore now s h
      entered c false =
          put-IsStore cid (record c { last_used = now; busy = true }) (expire now s)
            (expire-IsStore now s h)

      go :
          (found : Option Conversation)
          → IsStore max_conversations (resume cid user_message now found (expire now s)).1
      go none = expire-IsStore now s h
      go (some conv) = entered conv conv.busy

  pub perform-IsStore :
      (call : Call) (s : AiConversationStore)
      → IsStore max_conversations s
      → IsStore max_conversations (perform call s)
  unfolding perform commit abort commit_found
  perform-IsStore (begin_call conversation_id user_message new_id now) s h =
      begin-IsStore conversation_id user_message new_id now s h
  perform-IsStore (commit_call cid user_message reply now) s h = go (Dict.get s.conversations cid)
    where
      go :
          (found : Option Conversation)
          → IsStore max_conversations (commit_found cid user_message reply now found s)
      go none = h
      go (some conv) =
          put-IsStore cid
            (record {
              messages =
                  trim_history max_history_messages
                    (conv.messages ++ said user user_message ∷ said assistant reply ∷ []);
              last_used = now;
              busy = false;
            })
            s h
  perform-IsStore (abort_call cid) s h = go (Dict.get s.conversations cid)
    where
      released :
          (conv : Conversation) (messages : List Message)
          → IsStore max_conversations (release cid conv messages s)
      released conv [] = (remove-Distinct s.conversations cid h.0, h.1)
      released conv (m ∷ messages) = put-IsStore cid (record conv { busy = false }) s h

      go : (found : Option Conversation) → IsStore max_conversations (abort_found cid found s)
      go none = h
      go (some conv) = released conv conv.messages

  pub perform_all-IsStore :
      (calls : List Call) (s : AiConversationStore)
      → IsStore max_conversations s
      → IsStore max_conversations (perform_all calls s)
  unfolding perform_all
  perform_all-IsStore [] s h = h
  perform_all-IsStore (call ∷ calls) s h =
      perform_all-IsStore calls (perform call s) (perform-IsStore call s h)

-- In a store of any past calls, the start of a new conversation leaves at most `max_conversations`
-- conversations, or else every conversation that is left is busy.
pub begin_room :
    (calls : List Call) (idle_ttl max_conversations : ℕ) (user_message new_id : Text) (now : ℕ)
    → (let left =
          (begin none user_message new_id now
            (perform_all calls (empty_store idle_ttl max_conversations))).1.conversations in
        (length left ≤ max_conversations) ⊎ AllValues IsBusy left)
unfolding begin enter make_room
begin_room calls idle_ttl max_conversations user_message new_id now =
    let s = perform_all calls (empty_store idle_ttl max_conversations) in
    let trimmed = (expire now s).conversations in
    let store = expire-IsStore max_conversations now s (
      perform_all-IsStore max_conversations calls (empty_store idle_ttl max_conversations)
        (tt, refl)) in
    let left = make_room_loop (length trimmed) (expire now s).max_conversations trimmed in
    let new : Conversation = record { messages = []; last_used = now; busy = true } in
    rw (put-put left new_id new_conversation new)
      (elim (make_room_loop_room (length trimmed) (expire now s).max_conversations trimmed store.0
        (omega arith)) [
          | inl room ↦ inl (ground (arith, room, store.1, length-put left new_id new))
          | inr busy ↦ inr (put-AllValues IsBusy left new_id new busy refl)
        ])
