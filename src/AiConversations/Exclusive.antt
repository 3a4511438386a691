-- ===== src/AiConversations/Exclusive.antt =====
-- No second command enters a conversation that has one running.
use nomothetic.Base.{
  ℕ, ◌≡◌, refl, Bool, true, false, Option, none, some, List, All, arith, Result, ok, raised,
  if◌then◌else◌,
}
use nomothetic.Base.Text.{Text, text_eq_iff}
use nomothetic.Base.Dict
use nomothetic.Base.Dict.{Dict, Distinct, get-put, get-remove, get-retain-kept, remove-Distinct}
use nomothetic.AiConversations.{
  Conversation, ConversationError, AiConversationStore, new_conversation, is_busy, expire,
  make_room, enter, resume, begin, Message,
}
use nomothetic.AiConversations.History.{Call, begin_call, perform, perform_all, empty_store}
use nomothetic.AiConversations.Room.{perform-IsStore, perform_all-IsStore}
use nomothetic.AiConversations.Busy.{
  IsElsewhere, BusyIn, expire-BusyIn, resume_busy, perform_all-BusyIn,
}

module _ (id : Text) where
  -- What a call that begins leaves.
  abbrev Occupies : Result ConversationError (Text × List Message) × AiConversationStore → Type 0
  Occupies x = (history : List Message) → x.0 ≡ ok (id, history) → BusyIn id x.1.conversations

  enter-Occupies :
      (cid user_message : Text) (now : ℕ) (conv : Conversation) (s : AiConversationStore)
      → Occupies (enter cid user_message now conv s)
  unfolding enter
  enter-Occupies cid user_message now conv s history e =
      let same : cid ≡ id = ground (arith, e) in
      (
        record conv { last_used = now; busy = true },
        ground (
          arith,
          get-put s.conversations cid id (record conv { last_used = now; busy = true }),
          text_eq_iff cid id,
          same,
        ),
        refl,
      )

  begin-Occupies :
      (conversation_id : Option Text) (user_message new_id : Text) (now : ℕ)
      (s : AiConversationStore)
      → Occupies (begin conversation_id user_message new_id now s)
  unfolding begin resume
  begin-Occupies none user_message new_id now s =
      let roomy = make_room (expire now s) in
      enter-Occupies new_id user_message now new_conversation
        (record roomy { conversations = Dict.put roomy.conversations new_id new_conversation })
  begin-Occupies (some cid) user_message new_id now s =
      go (Dict.get (expire now s).conversations cid)
    where
      entered :
          (c : Conversation) (b : Bool)
          → Occupies (
              if b
              then (raised is_busy, expire now s)
              else enter cid user_message now c (expire now s))
      entered c true = λ history e. absurd (ground (arith, e))
      entered c false = enter-Occupies cid user_message now c (expire now s)

      go :
          (found : Option Conversation)
          → Occupies (resume cid user_message now found (expire now s))
      go none = λ history e. absurd (ground (arith, e))
      go (some conv) = entered conv conv.busy

  begin_busy_lem :
      (user_message new_id : Text) (now : ℕ) (s : AiConversationStore)
      → BusyIn id s.conversations
      → begin (some id) user_message new_id now s ≡ (raised is_busy, expire now s)
  unfolding begin
  begin_busy_lem user_message new_id now s h =
      resume_busy id user_message now (expire now s) (expire-BusyIn id now s h)

  -- In a store of any past calls, once a `begin` returned the id, every further `begin` of that id
  -- raises ConversationBusyError at any time, through any calls that neither commit nor abort it and draw no new id equal to it.
  pub begin-begin :
      (past later : List Call) (idle_ttl max_conversations : ℕ) (conversation_id : Option Text)
      (user_message new_id user_message' new_id' : Text) (now now' : ℕ) (history : List Message)
      → (begin conversation_id user_message new_id now
          (perform_all past (empty_store idle_ttl max_conversations))).0
        ≡ ok (id, history)
      → All (IsElsewhere id) later
      → (begin (some id) user_message' new_id' now' (
          perform_all later
            (begin conversation_id user_message new_id now
              (perform_all past (empty_store idle_ttl max_conversations))).1)).0
        ≡ raised is_busy
  unfolding perform
  begin-begin past later idle_ttl max_conversations conversation_id user_message new_id
        user_message' new_id' now now' history begun elsewhere =
      let s = perform_all past (empty_store idle_ttl max_conversations) in
      let store =
        perform_all-IsStore max_conversations past (empty_store idle_ttl max_conversations)
          (tt, refl) in
      let begun_store =
        perform-IsStore max_conversations (begin_call conversation_id user_message new_id now) s
          store in
      let s' = (begin conversation_id user_message new_id now s).1 in
      rw
        (begin_busy_lem user_message' new_id' now' (perform_all later s') (
          perform_all-BusyIn id later s' elsewhere begun_store.0
            (begin-Occupies conversation_id user_message new_id now s history begun)))
        refl
