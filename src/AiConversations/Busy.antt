-- ===== src/AiConversations/Busy.antt =====
-- A conversation with a command running: through which calls it stays.
use mathlib.Core.Path.{subst}
use nomothetic.Base.{
  ℕ, ◌≡◌, ◌≢◌, inl, inr, refl, sym, Bool, true, false, not, Option, none, some, List, [], ◌∷◌, ◌++◌,
  length, All, arith, Bool-cases, raised, if◌then◌else◌,
}
use nomothetic.Base.Text.{Text, text_eq, text_eq_iff, text_ne}
use nomothetic.Base.Dict
use nomothetic.Base.Dict.{Dict, Distinct, get-put, get-remove, get-retain-kept, remove-Distinct}
use nomothetic.AiConversations.{
  Conversation, AiConversationStore, new_conversation, is_busy, is_stale, said, user, assistant,
  trim_history, max_history_messages, expire, make_room, enter, resume, begin, commit_found, commit,
  release, abort_found, abort, Message,
}
use nomothetic.AiConversations.Eviction.{make_room_loop_keeps, least_idle-ne, IsBusy}
use nomothetic.AiConversations.History.{
  Call, begin_call, commit_call, abort_call, perform, perform_all,
}
use nomothetic.AiConversations.Room.{perform-IsStore, expire-IsStore}

-- The call is no end of the command in `id`, and draws no id that is `id`.
abbrev pub IsElsewhere : Text → Call → Type 0
IsElsewhere id (begin_call conversation_id user_message new_id now) = new_id ≢ id
IsElsewhere id (commit_call conversation_id user_message reply now) = conversation_id ≢ id
IsElsewhere id (abort_call conversation_id) = conversation_id ≢ id

pub text_ne_false : (s t : Text) → s ≢ t → text_eq s t ≡ false
text_ne_false s t apart = elim (Bool-cases (text_eq s t)) [
  | inl same ↦ absurd (apart ((text_eq_iff s t).0 same))
  | inr other ↦ other
]

module _ (id : Text) where
  abbrev pub BusyIn : Dict Conversation → Type 0
  BusyIn d = (conv : Conversation) × (Dict.get d id ≡ some conv) × IsBusy conv

  pub put-BusyIn :
      (d : Dict Conversation) (cid : Text) (conv : Conversation)
      → cid ≢ id
      → BusyIn d
      → BusyIn (Dict.put d cid conv)
  put-BusyIn d cid conv apart (c, found, busy) =
      (c, ground (arith, get-put d cid id conv, text_eq_iff cid id, apart, found), busy)

  remove-BusyIn :
      (d : Dict Conversation) (cid : Text)
      → text_eq cid id ≡ false
      → BusyIn d
      → BusyIn (Dict.remove d cid)
  remove-BusyIn d cid other (c, found, busy) =
      (c, ground (arith, get-remove d cid id, other, found), busy)

  pub expire-BusyIn :
      (now : ℕ) (s : AiConversationStore)
      → BusyIn s.conversations
      → BusyIn (expire now s).conversations
  unfolding expire
  expire-BusyIn now s (c, found, busy) = (
    c,
    get-retain-kept (λ cid conv. not (is_stale s.idle_ttl now cid conv)) s.conversations id c found
        (ground (arith, busy)),
    busy,
  )

  -- What the eviction keeps.
  abbrev Kept : Dict Conversation → Type 0
  Kept d = Distinct d × BusyIn d

  make_room-BusyIn :
      (s : AiConversationStore)
      → Distinct s.conversations
      → BusyIn s.conversations
      → BusyIn (make_room s).conversations
  unfolding make_room
  make_room-BusyIn s distinct h =
      (make_room_loop_keeps Kept (length s.conversations) s.max_conversations s.conversations
        (λ d cid least (distinct', held). (
          remove-Distinct d cid distinct',
          remove-BusyIn d cid (least_idle-ne d cid id held.0 distinct' least held.1 held.2) held,
        ))
        (distinct, h)).1

  pub resume_busy :
      (user_message : Text) (now : ℕ) (s : AiConversationStore)
      → BusyIn s.conversations
      → resume id user_message now (Dict.get s.conversations id) s ≡ (raised is_busy, s)
  unfolding resume
  resume_busy user_message now s (c, found, busy) = rw found (rw busy refl)

  resume-BusyIn :
      (cid user_message : Text) (now : ℕ) (s : AiConversationStore)
      → cid ≢ id
      → BusyIn s.conversations
      → BusyIn (resume cid user_message now (Dict.get s.conversations cid) s).1.conversations
  unfolding resume enter
  resume-BusyIn cid user_message now s apart h = go (Dict.get s.conversations cid)
    where
      entered :
          (c : Conversation) (b : Bool)
          → BusyIn
              (if b then (raised is_busy, s) else enter cid user_message now c s).1.conversations
      entered c true = h
      entered c false =
          put-BusyIn s.conversations cid (record c { last_used = now; busy = true }) apart h

      go :
          (found : Option Conversation)
          → BusyIn (resume cid user_message now found s).1.conversations
      go none = h
      go (some conv) = entered conv conv.busy

  begin-BusyIn :
      (conversation_id : Option Text) (user_message new_id : Text) (now : ℕ)
      (s : AiConversationStore)
      → new_id ≢ id
      → Distinct s.conversations
      → BusyIn s.conversations
      → BusyIn (begin conversation_id user_message new_id now s).1.conversations
  unfolding begin enter
  begin-BusyIn none user_message new_id now s apart distinct h =
      let kept =
        make_room-BusyIn (expire now s)
          (expire-IsStore s.max_conversations now s (distinct, refl)).0 (expire-BusyIn now s h) in
      let d = (make_room (expire now s)).conversations in
      put-BusyIn (Dict.put d new_id new_conversation) new_id
        (record { messages = []; last_used = now; busy = true }) apart
        (put-BusyIn d new_id new_conversation apart kept)
  begin-BusyIn (some cid) user_message new_id now s apart distinct h =
      elim (Bool-cases (text_eq cid id)) [
        | inl same ↦
            let e : id ≡ cid = sym ((text_eq_iff cid id).0 same) in
            subst
              (λ t.
                BusyIn
                  (resume t user_message now (Dict.get (expire now s).conversations t)
                    (expire now s)).1.conversations)
              e
              (rw (resume_busy user_message now (expire now s) (expire-BusyIn now s h))
                (expire-BusyIn now s h))
        | inr other ↦
            resume-BusyIn cid user_message now (expire now s) (text_ne cid id other)
              (expire-BusyIn now s h)
      ]

  perform-BusyIn :
      (call : Call) (s : AiConversationStore)
      → IsElsewhere id call
      → Distinct s.conversations
      → BusyIn s.conversations
      → BusyIn (perform call s).conversations
  unfolding perform commit abort commit_found
  perform-BusyIn (begin_call conversation_id user_message new_id now) s apart distinct h =
      begin-BusyIn conversation_id user_message new_id now s apart distinct h
  perform-BusyIn (commit_call cid user_message reply now) s apart distinct h =
      go (Dict.get s.conversations cid)
    where
      go :
          (found : Option Conversation)
          → BusyIn (commit_found cid user_message reply now found s).conversations
      go none = h
      go (some conv) =
          put-BusyIn s.conversations cid
            (record {
              messages =
                  trim_history max_history_messages
                    (conv.messages ++ said user user_message ∷ said assistant reply ∷ []);
              last_used = now;
              busy = false;
            })
            apart h
  perform-BusyIn (abort_call cid) s apart distinct h = go (Dict.get s.conversations cid)
    where
      released :
          (conv : Conversation) (messages : List Message)
          → BusyIn (release cid conv messages s).conversations
      released conv [] = remove-BusyIn s.conversations cid (text_ne_false cid id apart) h
      released conv (m ∷ messages) =
          put-BusyIn s.conversations cid (record conv { busy = false }) apart h

      go : (found : Option Conversation) → BusyIn (abort_found cid found s).conversations
      go none = h
      go (some conv) = released conv conv.messages

  pub perform_all-BusyIn :
      (calls : List Call) (s : AiConversationStore)
      → All (IsElsewhere id) calls
      → Distinct s.conversations
      → BusyIn s.conversations
      → BusyIn (perform_all calls s).conversations
  unfolding perform_all
  perform_all-BusyIn [] s elsewhere distinct h = h
  perform_all-BusyIn (call ∷ calls) s elsewhere distinct h =
      perform_all-BusyIn calls (perform call s) elsewhere.1
        (perform-IsStore s.max_conversations call s (distinct, refl)).0
        (perform-BusyIn call s elsewhere.0 distinct h)
