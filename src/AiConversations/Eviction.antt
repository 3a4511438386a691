-- ===== src/AiConversations/Eviction.antt =====
-- `_make_room`: what its loop keeps, which conversation it evicts, and that its rounds are enough.
use nomothetic.Base.{
  ℕ, zero, suc, ◌≤◌, ◌<◌, ◌≡◌, ◌≢◌, ◌⊎◌, inl, inr, refl, true, false, not, ◌&&◌, Option, none, some,
  [], ◌∷◌, length, leb, arith, Bool-cases,
}
use nomothetic.Base.Text.{Text, text_eq, text_eq_iff}
use nomothetic.Base.Dict
use nomothetic.Base.Dict.{Dict, Distinct, AllValues, length-remove-lt, remove-Distinct}
use nomothetic.AiConversations.{Conversation, before_pair, least_idle, room_round, make_room_loop}

-- A property that the eviction of the least idle conversation keeps is kept by the loop.
pub make_room_loop_keeps :
    (Q : Dict Conversation → Type 0) (fuel max_conversations : ℕ) (d : Dict Conversation)
    → ((d : Dict Conversation) (cid : Text)
        → least_idle none d ≡ some cid
        → Q d
        → Q (Dict.remove d cid))
    → Q d
    → Q (make_room_loop fuel max_conversations d)
unfolding make_room_loop room_round
make_room_loop_keeps Q zero max_conversations d evict h = h
make_room_loop_keeps Q (suc fuel) max_conversations d evict h =
    go (least_idle none d) refl (λ left. make_room_loop_keeps Q fuel max_conversations left evict)
  where
    go :
        (o : Option Text)
        → least_idle none d ≡ o
        → ((left : Dict Conversation) → Q left → Q (make_room_loop fuel max_conversations left))
        → Q (elim (room_round max_conversations d o) [
          | none ↦ d
          | some left ↦ make_room_loop fuel max_conversations left
        ])
    go none e rest = h
    go (some cid) e rest = elim (Bool-cases (leb max_conversations (length d))) [
      | inl full ↦ rw full (rest (Dict.remove d cid) (evict d cid e h))
      | inr room ↦ rw room h
    ]

abbrev pub IsBusy : Conversation → Type 0
IsBusy conv = conv.busy ≡ true

-- An idle conversation is under the key.
abbrev pub IsIdleAt : Dict Conversation → Text → Type 0
IsIdleAt d cid = (conv : Conversation) × (Dict.get d cid ≡ some conv) × (conv.busy ≡ false)

here-IsIdleAt :
    (k cid : Text) (conv : Conversation) (rest : Dict Conversation)
    → conv.busy ≡ false
    → cid ≡ k
    → IsIdleAt ((k, conv) ∷ rest) cid
unfolding Dict.get
here-IsIdleAt k cid conv rest idle same = (conv, ground (arith, text_eq_iff k cid, same), idle)

there-IsIdleAt :
    (k cid : Text) (conv : Conversation) (rest : Dict Conversation)
    → Dict.get rest k ≡ none
    → IsIdleAt rest cid
    → IsIdleAt ((k, conv) ∷ rest) cid
unfolding Dict.get
there-IsIdleAt k cid conv rest fresh (c, found, idle) = elim (Bool-cases (text_eq k cid)) [
  | inl same ↦ let e = (text_eq_iff k cid).0 same in absurd (ground (arith, e, fresh, found))
  | inr other ↦ (c, rw other found, idle)
]

-- The least idle conversation is the best one so far, or an idle one of the dict.
abbrev Found : Option (ℕ × Text) → Dict Conversation → Text → Type 0
Found none d cid = IsIdleAt d cid
Found (some (used, best)) d cid = (cid ≡ best) ⊎ IsIdleAt d cid

least_idle-Found :
    (acc : Option (ℕ × Text)) (d : Dict Conversation) (cid : Text)
    → Distinct d
    → least_idle acc d ≡ some cid
    → Found acc d cid
unfolding least_idle
least_idle-Found none [] cid distinct h = absurd (ground (arith, h))
least_idle-Found (some (used, best)) [] cid distinct h = inl (ground (arith, h))
least_idle-Found none ((k, conv) ∷ rest) cid distinct h = elim (Bool-cases conv.busy) [
  | inl busy ↦
      there-IsIdleAt k cid conv rest distinct.0
        (least_idle-Found none rest cid distinct.1 (rw (busy, least_idle) at h))
  | inr idle ↦
      elim (least_idle-Found (some (conv.last_used, k)) rest cid distinct.1
        (rw (idle, least_idle) at h)) [
          | inl same ↦ here-IsIdleAt k cid conv rest idle same
          | inr later ↦ there-IsIdleAt k cid conv rest distinct.0 later
        ]
]
least_idle-Found (some (used, best)) ((k, conv) ∷ rest) cid distinct h =
    elim (Bool-cases (not conv.busy && before_pair conv.last_used k used best)) [
      | inl better ↦
          elim (least_idle-Found (some (conv.last_used, k)) rest cid distinct.1
            (rw (better, least_idle) at h)) [
              | inl same ↦ inr (here-IsIdleAt k cid conv rest (ground (arith, better)) same)
              | inr later ↦ inr (there-IsIdleAt k cid conv rest distinct.0 later)
            ]
      | inr worse ↦
          elim (least_idle-Found (some (used, best)) rest cid distinct.1
            (rw (worse, least_idle) at h)) [
              | inl same ↦ inl same
              | inr later ↦ inr (there-IsIdleAt k cid conv rest distinct.0 later)
            ]
    ]

-- Where there is none, every conversation is busy.
some_acc : (acc : ℕ × Text) (d : Dict Conversation) → least_idle (some acc) d ≢ none
unfolding least_idle
some_acc (used, best) [] h = absurd (ground (arith, h))
some_acc (used, best) ((k, conv) ∷ rest) h =
    elim (Bool-cases (not conv.busy && before_pair conv.last_used k used best)) [
      | inl better ↦ some_acc (conv.last_used, k) rest (rw (better, least_idle) at h)
      | inr worse ↦ some_acc (used, best) rest (rw (worse, least_idle) at h)
    ]

pub least_idle-none : (d : Dict Conversation) → least_idle none d ≡ none → AllValues IsBusy d
unfolding least_idle
least_idle-none [] h = tt
least_idle-none ((k, conv) ∷ rest) h = elim (Bool-cases conv.busy) [
  | inl busy ↦ (busy, least_idle-none rest (rw (busy, least_idle) at h))
  | inr idle ↦ absurd (some_acc (conv.last_used, k) rest (rw (idle, least_idle) at h))
]

-- The loop ends with room, or with nothing idle.
pub make_room_loop_room :
    (fuel max_conversations : ℕ) (d : Dict Conversation)
    → Distinct d
    → length d ≤ fuel
    → (length (make_room_loop fuel max_conversations d) < max_conversations)
      ⊎ AllValues IsBusy (make_room_loop fuel max_conversations d)
unfolding make_room_loop room_round
make_room_loop_room zero max_conversations [] distinct enough = inr tt
make_room_loop_room zero max_conversations ((k, conv) ∷ d) distinct enough =
    absurd (omega (arith, enough))
make_room_loop_room (suc fuel) max_conversations d distinct enough =
    go (least_idle none d) refl
      (λ left distinct' short. make_room_loop_room fuel max_conversations left distinct' short)
  where
    Ends : Dict Conversation → Type 0
    Ends r = (length r < max_conversations) ⊎ AllValues IsBusy r

    go :
        (o : Option Text)
        → least_idle none d ≡ o
        → ((left : Dict Conversation)
            → Distinct left
            → length left ≤ fuel
            → Ends (make_room_loop fuel max_conversations left))
        → Ends (elim (room_round max_conversations d o) [
          | none ↦ d
          | some left ↦ make_room_loop fuel max_conversations left
        ])
    go none e rest = inr (least_idle-none d e)
    go (some cid) e rest = elim (Bool-cases (leb max_conversations (length d))) [
      | inl full ↦
          let (conv, found, idle) = least_idle-Found none d cid distinct e in
          rw full (
            rest (Dict.remove d cid) (remove-Distinct d cid distinct)
              (omega (arith, enough, length-remove-lt d cid conv found)))
      | inr room ↦ rw room (inl (ground (arith, room)))
    ]

-- What is busy is not evicted.
pub least_idle-ne :
    (d : Dict Conversation) (cid busy_id : Text) (conv : Conversation)
    → Distinct d
    → least_idle none d ≡ some cid
    → Dict.get d busy_id ≡ some conv
    → IsBusy conv
    → text_eq cid busy_id ≡ false
least_idle-ne d cid busy_id conv distinct least found busy =
    elim (Bool-cases (text_eq cid busy_id)) [
      | inl same ↦
          let e = (text_eq_iff cid busy_id).0 same in
          let (c, there, idle) = least_idle-Found none d cid distinct least in
          absurd (ground (arith, e, there, idle, found, busy))
      | inr other ↦ other
    ]
