-- ===== src/AiConversations/Trim.antt =====
-- `trim_history` on histories of committed exchanges.
use nomothetic.Base.{
  ℕ, zero, suc, ◌≤◌, ◌<◌, ◌≡◌, inl, inr, refl, List, [], ◌∷◌, ◌++◌, length, ltb, arith, Bool-cases,
  ltb→lt,
}
use nomothetic.Base.Text.{Text}
use nomothetic.AiConversations.{user, assistant, Message, said, trim_history}

-- User and assistant turns in pairs, each pair an exchange with the property.
abbrev pub IsExchanges : (Text → Text → Type 0) → List Message → Type 0
IsExchanges P [] = Unit
IsExchanges P (m ∷ []) = ⊥
IsExchanges P (m ∷ n ∷ rest) =
    (m.role ≡ user) × (n.role ≡ assistant) × P m.content n.content × IsExchanges P rest

-- Such pairs, and then the new turn of the user.
abbrev pub IsPrompt : (Text → Text → Type 0) → (user_message : Text) → List Message → Type 0
IsPrompt P user_message [] = ⊥
IsPrompt P user_message (m ∷ []) = m ≡ said user user_message
IsPrompt P user_message (m ∷ n ∷ rest) =
    (m.role ≡ user) × (n.role ≡ assistant) × P m.content n.content × IsPrompt P user_message rest

-- `del messages[:2]`, a number of times.
abbrev pub drop_pairs : ℕ → List Message → List Message
drop_pairs zero messages = messages
drop_pairs (suc n) [] = []
drop_pairs (suc n) (m ∷ []) = []
drop_pairs (suc n) (m ∷ k ∷ rest) = drop_pairs n rest

-- The trimmed history has at most `max_messages` turns, and it is what is left of the history when
-- whole pairs are deleted from the front, the least number of pairs that makes it so short.
pub trim_history_drop :
    (max_messages : ℕ) (messages : List Message)
    → (length (trim_history max_messages messages) ≤ max_messages)
      × ((pairs : ℕ) × (trim_history max_messages messages ≡ drop_pairs pairs messages)
          × ((j : ℕ) → j < pairs → max_messages < length (drop_pairs j messages)))
unfolding trim_history
trim_history_drop max_messages [] = (omega arith, (zero, refl, λ j lt. absurd (omega (arith, lt))))
trim_history_drop max_messages (m ∷ []) = elim (Bool-cases (ltb max_messages 1)) [
  | inl long ↦
      rw long (omega arith, (1, refl, λ j lt. at_zero (m ∷ []) j lt (ltb→lt max_messages 1 long)))
  | inr short ↦ rw short (ground (arith, short), (zero, refl, λ j lt. absurd (omega (arith, lt))))
]
  where
    at_zero :
        (l : List Message) (j : ℕ)
        → j < 1
        → max_messages < length l
        → max_messages < length (drop_pairs j l)
    at_zero l zero lt h = h
    at_zero l (suc j) lt h = absurd (omega (arith, lt))
trim_history_drop max_messages (m ∷ n ∷ rest) =
    elim (Bool-cases (ltb max_messages (length (m ∷ n ∷ rest)))) [
      | inl long ↦
          let (bound, (pairs, e, least)) = trim_history_drop max_messages rest in
          rw long (
            bound,
            (
              suc pairs,
              e,
              λ j lt. step pairs j lt least (ltb→lt max_messages (length (m ∷ n ∷ rest)) long),
            ),
          )
      | inr short ↦
          rw short (ground (arith, short), (zero, refl, λ j lt. absurd (omega (arith, lt))))
    ]
  where
    step :
        (pairs j : ℕ)
        → j < suc pairs
        → ((i : ℕ) → i < pairs → max_messages < length (drop_pairs i rest))
        → max_messages < length (m ∷ n ∷ rest)
        → max_messages < length (drop_pairs j (m ∷ n ∷ rest))
    step pairs zero lt least h = h
    step pairs (suc j) lt least h = least j (omega (arith, lt))

module _ (P : Text → Text → Type 0) where
  pub trim-IsExchanges :
      (max_messages : ℕ) (messages : List Message)
      → IsExchanges P messages
      → IsExchanges P (trim_history max_messages messages)
  unfolding trim_history
  trim-IsExchanges max_messages [] h = tt
  trim-IsExchanges max_messages (m ∷ []) h = absurd h
  trim-IsExchanges max_messages (m ∷ n ∷ rest) h =
      elim (Bool-cases (ltb max_messages (length (m ∷ n ∷ rest)))) [
        | inl long ↦ rw long (trim-IsExchanges max_messages rest h.3)
        | inr short ↦ rw short h
      ]

  pub trim-IsPrompt :
      (max_messages : ℕ) (user_message : Text) (messages : List Message)
      → 1 ≤ max_messages
      → IsPrompt P user_message messages
      → IsPrompt P user_message (trim_history max_messages messages)
  unfolding trim_history
  trim-IsPrompt max_messages user_message [] pos h = absurd h
  trim-IsPrompt max_messages user_message (m ∷ []) pos h = elim (Bool-cases (ltb max_messages 1)) [
    | inl long ↦ absurd (ground (arith, long, pos))
    | inr short ↦ rw short h
  ]
  trim-IsPrompt max_messages user_message (m ∷ n ∷ rest) pos h =
      elim (Bool-cases (ltb max_messages (length (m ∷ n ∷ rest)))) [
        | inl long ↦ rw long (trim-IsPrompt max_messages user_message rest pos h.3)
        | inr short ↦ rw short h
      ]

  pub IsExchanges-snoc :
      (messages : List Message) (user_message reply : Text)
      → IsExchanges P messages
      → P user_message reply
      → IsExchanges P (messages ++ said user user_message ∷ said assistant reply ∷ [])
  IsExchanges-snoc [] user_message reply h p = (refl, refl, p, tt)
  IsExchanges-snoc (m ∷ []) user_message reply h p = absurd h
  IsExchanges-snoc (m ∷ n ∷ rest) user_message reply h p =
      (h.0, h.1, h.2, IsExchanges-snoc rest user_message reply h.3 p)

  pub IsPrompt-snoc :
      (messages : List Message) (user_message : Text)
      → IsExchanges P messages
      → IsPrompt P user_message (messages ++ said user user_message ∷ [])
  IsPrompt-snoc [] user_message h = refl
  IsPrompt-snoc (m ∷ []) user_message h = absurd h
  IsPrompt-snoc (m ∷ n ∷ rest) user_message h = (h.0, h.1, h.2, IsPrompt-snoc rest user_message h.3)
