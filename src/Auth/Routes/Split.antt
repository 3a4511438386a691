-- ===== src/Auth/Routes/Split.antt =====
-- `rstrip` and `split` on the tail of a path, and what the event sink's test accepts.
use nomothetic.Base.{
  ℕ, zero, suc, ◌≡◌, ◌≢◌, refl, ◌∙◌, ap, true, List, [], ◌∷◌, ◌++◌, arith, ◌==◌, All, inl, inr,
  Bool-cases, ==_iff,
}
use nomothetic.Base.Text.{Text, text, text_eq_iff, text_eq_refl}
use nomothetic.Auth.Routes.{
  slash, split, cons_head, rstrip, cons_unless_last, is_sink, is_event_sink,
}

abbrev pub NoSlash : Text → Type 0
NoSlash = All (λ c. c ≢ slash)

abbrev pub slashes : ℕ → Text
slashes zero = []
slashes (suc n) = slash ∷ slashes n

-- `rstrip` takes slashes off the end, and none is left there.
rstrip-append : (s : Text) → (n : ℕ) × (rstrip s ++ slashes n ≡ s)
unfolding rstrip
rstrip-append [] = (0, refl)
rstrip-append (c ∷ s) = let (n, e) = rstrip-append s in go c s n (rstrip s) e
  where
    go :
        (c : ℕ) (s : Text) (n : ℕ) (r : Text)
        → r ++ slashes n ≡ s
        → (n : ℕ) × (cons_unless_last c r ++ slashes n ≡ c ∷ s)
    go c s n [] e = elim (Bool-cases (c == slash)) [
      | inl last ↦ (suc n, ground (arith, e))
      | inr other ↦ (n, ground (arith, e))
    ]
    go c s n (d ∷ r) e = (n, cc)

split-ne-nil : (s : Text) → split s ≢ []
unfolding split
split-ne-nil [] h = cc
split-ne-nil (c ∷ s) h = elim (Bool-cases (c == slash)) [
  | inl same ↦ ground (arith, same)
  | inr other ↦ go (split s) (rw other at h)
]
  where
    go : (parts : List Text) → cons_head c parts ≡ [] → ⊥
    go [] e = cc
    go (part ∷ parts) e = cc

-- A text that splits into one part is that part, with no slash.
split_one : (s b : Text) → split s ≡ b ∷ [] → s ≡ b
unfolding split
split_one [] b h = ground arith
split_one (c ∷ s) b h = elim (Bool-cases (c == slash)) [
  | inl same ↦ absurd (split-ne-nil s (ground (arith, same)))
  | inr other ↦ go (split s) refl (split_one s) (rw other at h)
]
  where
    go :
        (parts : List Text)
        → split s ≡ parts
        → ((b : Text) → split s ≡ b ∷ [] → s ≡ b)
        → cons_head c parts ≡ b ∷ []
        → ◌≡◌ {A = Text} (c ∷ s) b
    go [] e ih p = absurd (split-ne-nil s e)
    go (part ∷ []) e ih p = cc (ih part e)
    go (part ∷ other ∷ parts) e ih p = cc

-- A text that splits into two parts is those parts with a slash between, and the first has none.
split_two : (s a b : Text) → split s ≡ a ∷ b ∷ [] → (s ≡ a ++ slash ∷ b) × NoSlash a
unfolding split
split_two [] a b h = absurd (ground arith)
split_two (c ∷ s) a b h = elim (Bool-cases (c == slash)) [
  | inl same ↦
      first (ground (arith, same)) (split_one s b (ground (arith, same))) ((==_iff c slash).0 same)
  | inr other ↦ go (split s) refl (split_two s) (rw other at h) (λ e. absurd (ground (arith, e)))
]
  where
    first : a ≡ [] → s ≡ b → c ≡ slash → (◌≡◌ {A = Text} (c ∷ s) (a ++ slash ∷ b)) × NoSlash a
    first e f g = rw (e, f, g) (refl, tt)

    go :
        (parts : List Text)
        → split s ≡ parts
        → ((a b : Text) → split s ≡ a ∷ b ∷ [] → (s ≡ a ++ slash ∷ b) × NoSlash a)
        → cons_head c parts ≡ a ∷ b ∷ []
        → c ≢ slash
        → (◌≡◌ {A = Text} (c ∷ s) (a ++ slash ∷ b)) × NoSlash a
    go [] e ih p n = absurd (split-ne-nil s e)
    go (part ∷ []) e ih p n = absurd (cc)
    go (part ∷ last ∷ []) e ih p n =
        let (f, g) = ih part last e in
        let h : ◌≡◌ {A = Text} (c ∷ part) a = cc in rw (← h) (cc, (n, g))
    go (part ∷ last ∷ more ∷ parts) e ih p n = absurd (cc)

-- A text with no slash splits into itself.
split-NoSlash : (b : Text) → NoSlash b → split b ≡ b ∷ []
unfolding split
split-NoSlash [] h = refl
split-NoSlash (c ∷ b) h = rw (split-NoSlash b h.1) (ground (arith, h.0))

split-append : (a b : Text) → NoSlash a → NoSlash b → split (a ++ slash ∷ b) ≡ a ∷ b ∷ []
unfolding split
split-append [] b h k = rw (split-NoSlash b k)
split-append (c ∷ a) b h k = rw (split-append a b h.1 k) (ground (arith, h.0))

rstrip-append_slashes : (s : Text) (n : ℕ) → rstrip (s ++ slashes n) ≡ rstrip s
unfolding rstrip
rstrip-append_slashes [] n = go n
  where
    go : (n : ℕ) → rstrip (slashes n) ≡ []
    go zero = refl
    go (suc n) = rw (go n)
rstrip-append_slashes (c ∷ s) n = rw (rstrip-append_slashes s n)

abbrev pub events : Text
events = text "events"

rstrip-events : (name : Text) → rstrip (name ++ slash ∷ events) ≡ name ++ slash ∷ events
unfolding rstrip
rstrip-events [] = refl
rstrip-events (c ∷ []) = refl
rstrip-events (c ∷ d ∷ name) = ap (cons_unless_last c) (rstrip-events (d ∷ name))

-- The tail of a path that names the event sink of one routine: a name that is not empty and holds
-- no slash, `/events`, and any number of slashes.
pub record IsEventSink (tail : Text) : Type 0 where
  pub name : Text
  pub extra : ℕ
  pub named : name ≢ []
  pub one_part : NoSlash name
  pub spelled : tail ≡ (name ++ slash ∷ events) ++ slashes extra

pub is_event_sink_complete : (tail : Text) → IsEventSink tail → is_event_sink tail ≡ true
unfolding is_event_sink
is_event_sink_complete tail sink =
    let stripped : rstrip tail ≡ sink.name ++ slash ∷ events =
      ap rstrip sink.spelled
      ∙ rstrip-append_slashes (sink.name ++ slash ∷ events) sink.extra
      ∙ rstrip-events sink.name in
    rw (stripped, split-append sink.name events sink.one_part (omega arith))
      (go sink.name sink.named)
  where
    go : (name : Text) → name ≢ [] → is_sink (name ∷ events ∷ []) ≡ true
    go [] h = absurd (h refl)
    go (c ∷ name) h = text_eq_refl events

sink_parts :
    (parts : List Text)
    → is_sink parts ≡ true
    → (name : Text) × (name ≢ []) × (parts ≡ name ∷ events ∷ [])
unfolding is_sink
sink_parts ((c ∷ name) ∷ action ∷ []) h = (c ∷ name, cc, cc ((text_eq_iff action events).0 h))
sink_parts [] h = absurd (cc)
sink_parts ([] ∷ parts) h = absurd (cc)
sink_parts ((c ∷ name) ∷ []) h = absurd (cc)
sink_parts ((c ∷ name) ∷ b ∷ d ∷ parts) h = absurd (cc)

pub is_event_sink_sound : (tail : Text) → is_event_sink tail ≡ true → IsEventSink tail
unfolding is_event_sink
is_event_sink_sound tail h =
    let (name, named, parts) = sink_parts (split (rstrip tail)) h in
    let (spelled, one_part) = split_two (rstrip tail) name events parts in
    let (extra, whole) = rstrip-append tail in
    record { name = name; extra = extra; named = named; one_part = one_part; spelled = cc }
