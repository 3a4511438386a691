-- ===== src/PluginAuth/Challenges/SingleUse.antt =====
-- A nonce is accepted at most once, for its plugin and in its lifetime.
use nomothetic.Base.{
  ℕ, ◌+◌, ◌<◌, ◌≡◌, ◌≢◌, refl, false, none, List, [], ◌∷◌, arith, length, leb, Result, ok, raised,
  if◌then◌else◌, Bool-cases, inl, inr,
}
use nomothetic.Base.Text.{Text, text_eq_refl, text_eq_iff}
use nomothetic.Base.Dict
use nomothetic.Base.Dict.{Dict, get-put, get-remove, get-retain-none}
use nomothetic.Pairing.{compare_digest}
use nomothetic.PluginAuth.Challenges.{
  Challenge, ChallengeStore, ValueError, oldest_of, sweep, add, make_room, issue, consume,
}
use nomothetic.PluginAuth.Challenges.Bounded.{Call, issue_call, consume_call, perform, perform_all}

-- The calls issue no nonce of that text.
abbrev pub NotIssued : Text → List Call → Type 0
NotIssued nonce [] = Unit
NotIssued nonce (issue_call plugin other now ∷ calls) = (other ≢ nonce) × NotIssued nonce calls
NotIssued nonce (consume_call plugin other now ∷ calls) = NotIssued nonce calls

-- Making room adds nothing.
get-make_room :
    (max : ℕ) (pending left : Dict Challenge) (nonce : Text)
    → make_room max pending ≡ ok left
    → Dict.get pending nonce ≡ none
    → Dict.get left nonce ≡ none
unfolding make_room
get-make_room max [] left nonce e h = elim (Bool-cases (leb max 0)) [
  | inl full ↦ ground (arith, e, full)
  | inr room ↦ ground (arith, e, room, h)
]
get-make_room max ((other, c) ∷ rest) left nonce e h =
    ground (arith, e, h, get-remove ((other, c) ∷ rest) (oldest_of other c.expires_at rest) nonce)

pub get-issue :
    (plugin other : Text) (now : ℕ) (nonce : Text) (s : ChallengeStore)
    → other ≢ nonce
    → Dict.get s.pending nonce ≡ none
    → Dict.get (issue plugin other now s).1.pending nonce ≡ none
unfolding issue
get-issue plugin other now nonce s h k = go (make_room s.max swept) refl
  where
    swept : Dict Challenge
    swept = sweep now s.pending

    absent : Dict.get swept nonce ≡ none
    absent = unfold sweep in get-retain-none _ s.pending nonce k

    go :
        (r : Result ValueError (Dict Challenge))
        → make_room s.max swept ≡ r
        → Dict.get (add plugin other now (record s { pending = swept }) r).1.pending nonce ≡ none
    go (raised e) p = absent
    go (ok left) p =
        simp get-put
          (ground (arith, text_eq_iff other nonce, get-make_room s.max swept left nonce p absent))

get-perform_all :
    (nonce : Text) (calls : List Call) (s : ChallengeStore)
    → NotIssued nonce calls
    → Dict.get s.pending nonce ≡ none
    → Dict.get (perform_all calls s).pending nonce ≡ none
unfolding perform_all perform consume
get-perform_all nonce [] s h k = k
get-perform_all nonce (issue_call plugin other now ∷ calls) s h k =
    get-perform_all nonce calls _ h.1 (get-issue plugin other now nonce s h.0 k)
get-perform_all nonce (consume_call plugin other now ∷ calls) s h k =
    get-perform_all nonce calls _ h (ground (arith, get-remove s.pending other nonce))

-- A nonce is good for one attempt: after it was presented once, by whoever and with whatever
-- answer, it is refused, whatever is issued and consumed in between, unless the same text is
-- issued again.
pub consume-consume :
    (first second nonce : Text) (now later : ℕ) (calls : List Call) (s : ChallengeStore)
    → NotIssued nonce calls
    → (consume second nonce later (perform_all calls (consume first nonce now s).1)).0 ≡ ok false
unfolding consume
consume-consume first second nonce now later calls s h =
    let gone : Dict.get (Dict.remove s.pending nonce) nonce ≡ none =
      ground (arith, get-remove s.pending nonce nonce, text_eq_refl nonce) in
    rw (get-perform_all nonce calls (record s { pending = Dict.remove s.pending nonce }) h gone)
      refl

make_room-ok :
    (max : ℕ) (pending : Dict Challenge)
    → 0 < max
    → (left : Dict Challenge) × (make_room max pending ≡ ok left)
unfolding make_room
make_room-ok max [] h = ([], ground arith)
make_room-ok max ((other, c) ∷ rest) h = elim (Bool-cases (leb max (length ((other, c) ∷ rest)))) [
  | inl full ↦ (Dict.remove ((other, c) ∷ rest) (oldest_of other c.expires_at rest), rw full)
  | inr room ↦ ((other, c) ∷ rest, rw room)
]

-- With a positive cap a nonce is always issued. Up to its expiry it is then answered by comparing the
-- plugin that it was issued to with the caller: accepted where they are equal, refused where they
-- differ, and a TypeError where one of the two is not ASCII. After it, it is refused.
pub consume-issue :
    (plugin caller nonce : Text) (now later : ℕ) (s : ChallengeStore)
    → 0 < s.max
    → ((issue plugin nonce now s).0 ≡ ok (nonce, s.ttl))
      × ((consume caller nonce later (issue plugin nonce now s).1).0
          ≡ (if leb later (now + s.ttl) then compare_digest plugin caller else ok false))
unfolding consume issue
consume-issue plugin caller nonce now later s h =
    let (left, e) = make_room-ok s.max (sweep now s.pending) h in
    let c : Challenge = record { plugin = plugin; expires_at = now + s.ttl } in
    rw e (refl, ground (arith, get-put left nonce nonce c, text_eq_refl nonce))
