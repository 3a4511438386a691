-- ===== src/PluginAuth/Challenges/Bounded.antt =====
-- The outstanding nonces never pass the cap, and only the soonest to expire is evicted.
use nomothetic.Base.{
  ℕ, ◌+◌, ◌≤◌, ◌<◌, ◌≡◌, refl, true, List, [], ◌∷◌, arith, length, ltb, Result, ok, raised, is_some,
  inl, inr, Bool-cases, Option-cases,
}
use nomothetic.Base.Text.{Text, text_eq_refl}
use nomothetic.Base.Dict
use nomothetic.Base.Dict.{
  Dict, Distinct, get-put, get-remove, get-retain, length-put, length-remove-lt, length-remove-le,
  length-retain-le, retain-Distinct,
}
use nomothetic.PluginAuth.Challenges.{
  Challenge, ChallengeStore, sweep, oldest_of, make_room, add, ValueError, issue, consume,
}

oldest_of-held :
    (best : Text) (first : Challenge) (expiry : ℕ) (rest : Dict Challenge)
    → is_some (Dict.get ((best, first) ∷ rest) (oldest_of best expiry rest)) ≡ true
unfolding oldest_of Dict.get
oldest_of-held best first expiry [] = ground (arith, text_eq_refl best)
oldest_of-held best first expiry ((nonce, c) ∷ rest) = elim (Bool-cases (ltb c.expires_at expiry)) [
  | inl earlier ↦ rw earlier (ground (arith, oldest_of-held nonce c c.expires_at rest))
  | inr later ↦ rw later (ground (arith, oldest_of-held best first expiry rest))
]

-- An evicted entry leaves room for one.
length-make_room :
    (max : ℕ) (pending left : Dict Challenge)
    → 0 < max
    → length pending ≤ max
    → make_room max pending ≡ ok left
    → length left + 1 ≤ max
unfolding make_room
length-make_room max [] left h k e = ground (arith, e)
length-make_room max ((nonce, c) ∷ rest) left h k e =
    let o = oldest_of nonce c.expires_at rest in
    elim (Option-cases (Dict.get ((nonce, c) ∷ rest) o)) [
      | inl absent ↦ absurd (ground (arith, absent, oldest_of-held nonce c c.expires_at rest))
      | inr (x, held) ↦ ground (arith, e, length-remove-lt ((nonce, c) ∷ rest) o x held)
    ]

-- A call of the store.
pub data Call : Type 0 where
  issue_call consume_call : (plugin nonce : Text) (now : ℕ) → Call

unfoldable pub perform : Call → ChallengeStore → ChallengeStore
perform (issue_call plugin nonce now) s = (issue plugin nonce now s).1
perform (consume_call plugin nonce now) s = (consume plugin nonce now s).1

unfoldable pub perform_all : List Call → ChallengeStore → ChallengeStore
perform_all [] s = s
perform_all (c ∷ calls) s = perform_all calls (perform c s)

record IsBounded (max : ℕ) (s : ChallengeStore) : Type 0 where
  cap : s.max ≡ max
  fits : length s.pending ≤ max

length-sweep-le : (now : ℕ) (pending : Dict Challenge) → length (sweep now pending) ≤ length pending
unfolding sweep
length-sweep-le now pending = length-retain-le _ pending

length-put-le :
    (d : Dict Challenge) (k : Text) (v : Challenge) → length (Dict.put d k v) ≤ length d + 1
length-put-le d k v = ground (arith, length-put d k v)

issue-IsBounded :
    (max : ℕ) (plugin nonce : Text) (now : ℕ) (s : ChallengeStore)
    → 0 < max
    → IsBounded max s
    → IsBounded max (issue plugin nonce now s).1
unfolding issue
issue-IsBounded max plugin nonce now s h b = go (make_room s.max swept) refl
  where
    swept : Dict Challenge
    swept = sweep now s.pending

    go :
        (r : Result ValueError (Dict Challenge))
        → make_room s.max swept ≡ r
        → IsBounded max (add plugin nonce now (record s { pending = swept }) r).1
    go (raised e) p = record {
      cap = b.cap;
      fits = omega (arith, length-sweep-le now s.pending, b.fits);
    }
    go (ok left) p =
        let e : Challenge = record { plugin = plugin; expires_at = now + s.ttl } in
        record {
          cap = b.cap;
          fits = omega (
            arith,
            length-put-le left nonce e,
            length-make_room max swept left h (omega (arith, length-sweep-le now s.pending, b.fits))
                (rw (← b.cap) p),
          );
        }

perform-IsBounded :
    (max : ℕ) (c : Call) (s : ChallengeStore)
    → 0 < max
    → IsBounded max s
    → IsBounded max (perform c s)
unfolding perform consume
perform-IsBounded max (consume_call plugin nonce now) s h b = record {
  cap = b.cap;
  fits = ground (arith, length-remove-le s.pending nonce);
}
perform-IsBounded max (issue_call plugin nonce now) s h b =
    issue-IsBounded max plugin nonce now s h b

perform_all_keeps :
    (max : ℕ) (calls : List Call) (s : ChallengeStore)
    → 0 < max
    → IsBounded max s
    → IsBounded max (perform_all calls s)
unfolding perform_all
perform_all_keeps max [] s h b = b
perform_all_keeps max (c ∷ calls) s h b =
    perform_all_keeps max calls (perform c s) h (perform-IsBounded max c s h b)

-- From an empty store with a positive cap, whatever the nonces issued and consumed, the outstanding
-- nonces never number more than the cap.
pub length-perform_all-le :
    (ttl max : ℕ) (calls : List Call)
    → 0 < max
    → length (perform_all calls (record { ttl = ttl; max = max; pending = [] })).pending ≤ max
length-perform_all-le ttl max calls h =
    (perform_all_keeps max calls _ h (record { cap = refl; fits = omega arith })).fits
