-- ===== src/RateLimit/Window.antt =====
-- The guarantee of the sliding window, over any sequence of requests.
use nomothetic.Base.{
  ℕ, ◌+◌, ◌≤◌, ◌≡◌, refl, ap, ◌∙◌, Bool, false, ◌&&◌, List, [], ◌∷◌, ◌++◌, arith, ltb, leb, length,
  keep, is_ok, ok, raised, if◌then◌else◌, Bool-cases, inl, inr, keep-keep, keep-append,
  length-append, length-keep_mono,
}
use nomothetic.Base.Text.{Text, text_eq, text_eq_iff, text_eq_refl}
use nomothetic.Base.Dict
use nomothetic.Base.Dict.{get-put}
use nomothetic.RateLimit.{
  RateLimiter, limiter, stamps, set_stamps, is_live, clean_old, check, too_many_requests,
  stamps-set_stamps,
}

-- A request: who asks, and the clock at that moment.
abbrev pub Arrival : Type 0
Arrival = Text × ℕ

pub record Run : Type 0 where
  pub state : RateLimiter
  pub admitted : List Arrival

abbrev pub step : Run → Arrival → Run
step r a =
    let (result, l) = check a.0 a.1 r.state in
    record { state = l; admitted = if is_ok result then a ∷ r.admitted else r.admitted }

-- The limiter over the requests in turn, with a log of those that it let pass, the latest first.
unfoldable pub run : Run → List Arrival → Run
run r [] = r
run r (a ∷ rest) = run (step r a) rest

-- The clock does not go back.
abbrev pub Ascending : ℕ → List Arrival → Type 0
Ascending from [] = Unit
Ascending from (a ∷ rest) = (from ≤ a.1) × Ascending a.1 rest

abbrev pub live_of : ℕ → Text → ℕ → Arrival → Bool
live_of window key now a = text_eq a.0 key && is_live window now a.1

-- The requests of `key` in the window that ends at `end`.
abbrev pub in_window : ℕ → Text → ℕ → Arrival → Bool
in_window window key end a = leb a.1 end && live_of window key end a

module _ (key : Text) (now : ℕ) (l : RateLimiter) where
  -- What the limiter keeps of a key once its old entries are gone.
  abbrev cleaned : List ℕ
  cleaned = keep (is_live l.window_seconds now) (stamps l key)

  stamps-clean_old_self : stamps (clean_old l key now) key ≡ cleaned
  unfolding clean_old
  stamps-clean_old_self = simp (stamps-set_stamps, text_eq_refl)

  -- One request, in terms of what it keeps.
  check_lem : check key now l ≡ (
      if leb l.max_requests (length cleaned)
      then (raised too_many_requests, clean_old l key now)
      else (ok tt, set_stamps (clean_old l key now) key (cleaned ++ now ∷ [])))
  unfolding check
  check_lem = rw (stamps-clean_old_self, max_requests-clean_old) refl
    where
      max_requests-clean_old : (clean_old l key now).max_requests ≡ l.max_requests
      max_requests-clean_old = unfold clean_old set_stamps in refl

  -- Cleaning at `now` hides nothing that a later clock would count.
  keep-clean_old :
      (other : Text) (at : ℕ)
      → now ≤ at
      → keep (is_live l.window_seconds at) (stamps (clean_old l key now) other)
        ≡ keep (is_live l.window_seconds at) (stamps l other)
  unfolding clean_old
  keep-clean_old other at h = ground (
    arith,
    stamps-set_stamps l key other cleaned,
    text_eq_iff key other,
    keep-keep (is_live l.window_seconds at) (is_live l.window_seconds now) (stamps l key)
        (λ ts live. ground arith),
  )

  length-keep-admitted :
      (other : Text) (at : ℕ)
      → now ≤ at
      → length (
          keep
            (is_live l.window_seconds at)
            (stamps (set_stamps (clean_old l key now) key (cleaned ++ now ∷ [])) other))
        ≡ length (keep (is_live l.window_seconds at) (stamps l other))
          + (if live_of l.window_seconds other at (key, now) then 1 else 0)
  length-keep-admitted other at h = elim (Bool-cases (text_eq key other)) [
    | inl same ↦
        simp (stamps-set_stamps, same, keep-append, length-append)
          (ground (
            arith,
            keep-clean_old other at h,
            stamps-clean_old_self,
            (text_eq_iff key other).0 same,
          ))
    | inr different ↦
        simp (stamps-set_stamps, different) (ground (arith, keep-clean_old other at h))
  ]

-- At the clock `now` the kept entries count the admitted requests, and no window is overfull.
record IsTracked (now : ℕ) (r : Run) : Type 0 where
  counts :
      (key : Text) (at : ℕ)
      → now ≤ at
      → length (keep (is_live r.state.window_seconds at) (stamps r.state key))
        ≡ length (keep (live_of r.state.window_seconds key at) r.admitted)
  bounded :
      (key : Text) (end : ℕ)
      → length (keep (in_window r.state.window_seconds key end) r.admitted) ≤ r.state.max_requests

module _ (from : ℕ) (key : Text) (now : ℕ) (r : Run) (h : from ≤ now) (t : IsTracked from r) where
  abbrev window : ℕ
  window = r.state.window_seconds

  rejected-IsTracked :
      IsTracked now (record { state = clean_old r.state key now; admitted = r.admitted })
  unfolding clean_old set_stamps
  rejected-IsTracked = record {
    counts = λ other at later.
        ap length (keep-clean_old key now r.state other at later) ∙ t.counts other at (omega arith);
    bounded = t.bounded;
  }

  counts-admitted :
      (other : Text) (at : ℕ)
      → now ≤ at
      → length (
          keep (is_live window at) (
            stamps
              (set_stamps (clean_old r.state key now) key (cleaned key now r.state ++ now ∷ []))
              other))
        ≡ length (keep (live_of window other at) ((key, now) ∷ r.admitted))
  counts-admitted other at later =
      length-keep-admitted key now r.state other at later
      ∙ ground (arith, t.counts other at (omega arith))

  -- A new entry counts in a window that ends after it, and there the cleaned list had room.
  bounded-admitted :
      leb r.state.max_requests (length (cleaned key now r.state)) ≡ false
      → (other : Text) (end : ℕ)
      → length (keep (in_window window other end) ((key, now) ∷ r.admitted)) ≤ r.state.max_requests
  bounded-admitted room other end = elim (Bool-cases (leb now end && text_eq key other)) [
    | inl counted ↦ ground (
      arith,
      text_eq_iff key other,
      t.counts other end (ground arith),
      length-keep_mono (in_window window other end) (live_of window other end) r.admitted
          (λ a p. ground arith),
      length-keep_mono (is_live window end) (is_live window now) (stamps r.state key)
          (λ ts p. ground arith),
    )
    | inr outside ↦ ground (arith, t.bounded other end)
  ]

  admitted-IsTracked :
      leb r.state.max_requests (length (cleaned key now r.state)) ≡ false
      → IsTracked now (record {
        state = set_stamps (clean_old r.state key now) key (cleaned key now r.state ++ now ∷ []);
        admitted = (key, now) ∷ r.admitted;
      })
  unfolding clean_old set_stamps
  admitted-IsTracked room = record { counts = counts-admitted; bounded = bounded-admitted room }

step-IsTracked :
    (from : ℕ) (a : Arrival) (r : Run) → from ≤ a.1 → IsTracked from r → IsTracked a.1 (step r a)
step-IsTracked from (key, now) r h t =
    elim (Bool-cases (leb r.state.max_requests (length (cleaned key now r.state)))) [
      | inl full ↦ rw (check_lem, full) (rejected-IsTracked from key now r h t)
      | inr room ↦ rw (check_lem, room) (admitted-IsTracked from key now r h t room)
    ]

-- The clock of the last request.
abbrev pub last_clock : ℕ → List Arrival → ℕ
last_clock from [] = from
last_clock from (a ∷ rest) = last_clock a.1 rest

run-IsTracked :
    (from : ℕ) (requests : List Arrival) (r : Run)
    → Ascending from requests
    → IsTracked from r
    → IsTracked (last_clock from requests) (run r requests)
unfolding run
run-IsTracked from [] r h t = t
run-IsTracked from (a ∷ rest) r h t =
    run-IsTracked a.1 rest (step r a) h.1 (step-IsTracked from a r h.0 t)

abbrev SameSettings : RateLimiter → RateLimiter → Type 0
SameSettings l m = (l.max_requests ≡ m.max_requests) × (l.window_seconds ≡ m.window_seconds)

settings-check : (key : Text) (now : ℕ) (l : RateLimiter) → SameSettings (check key now l).1 l
unfolding check clean_old set_stamps
settings-check key now l = ground arith

settings-run : (requests : List Arrival) (r : Run) → SameSettings (run r requests).state r.state
unfolding run
settings-run [] r = (refl, refl)
settings-run ((key, now) ∷ rest) r =
    let (max_eq, window_eq) = settings-run rest (step r (key, now)) in
    let (max_eq', window_eq') = settings-check key now r.state in
    (max_eq ∙ max_eq', window_eq ∙ window_eq')

-- A new limiter, which has admitted nothing.
abbrev pub fresh : ℕ → ℕ → Run
fresh max window = record { state = limiter max window; admitted = [] }

fresh-IsTracked : (max window from : ℕ) → IsTracked from (fresh max window)
unfolding stamps
fresh-IsTracked max window from = record {
  counts = λ key at later. unfold Dict.get in refl;
  bounded = λ key end. omega arith;
}

module _ (max window from : ℕ) (requests : List Arrival) (h : Ascending from requests) where
  -- For a clock that does not go back: of the requests of one address that the limiter admits, no
  -- window of `window` ticks holds more than `max`, wherever the window ends.
  pub length-admitted-le :
      (key : Text) (end : ℕ)
      → length (keep (in_window window key end) (run (fresh max window) requests).admitted) ≤ max
  length-admitted-le key end =
      let (max_eq, window_eq) = settings-run requests (fresh max window) in
      rw (max_eq, window_eq) at
        ((run-IsTracked from requests (fresh max window) h
            (fresh-IsTracked max window from)).bounded
          key end)

  -- For a clock that does not go back: the limiter admits the next request of an address exactly
  -- when it has admitted fewer than `max` of that address in the window that ends now, so
  -- rejected requests and those of other addresses cost nothing.
  pub check-eq-ltb :
      (key : Text) (now : ℕ)
      → last_clock from requests ≤ now
      → is_ok (check key now (run (fresh max window) requests).state).0
        ≡ ltb
            (length (keep (live_of window key now) (run (fresh max window) requests).admitted))
            max
  check-eq-ltb key now later =
      let r = run (fresh max window) requests in
      let (max_eq, window_eq) = settings-run requests (fresh max window) in
      let tracked =
        run-IsTracked from requests (fresh max window) h (fresh-IsTracked max window from) in
      rw (check_lem key now r.state)
        (ground (arith, max_eq, window_eq, tracked.counts key now later))
