-- ===== src/RoutineLog/Ring.antt =====
-- What a routine's snapshot holds after any reports: the latest events of its latest run.
use mathlib.Core.Path.{subst}
use nomothetic.Base.{
  ℕ, zero, suc, ◌+◌, ◌-◌, ◌≤◌, ◌≡◌, ◌⊎◌, inl, inr, refl, ap, sym, ◌∙◌, false, Option, none, some,
  List, [], ◌∷◌, ◌++◌, length, drop, length-drop, length-append, arith, Bool-cases, Result, ok,
  raised, if◌then◌else◌,
}
use nomothetic.Base.Text.{Text, text_eq, text_eq_iff, text_eq_refl}
use nomothetic.Base.Dict
use nomothetic.Base.Dict.{Dict, get-put}
use nomothetic.RoutineLog.{
  InvalidRoutineName, RoutineEvent, RoutineRecord, RoutineLogStore, Report, last_n, starts_run,
  event_of, new_record, found_or_new, enter_run, append_event, record_valid, record_event,
  validate_routine_name, limit_events, snapshot, get_snapshot, summary, Summary,
}

drop-nil {ℓ} : {A : Type ℓ} (i : ℕ) → Path (List A) (drop i []) []
drop-nil zero = refl
drop-nil (suc i) = refl

drop-drop {ℓ} : {A : Type ℓ} (i j : ℕ) (xs : List A) → drop i (drop j xs) ≡ drop (j + i) xs
drop-drop i zero xs = ap (λ k. drop k xs) (omega arith)
drop-drop i (suc j) [] = drop-nil i ∙ sym (drop-nil (suc j + i))
drop-drop i (suc j) (x ∷ xs) =
    let e : suc (j + i) ≡ suc j + i = omega arith in drop-drop i j xs ∙ ap (λ k. drop k (x ∷ xs)) e

drop-append {ℓ} :
    {A : Type ℓ} (k : ℕ) (xs ys : List A) → k ≤ length xs → drop k (xs ++ ys) ≡ drop k xs ++ ys
drop-append zero xs ys h = refl
drop-append (suc k) [] ys h = absurd (omega (arith, h))
drop-append (suc k) (x ∷ xs) ys h = drop-append k xs ys (omega (arith, h))

-- A bounded list that gets one more is the bounded form of the whole list that gets one more.
pub last_n-snoc {ℓ} :
    {A : Type ℓ} (n : ℕ) (xs : List A) (x : A)
    → last_n n (last_n n xs ++ x ∷ []) ≡ last_n n (xs ++ x ∷ [])
last_n-snoc n xs x =
    let k = length xs - n in
    let kept = drop k xs ++ x ∷ [] in
    let fits : k ≤ length xs = omega arith in
    let e : k + (length kept - n) ≡ length (xs ++ x ∷ []) - n =
      omega
        (arith, length-append (drop k xs) (x ∷ []), length-append xs (x ∷ []), length-drop k xs) in
    ap (λ l. drop (length kept - n) l) (sym (drop-append k xs (x ∷ []) fits))
    ∙ drop-drop (length kept - n) k (xs ++ x ∷ [])
    ∙ ap (λ j. drop j (xs ++ x ∷ [])) e

pub length-last_n-le {ℓ} : {A : Type ℓ} (n : ℕ) (xs : List A) → length (last_n n xs) ≤ n
length-last_n-le n xs = omega (arith, length-drop (length xs - n) xs)

module _ {Data : Type 0} (empty : Data) where
  -- The reports to any routines, in order.
  unfoldable pub record_all :
      List (Text × Report Data) → RoutineLogStore Data → RoutineLogStore Data
  record_all [] s = s
  record_all ((routine, r) ∷ rest) s = record_all rest (record_event empty routine r s).1

  -- The latest run of one routine and all its events, from the reports alone: a report that names
  -- another run starts it, and one that names none belongs to the run that goes on.
  abbrev pub RunLog : Type 0
  RunLog = Option Text × List (RoutineEvent Data)

  abbrev pub run_step : Report Data → RunLog → RunLog
  run_step r (current, events) =
      if starts_run r.run_id current
      then (r.run_id, event_of empty r ∷ [])
      else (current, events ++ event_of empty r ∷ [])

  abbrev pub run_log : Text → List (Text × Report Data) → RunLog → RunLog
  run_log routine [] log = log
  run_log routine ((name, r) ∷ rest) log =
      run_log routine rest (if text_eq name routine then run_step r log else log)

  abbrev run_of : Option (RoutineRecord Data) → Option Text
  run_of none = none
  run_of (some r) = r.run_id

  abbrev events_of : Option (RoutineRecord Data) → List (RoutineEvent Data)
  events_of none = []
  events_of (some r) = r.events

  -- The record holds the latest part of the log.
  abbrev Holds : ℕ → Option (RoutineRecord Data) → RunLog → Type 0
  Holds n found log = (run_of found ≡ log.0) × (events_of found ≡ last_n n log.1)

  reset-Holds :
      (max_events : ℕ) (run current : Option Text) (ts : Text) (event : RoutineEvent Data)
      (rec : RoutineRecord Data) (log : RunLog)
      → (rec.run_id ≡ log.0) × (rec.events ≡ last_n max_events log.1)
      → Holds max_events
          (some (append_event empty max_events event (enter_run empty run ts rec)))
          (if starts_run run log.0 then (run, event ∷ []) else (log.0, log.1 ++ event ∷ []))
  unfolding append_event enter_run
  reset-Holds max_events run current ts event rec log (same_run, same_events) =
      rw same_run (elim (Bool-cases (starts_run run log.0)) [
        | inl fresh ↦ rw fresh (refl, refl)
        | inr goes_on ↦ rw goes_on (
          refl,
          ap (λ l. last_n max_events (l ++ event ∷ [])) same_events
              ∙ last_n-snoc max_events log.1 event,
        )
      ])

  found_or_new-Holds :
      (n : ℕ) (routine : Text) (found : Option (RoutineRecord Data)) (log : RunLog)
      → Holds n found log
      → Holds n (some (found_or_new empty routine found)) log
  unfolding new_record
  found_or_new-Holds n routine none log h = h
  found_or_new-Holds n routine (some found) log h = h

  -- The bound stays, and so do the records of other routines.
  record_event-max_events :
      (name : Text) (r : Report Data) (s : RoutineLogStore Data)
      → (record_event empty name r s).1.max_events ≡ s.max_events
  unfolding record_event record_valid
  record_event-max_events name r s = go (validate_routine_name name)
    where
      go :
          (v : Result InvalidRoutineName Text)
          → (elim v as (λ x. Result InvalidRoutineName (RoutineEvent Data) × RoutineLogStore Data) [
            | raised e ↦ (raised e, s)
            | ok valid ↦ (ok (event_of empty r), record_valid empty name r s)
          ]).1.max_events
            ≡ s.max_events
      go (raised e) = refl
      go (ok valid) = refl

  pub get-record_event-other :
      (name routine : Text) (r : Report Data) (s : RoutineLogStore Data)
      → text_eq name routine ≡ false
      → Dict.get (record_event empty name r s).1.records routine ≡ Dict.get s.records routine
  unfolding record_event record_valid
  get-record_event-other name routine r s other = go (validate_routine_name name)
    where
      go :
          (v : Result InvalidRoutineName Text)
          → Dict.get
              (elim v
                as (λ x. Result InvalidRoutineName (RoutineEvent Data) × RoutineLogStore Data) [
                  | raised e ↦ (raised e, s)
                  | ok valid ↦ (ok (event_of empty r), record_valid empty name r s)
                ]).1.records
              routine
            ≡ Dict.get s.records routine
      go (raised e) = refl
      go (ok valid) = simp (get-put, other) refl

  entered : Text → Report Data → RoutineLogStore Data → RoutineRecord Data
  entered routine r s =
      enter_run empty r.run_id (event_of empty r).timestamp
        (found_or_new empty routine (Dict.get s.records routine))

  get-record_event-same :
      (routine : Text) (r : Report Data) (s : RoutineLogStore Data)
      → validate_routine_name routine ≡ ok routine
      → Dict.get (record_event empty routine r s).1.records routine
        ≡ some (append_event empty s.max_events (event_of empty r) (entered routine r s))
  unfolding record_event record_valid entered
  get-record_event-same routine r s valid =
      rw (valid, record_event) (simp (get-put, text_eq_refl) refl)

  record_event-Holds :
      (name routine : Text) (r : Report Data) (s : RoutineLogStore Data) (log : RunLog)
      → validate_routine_name routine ≡ ok routine
      → Holds s.max_events (Dict.get s.records routine) log
      → Holds s.max_events
          (Dict.get (record_event empty name r s).1.records routine)
          (if text_eq name routine then run_step r log else log)
  unfolding entered
  record_event-Holds name routine r s log valid h = elim (Bool-cases (text_eq name routine)) [
    | inr other ↦ rw other (rw (get-record_event-other name routine r s other) h)
    | inl same ↦
        let e : routine ≡ name = sym ((text_eq_iff name routine).0 same) in
        rw same (
          subst
            (λ t.
              Holds s.max_events (Dict.get (record_event empty t r s).1.records routine)
                (run_step r log))
            e
            (rw (get-record_event-same routine r s valid) (
              reset-Holds s.max_events r.run_id none (event_of empty r).timestamp (event_of empty r)
                (found_or_new empty routine (Dict.get s.records routine)) log
                (found_or_new-Holds s.max_events routine (Dict.get s.records routine) log h))))
  ]

  record_all-Holds :
      (calls : List (Text × Report Data)) (routine : Text) (max_events : ℕ)
      (s : RoutineLogStore Data) (log : RunLog)
      → validate_routine_name routine ≡ ok routine
      → s.max_events ≡ max_events
      → Holds max_events (Dict.get s.records routine) log
      → Holds max_events (Dict.get (record_all calls s).records routine) (run_log routine calls log)
  unfolding record_all
  record_all-Holds [] routine max_events s log valid same h = h
  record_all-Holds ((name, r) ∷ rest) routine max_events s log valid same h =
      let next = (record_event empty name r s).1 in
      record_all-Holds rest routine max_events next
        (if text_eq name routine then run_step r log else log) valid
        (record_event-max_events name r s ∙ same)
        (subst
          (λ m.
            Holds m (Dict.get next.records routine)
              (if text_eq name routine then run_step r log else log))
          same
          (record_event-Holds name routine r s log valid
            (subst (λ m. Holds m (Dict.get s.records routine) log) (sym same) h)))

  -- From an empty store and after any reports to any routines, for a valid name: the snapshot of the
  -- routine with a positive limit has exactly the last events, up to the bound of the store and then
  -- up to the limit, of the whole log of the routine's latest run, where a report belongs to the run
  -- that goes on unless it names another; and where no snapshot is given that log is empty or the
  -- bound is 0.
  pub get_snapshot-record_all :
      (calls : List (Text × Report Data)) (routine : Text) (max_events limit : ℕ)
      → validate_routine_name routine ≡ ok routine
      → 1 ≤ limit
      → (let s = record_all calls (record { max_events = max_events; records = [] }) in
          let log = (run_log routine calls (none, [])).1 in
          ((get_snapshot empty routine (some limit) s ≡ none) × (last_n max_events log ≡ []))
          ⊎ ((shown : Summary) × (get_snapshot empty routine (some limit) s
                ≡ some (shown, last_n limit (last_n max_events log)))
              × (shown.run_id ≡ (run_log routine calls (none, [])).0)))
  unfolding get_snapshot limit_events Dict.get
  get_snapshot-record_all calls routine max_events limit valid pos =
      let s = record_all calls (record { max_events = max_events; records = [] }) in
      go (Dict.get s.records routine) (
        record_all-Holds calls routine max_events (record { max_events = max_events; records = [] })
          (none, []) valid refl (refl, nothing))
    where
      nothing : Path (List (RoutineEvent Data)) [] (last_n max_events [])
      nothing = sym (drop-nil (0 - max_events))

      go :
          (found : Option (RoutineRecord Data))
          → Holds max_events found (run_log routine calls (none, []))
          → (let log = (run_log routine calls (none, [])).1 in
              let shown_as = elim found as (λ x. Option (Summary × List (RoutineEvent Data))) [
                | none ↦ none
                | some r ↦ some (snapshot empty (some limit) r)
              ] in
              ((shown_as ≡ none) × (last_n max_events log ≡ []))
              ⊎ ((shown : Summary) × (shown_as ≡ some (shown, last_n limit (last_n max_events log)))
                  × (shown.run_id ≡ (run_log routine calls (none, [])).0)))
      go none h = inl (refl, sym h.1)
      go (some r) h = inr (summary empty r, ground (arith, pos, h.1), h.0)
