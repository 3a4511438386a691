-- ===== src/RoutineLog.antt =====
-- src/nomothetic/routine_log_store.py: the status and the latest events of each routine. The lock
-- makes each call one step. The observer `on_event` sees the event that `record` returns, and what it
-- does or raises does not reach the store. `now_iso` is the text that `_now_iso()` gives, and `Data`
-- the type of the payloads, with the empty one.
pub mod Ring
mod Examples
use nomothetic.Base.{
  ℕ, zero, suc, ◌+◌, ◌-◌, ◌≤◌, Bool, true, false, not, ◌&&◌, ◌||◌, Option, none, some, List, [],
  ◌∷◌, ◌++◌, length, drop, map, ltb, leb, ◌==◌, Result, ok, raised, if◌then◌else◌,
}
use nomothetic.Base.Text.{Text, text, text_eq}
use nomothetic.Base.Pattern.{matches}
use nomothetic.Base.Dict
use nomothetic.Base.Dict.{Dict}

pub data InvalidRoutineName : Type 0 where
  invalid_routine_name : InvalidRoutineName

-- `[A-Za-z0-9]`
abbrev pub is_alphanumeric : ℕ → Bool
is_alphanumeric c = leb b'A' c && leb c b'Z' || leb b'a' c && leb c b'z' || leb b'0' c && leb c b'9'

-- `[A-Za-z0-9._-]`
abbrev pub is_name_char : ℕ → Bool
is_name_char c = is_alphanumeric c || c == b'.' || c == b'_' || c == b'-'

-- `^[A-Za-z0-9][A-Za-z0-9._-]{0,63}$`
unfoldable pub matches_routine_name : Text → Bool
unfolding matches
matches_routine_name name = matches is_alphanumeric is_name_char 63 name

unfoldable pub validate_routine_name : Text → Result InvalidRoutineName Text
validate_routine_name name =
    if matches_routine_name name then ok name else raised invalid_routine_name

-- `_STATUS_BY_TYPE.get(event_type)`
abbrev pub status_by_type : Dict Text
status_by_type =
    (text "starting", text "starting")
    ∷ (text "running", text "running")
    ∷ (text "stopping", text "stopped")
    ∷ (text "error", text "error")
    ∷ []

pub record RoutineEvent (Data : Type 0) : Type 0 where
  pub timestamp : Text
  pub event_type : Text
  pub payload : Data
  pub run_id : Option Text
  pub device_id : Option Text

pub record RoutineRecord (Data : Type 0) : Type 0 where
  pub routine : Text
  pub events : List (RoutineEvent Data)
  pub status : Text
  pub run_id : Option Text
  pub started_at : Option Text
  pub updated_at : Option Text

pub record RoutineLogStore (Data : Type 0) : Type 0 where
  pub max_events : ℕ
  pub records : Dict (RoutineRecord Data)

pub record Summary : Type 0 where
  pub routine : Text
  pub status : Text
  pub run_id : Option Text
  pub started_at : Option Text
  pub updated_at : Option Text
  pub event_count : ℕ

-- The last `n` elements: `xs[-n:]` for a positive `n`, and what a deque of `n` places holds.
abbrev pub last_n {ℓ} : {A : Type ℓ} → ℕ → List A → List A
last_n n xs = drop (length xs - n) xs

-- `timestamp or _now_iso()`
unfoldable pub timestamp_or : Option Text → Text → Text
timestamp_or none now_iso = now_iso
timestamp_or (some []) now_iso = now_iso
timestamp_or (some (c ∷ s)) now_iso = c ∷ s

-- `run_id is not None and run_id != record.run_id`
unfoldable pub starts_run : Option Text → Option Text → Bool
starts_run none current = false
starts_run (some run_id) none = true
starts_run (some run_id) (some current) = not (text_eq run_id current)

-- `x if x is not None else y`
abbrev pub or_else : Option Text → Text → Text
or_else none y = y
or_else (some x) y = x

-- What a call of `record` is given, after the name.
pub record Report (Data : Type 0) : Type 0 where
  pub event_type : Text
  pub payload : Option Data
  pub run_id : Option Text
  pub device_id : Option Text
  pub timestamp : Option Text
  pub now_iso : Text

module _ {Data : Type 0} (empty : Data) where
  unfoldable pub event_of : Report Data → RoutineEvent Data
  event_of r = record {
    timestamp = timestamp_or r.timestamp r.now_iso;
    event_type = r.event_type;
    payload = elim r.payload [ none ↦ empty | some payload ↦ payload ];
    run_id = r.run_id;
    device_id = r.device_id;
  }

  unfoldable pub new_record : Text → RoutineRecord Data
  new_record routine = record {
    routine = routine;
    events = [];
    status = text "unknown";
    run_id = none;
    started_at = none;
    updated_at = none;
  }

  abbrev found_or_new : Text → Option (RoutineRecord Data) → RoutineRecord Data
  found_or_new routine none = new_record routine
  found_or_new routine (some found) = found

  -- A new run resets the per-run view.
  unfoldable pub enter_run : Option Text → Text → RoutineRecord Data → RoutineRecord Data
  enter_run run_id ts r =
      if starts_run run_id r.run_id
      then record r { run_id = run_id; started_at = some ts; events = [] }
      else r

  unfoldable pub append_event : ℕ → RoutineEvent Data → RoutineRecord Data → RoutineRecord Data
  append_event max_events event r = record r {
    events = last_n max_events (r.events ++ event ∷ []);
    updated_at = some event.timestamp;
    started_at = some (or_else r.started_at event.timestamp);
    status = or_else (Dict.get status_by_type event.event_type) r.status;
  }

  unfoldable pub record_valid : Text → Report Data → RoutineLogStore Data → RoutineLogStore Data
  record_valid routine r s =
      let event = event_of r in
      let entered =
        enter_run r.run_id event.timestamp (found_or_new routine (Dict.get s.records routine)) in
      record s { records = Dict.put s.records routine (append_event s.max_events event entered) }

  unfoldable pub record_event :
      Text
      → Report Data
      → RoutineLogStore Data
      → Result InvalidRoutineName (RoutineEvent Data) × RoutineLogStore Data
  record_event routine r s = elim (validate_routine_name routine) [
    | raised e ↦ (raised e, s)
    | ok name ↦ (ok (event_of r), record_valid routine r s)
  ]

  -- `_summary`
  abbrev pub summary : RoutineRecord Data → Summary
  summary r = record {
    routine = r.routine;
    status = r.status;
    run_id = r.run_id;
    started_at = r.started_at;
    updated_at = r.updated_at;
    event_count = length r.events;
  }

  -- A negative limit is as 0.
  unfoldable pub limit_events : Option ℕ → List (RoutineEvent Data) → List (RoutineEvent Data)
  limit_events none events = events
  limit_events (some limit) events = if ltb 0 limit then last_n limit events else []

  -- `_snapshot`, as the summary and the events.
  abbrev pub snapshot : Option ℕ → RoutineRecord Data → Summary × List (RoutineEvent Data)
  snapshot limit r = (summary r, limit_events limit r.events)

  unfoldable pub get_snapshot :
      Text → Option ℕ → RoutineLogStore Data → Option (Summary × List (RoutineEvent Data))
  get_snapshot routine limit s = elim (Dict.get s.records routine) [
    | none ↦ none
    | some found ↦ some (snapshot limit found)
  ]

  unfoldable pub list_routines : RoutineLogStore Data → List Summary
  list_routines s = map (λ entry. summary entry.1) s.records
