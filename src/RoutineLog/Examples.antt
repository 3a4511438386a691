-- ===== src/RoutineLog/Examples.antt =====
-- Two runs of a routine, with a bound of two events.
use nomothetic.Base.{ℕ, ◌≡◌, ◌⊎◌, refl, String, Option, none, some, List, [], ◌∷◌, ◌++◌, arith, ok}
use nomothetic.Base.Text.{Text, text}
use nomothetic.RoutineLog.{
  Report, Summary, last_n, matches_routine_name, validate_routine_name, get_snapshot,
}
use nomothetic.RoutineLog.Ring.{record_all, run_log, get_snapshot-record_all}

abbrev explore : Text
explore = text "explore"

abbrev report : String → Option Text → Report ℕ
report event_type run_id = record {
  event_type = text event_type;
  payload = none;
  run_id = run_id;
  device_id = none;
  timestamp = none;
  now_iso = text "t";
}

abbrev calls : List (Text × Report ℕ)
calls =
    (explore, report "starting" (some (text "r1")))
    ∷ (explore, report "starting" (some (text "r2")))
    ∷ (text "other", report "error" none)
    ∷ (explore, report "running" none)
    ∷ (explore, report "log" (some (text "r2")))
    ∷ []

explore_valid : validate_routine_name explore ≡ ok explore
unfolding validate_routine_name matches_routine_name
explore_valid = refl

get_snapshot-record_all_example :
    (let s = record_all 0 calls (record { max_events = 2; records = [] }) in
      let log = (run_log 0 explore calls (none, [])).1 in
      ((get_snapshot 0 explore (some 1) s ≡ none) × (last_n 2 log ≡ []))
      ⊎ ((shown : Summary) × (get_snapshot 0 explore (some 1) s
            ≡ some (shown, last_n 1 (last_n 2 log)))
          × (shown.run_id ≡ (run_log 0 explore calls (none, [])).0)))
get_snapshot-record_all_example =
    get_snapshot-record_all 0 calls explore 2 1 explore_valid (omega arith)

-- The name that the pattern was meant to refuse.
newline_accepted : validate_routine_name (explore ++ 10 ∷ []) ≡ ok (explore ++ 10 ∷ [])
unfolding validate_routine_name matches_routine_name
newline_accepted = refl
