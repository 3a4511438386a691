-- ===== src/RoutineManager/Examples.antt =====
-- A gateway, a routine and a run of it as concrete inputs.
use nomothetic.Base.{◌≡◌, refl, true, Option, none, some, List, [], ◌∷◌, ok}
use nomothetic.Base.Text.{Text, text, text_eq}
use nomothetic.Base.Dict
use nomothetic.Base.Dict.{Dict}
use nomothetic.RoutineLog.{
  RoutineLogStore, RoutineRecord, validate_routine_name, matches_routine_name,
}
use nomothetic.RoutineManager.{
  Config, RoutineProcess, RoutineManager, ReturnCode, exited, interrupted, stopping, is_live,
  modify,
}
use nomothetic.RoutineManager.Params.{validate_routine_params}
use nomothetic.RoutineManager.Calls.{
  Request, start, find_live, new_process, check_request, resolve_heartbeat_timeout,
  resolve_max_duration, launch,
}
use nomothetic.RoutineManager.Monitor.{
  finish, exit_process, finish_entry, leave, unregister, is_id, record_stop,
}
use nomothetic.RoutineManager.Steps.{
  Event, starts, fires, exits, finishes, waits, World, AreAllowed, handle, perform, run_events,
  initial,
}
use nomothetic.RoutineManager.Exclusive.{exclusive-run_events}
use nomothetic.RoutineManager.Errors.{IsAnswer, error_of, start-IsAnswer}
use nomothetic.RoutineManager.Launch.{has_credentials}
use nomothetic.Base.Pattern.{matches}
use nomothetic.RoutineManager.Record.{get-finish, stop_event, stopped_record}

abbrev gateway : Config
gateway = record {
  autonomon_bin = none;
  device_url = text "http://127.0.0.1:8000";
  device_id = text "rover";
  plugin_key = some (text "key");
  plugin_token = none;
  default_heartbeat_timeout = 30_000_000;
  heartbeat_timeout_ceiling = 120_000_000;
  max_duration = none;
  grace_period = 10_000_000;
}

abbrev patrol : Request
patrol = record {
  routine = text "patrol";
  params = [];
  heartbeat_timeout = some 10_000_000;
  max_duration = none;
  schema = [];
  pid = some 4711;
  launch_id = text "a1";
  started_at = text "12:00";
}

abbrev no_data : Text
no_data = text "{}"

abbrev stop_text : Text → Option ReturnCode → Text
stop_text reason code = reason

abbrev empty_store : Option (RoutineLogStore Text)
empty_store = some (record { max_events = 10; records = [] })

-- A start, no heartbeat for ten seconds, the timer, and nine of the ten seconds of grace.
abbrev silent_run : List Event
silent_run = starts patrol ∷ waits 10_000_000 ∷ fires (text "a1") ∷ waits 19_000_000 ∷ []

abbrev silent_entry : RoutineProcess
silent_entry = record {
  routine = text "patrol";
  params = [];
  pid = 4711;
  started_at = text "12:00";
  launch_id = text "a1";
  heartbeat_timeout = 10_000_000;
  max_duration = none;
  started = 0;
  last_heartbeat = 0;
  stop_reason = some (text "heartbeat_timeout");
  returncode = none;
  signal = interrupted 10_000_000;
  monitor = stopping true;
}

abbrev world_after : World Text
world_after = run_events no_data stop_text gateway silent_run (initial empty_store)

-- A routine that is started again when it has ended has two entries until the monitor of the first has
-- run; only one is live.
abbrev patrol_again : Request
patrol_again = record patrol { launch_id = text "b2" }

abbrev restart : List Event
restart =
    starts patrol
    ∷ exits (exited 0) (text "a1")
    ∷ starts patrol_again
    ∷ finishes (text "12:01") (text "a1")
    ∷ []

abbrev restarted : World Text
restarted = run_events no_data stop_text gateway restart (initial empty_store)

abbrev second_entry : RoutineProcess
second_entry = new_process patrol_again 4711 10_000_000 none 0

restart_allowed : AreAllowed no_data stop_text gateway restart (initial empty_store)
unfolding run_events perform handle initial start check_request has_credentials exit_process finish
    finish_entry leave unregister is_id Dict.remove record_stop Dict.get modify
    validate_routine_name matches_routine_name matches validate_routine_params
    resolve_heartbeat_timeout resolve_max_duration launch find_live Dict.put text_eq new_process
restart_allowed = (refl, (tt, (refl, (tt, tt))))

restart_entry : Dict.get restarted.manager.processes (text "b2") ≡ some second_entry
unfolding run_events perform handle initial start check_request has_credentials exit_process finish
    finish_entry leave unregister is_id Dict.remove record_stop Dict.get modify
    validate_routine_name matches_routine_name matches validate_routine_params
    resolve_heartbeat_timeout resolve_max_duration launch find_live Dict.put text_eq new_process
restart_entry = refl

second_is_live : is_live second_entry ≡ true
unfolding new_process
second_is_live = refl

exclusive-run_events_example :
    (find_live second_entry.routine restarted.manager ≡ some second_entry)
    × (text "b2" ≡ text "b2")
    × (second_entry ≡ second_entry)
exclusive-run_events_example =
    exclusive-run_events no_data stop_text gateway restart empty_store (text "b2") (text "b2")
      second_entry second_entry restart_allowed restart_entry restart_entry second_is_live
      second_is_live refl

-- A request with a live process of the routine.
start-IsAnswer_example :
    IsAnswer
      (error_of gateway patrol_again world_after.manager)
      gateway
      patrol_again
      5
      world_after.manager
      (start gateway patrol_again 5 world_after.manager)
start-IsAnswer_example = start-IsAnswer gateway patrol_again 5 world_after.manager

abbrev old_record : RoutineRecord Text
old_record = record {
  routine = text "patrol";
  events = [];
  status = text "running";
  run_id = some (text "r1");
  started_at = some (text "12:00");
  updated_at = some (text "12:00");
}

abbrev log_with_patrol : RoutineLogStore Text
log_with_patrol = record { max_events = 10; records = (text "patrol", old_record) ∷ [] }

abbrev ended : RoutineProcess
ended = record silent_entry { returncode = some (exited 0) }

abbrev manager_with_ended : RoutineManager Text
manager_with_ended = record {
  processes = (text "a1", ended) ∷ [];
  running = (text "patrol", text "a1") ∷ [];
  log_store = some log_with_patrol;
}

name_valid : validate_routine_name (text "patrol") ≡ ok (text "patrol")
unfolding validate_routine_name matches_routine_name matches
name_valid = refl

process_there : Dict.get manager_with_ended.processes (text "a1") ≡ some ended
unfolding Dict.get text_eq
process_there = refl

record_there : Dict.get log_with_patrol.records (text "patrol") ≡ some old_record
unfolding Dict.get text_eq
record_there = refl

get-finish_example :
    (Dict.get
        (finish no_data stop_text gateway (text "12:01") (text "a1") manager_with_ended).processes
        (text "a1")
      ≡ none)
    × (Dict.get
          (finish no_data stop_text gateway (text "12:01") (text "a1") manager_with_ended).running
          (text "patrol")
        ≡ none)
    × ((after : RoutineLogStore Text) × ((finish no_data stop_text gateway
            (text "12:01")
            (text "a1")
            manager_with_ended).log_store
          ≡ some after)
        × (Dict.get after.records (text "patrol")
            ≡ some (
                stopped_record no_data stop_text 10
                  (stop_event no_data stop_text gateway
                    (text "12:01")
                    (text "heartbeat_timeout")
                    (exited 0))
                  old_record)))
unfolding Dict.get text_eq
get-finish_example =
    get-finish no_data stop_text gateway (text "12:01") (text "a1") (text "patrol")
      (text "heartbeat_timeout") (exited 0) ended manager_with_ended log_with_patrol old_record
      (text "a1") process_there refl refl refl name_valid record_there refl
