-- ===== src/RoutineManager/Record.antt =====
-- The end of an entry in the log store of the routines.
use nomothetic.Base.{
  ℕ, ◌≡◌, refl, Option, none, some, [], ◌∷◌, ◌++◌, ok, if◌then◌else◌, Bool-cases, inl, inr,
}
use mathlib.Core.Path.{◌∙◌, ap}
use nomothetic.Base.Text.{Text, text, text_eq_refl, text_eq}
use nomothetic.Base.Dict
use nomothetic.Base.Dict.{Dict, get-put, get-remove}
use nomothetic.RoutineLog.{
  validate_routine_name, RoutineLogStore, RoutineRecord, RoutineEvent, record_event, last_n,
  append_event, enter_run, event_of, starts_run, timestamp_or, or_else, record_valid,
}
use nomothetic.RoutineManager.{Config, RoutineProcess, RoutineManager, ReturnCode}
use nomothetic.RoutineManager.Monitor.{
  finish, finish_entry, leave, record_stop, stop_report, unregister,
}

get-unregister :
    (routine id registered : Text) (running : Dict Text)
    → Dict.get running routine ≡ some registered
    → Dict.get (unregister routine id running) routine
      ≡ (if text_eq registered id then none else some registered)
unfolding unregister
get-unregister routine id registered running h = rw h (elim (Bool-cases (text_eq registered id)) [
  | inl own ↦ rw own (get-remove running routine routine ∙ rw (text_eq_refl routine) refl)
  | inr other ↦ rw other h
])

module _ {Data : Type 0} (empty : Data) (stop_data : Text → Option ReturnCode → Data) where
  -- The event that the end of an entry records.
  abbrev pub stop_event : Config → (now_iso reason : Text) (code : ReturnCode) → RoutineEvent Data
  stop_event config now_iso reason code = record {
    timestamp = now_iso;
    event_type = text "stopping";
    payload = stop_data reason (some code);
    run_id = none;
    device_id = some config.device_id;
  }

  -- A record with that event: the run stays the one that the plugin reported.
  abbrev pub stopped_record :
      (max_events : ℕ) → RoutineEvent Data → RoutineRecord Data → RoutineRecord Data
  stopped_record max_events event r = record r {
    events = last_n max_events (r.events ++ event ∷ []);
    updated_at = some event.timestamp;
    started_at = some (or_else r.started_at event.timestamp);
    status = text "stopped";
  }

  record_event-stop :
      (config : Config) (now_iso reason routine name : Text) (code : ReturnCode)
      (store : RoutineLogStore Data) (found : RoutineRecord Data)
      → validate_routine_name routine ≡ ok name
      → Dict.get store.records routine ≡ some found
      → (record_event empty routine
          (stop_report empty stop_data config reason (some code) now_iso)
          store).1
        ≡ record store {
          records =
              Dict.put store.records routine
                (stopped_record store.max_events (stop_event config now_iso reason code) found);
        }
  unfolding record_event stop_report event_of append_event enter_run starts_run timestamp_or
      record_valid Dict.put Dict.get text_eq
  record_event-stop config now_iso reason routine name code store found valid g =
      rw ((valid, record_event)) (rw ((g, record_valid)) refl)

  -- When a process that the manager stopped has ended, and its routine is registered: the routine is
  -- registered no more if it was for this process, and it stays with the process that it was registered
  -- for if that is another one; nothing waits for the process any more; and the record of its
  -- routine, where there is one, has the status "stopped", the stop with its reason and return code as
  -- its latest event, and the run it had.
  pub get-finish :
      (config : Config) (now_iso id name reason : Text) (code : ReturnCode) (e : RoutineProcess)
      (m : RoutineManager Data) (store : RoutineLogStore Data) (found : RoutineRecord Data)
      (registered : Text)
      → Dict.get m.processes id ≡ some e
      → e.returncode ≡ some code
      → e.stop_reason ≡ some reason
      → m.log_store ≡ some store
      → validate_routine_name e.routine ≡ ok name
      → Dict.get store.records e.routine ≡ some found
      → Dict.get m.running e.routine ≡ some registered
      → (Dict.get (finish empty stop_data config now_iso id m).processes id ≡ none)
        × (Dict.get (finish empty stop_data config now_iso id m).running e.routine
            ≡ (if text_eq registered id then none else some registered))
        × ((after : RoutineLogStore Data) × ((finish empty stop_data config now_iso id m).log_store
              ≡ some after)
            × (Dict.get after.records e.routine
                ≡ some (
                    stopped_record store.max_events (stop_event config now_iso reason code) found)))
  unfolding finish finish_entry leave record_stop
  get-finish config now_iso id name reason code e m store found registered g dead stop log valid
        there known =
      let event = stop_event config now_iso reason code in
      let after : RoutineLogStore Data = record store {
        records = Dict.put store.records e.routine (stopped_record store.max_events event found);
      } in
      rw (g, dead, stop, log)
        (
          get-remove m.processes id id ∙ rw (text_eq_refl id) refl,
          get-unregister e.routine id registered m.running known,
          (
            after,
            ap some (
                record_event-stop config now_iso reason e.routine name code store found valid
                  there),
            get-put store.records e.routine e.routine (stopped_record store.max_events event found)
                ∙ rw (text_eq_refl e.routine) refl,
          ),
        )
