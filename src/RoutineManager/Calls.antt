-- ===== src/RoutineManager/Calls.antt =====
-- The public methods: `start`, `heartbeat`, `stop`, `stop_all` and `list_running`.
use nomothetic.Base.{
  ℕ, Bool, true, false, Option, none, some, List, [], ◌∷◌, leb, ◌==◌, Result, ok, raised,
  if◌then◌else◌,
}
use nomothetic.Base.Text.{Text, text}
use nomothetic.Base.Dict
use nomothetic.Base.Dict.{Dict}
use nomothetic.RoutineLog.{InvalidRoutineName, validate_routine_name}
use nomothetic.RoutineManager.{
  Config, ParamValue, RoutineProcess, RoutineManager, no_signal, interrupted, sleeping, Info, info,
  is_live, or_reason, min, min_heartbeat_timeout, deadline, seconds_remaining, modify,
}
use nomothetic.RoutineManager.Params.{ParamError, Spec, validate_routine_params}
use nomothetic.RoutineManager.Launch.{has_credentials}

pub data StartError : Type 0 where
  invalid_routine : StartError
  bad_param : ParamError → StartError
  no_credentials bad_heartbeat_timeout bad_max_duration already_running launch_failed : StartError

-- A requested time of 0 stands for every one that is not positive.
unfoldable pub resolve_heartbeat_timeout : Config → Option ℕ → Result StartError ℕ
resolve_heartbeat_timeout config none =
    ok (min config.default_heartbeat_timeout config.heartbeat_timeout_ceiling)
resolve_heartbeat_timeout config (some requested) =
    if requested == 0
    then raised bad_heartbeat_timeout
    else let floored =
        if leb min_heartbeat_timeout requested then requested else min_heartbeat_timeout in
      ok (min floored config.heartbeat_timeout_ceiling)

unfoldable pub resolve_max_duration : Config → Option ℕ → Result StartError (Option ℕ)
resolve_max_duration config none = ok config.max_duration
resolve_max_duration config (some requested) =
    if requested == 0 then raised bad_max_duration else ok (some requested)

-- A request to start, with what the catalogue, the launcher, `uuid` and the clocks give. The launcher
-- gives the pid of the child, or raises OSError.
pub record Request : Type 0 where
  pub routine : Text
  pub params : Dict ParamValue
  pub heartbeat_timeout : Option ℕ
  pub max_duration : Option ℕ
  pub schema : Dict Spec
  pub pid : Option ℕ
  pub launch_id : Text
  pub started_at : Text

infixl 5 ◌>>=◌
abbrev pub ◌>>=◌ {ℓ κ λ'} :
    {E : Type ℓ} {A : Type κ} {B : Type λ'} → Result E A → (A → Result E B) → Result E B
ok a >>= f = f a
raised e >>= f = raised e

abbrev pub guard : Bool → StartError → Result StartError (Unit {0})
guard true e = ok tt
guard false e = raised e

abbrev pub no_param_error : Option ParamError → Result StartError (Unit {0})
no_param_error none = ok tt
no_param_error (some e) = raised (bad_param e)

abbrev pub valid_name : Result InvalidRoutineName Text → Result StartError (Unit {0})
valid_name (ok name) = ok tt
valid_name (raised e) = raised invalid_routine

-- What `start` checks before it takes the lock: the two times, or the first error.
unfoldable pub check_request : Config → Request → Result StartError (ℕ × Option ℕ)
check_request config r = do
  named ← valid_name (validate_routine_name r.routine)
  fitting ← no_param_error (validate_routine_params r.params r.schema)
  credited ← guard (has_credentials config) no_credentials
  heartbeat_timeout ← resolve_heartbeat_timeout config r.heartbeat_timeout
  max_duration ← resolve_max_duration config r.max_duration
  ok (heartbeat_timeout, max_duration)

-- The new entry; the timer of its monitor stands at its deadline.
unfoldable pub new_process :
    Request → (pid heartbeat_timeout : ℕ) (max_duration : Option ℕ) (now : ℕ) → RoutineProcess
new_process r pid heartbeat_timeout max_duration now =
    let e : RoutineProcess = record {
      routine = r.routine;
      params = r.params;
      pid = pid;
      started_at = r.started_at;
      launch_id = r.launch_id;
      heartbeat_timeout = heartbeat_timeout;
      max_duration = max_duration;
      started = now;
      last_heartbeat = now;
      stop_reason = none;
      returncode = none;
      signal = no_signal;
      monitor = sleeping now;
    } in
    record e { monitor = sleeping (deadline e) }

-- `self._running.get(routine)`, where its process still runs.
abbrev pub live_of : Option RoutineProcess → Option RoutineProcess
live_of none = none
live_of (some e) = if is_live e then some e else none

abbrev pub at_id : Option Text → Dict RoutineProcess → Option RoutineProcess
at_id none processes = none
at_id (some id) processes = Dict.get processes id

-- The answer to a heartbeat.
pub record Beat : Type 0 where
  pub routine : Text
  pub heartbeat_timeout : ℕ
  pub remaining : ℕ

-- The start of `_terminate`: SIGINT, unless the process is gone or another call of it is under way.
abbrev pub send_interrupt : ℕ → RoutineProcess → RoutineProcess
send_interrupt now e = elim e.signal [
  | no_signal ↦ if is_live e then record e { signal = interrupted now } else e
  | _ ↦ e
]

-- `entry.last_heartbeat_monotonic = now`
abbrev pub renew : ℕ → RoutineProcess → RoutineProcess
renew now e = record e { last_heartbeat = now }

-- `entry.stop_reason = entry.stop_reason or reason`, and that for a live entry.
abbrev pub mark : Text → RoutineProcess → RoutineProcess
mark reason e = record e { stop_reason = or_reason e.stop_reason reason }

abbrev pub mark_live : Text → RoutineProcess → RoutineProcess
mark_live reason e = if is_live e then mark reason e else e

module _ {Data : Type 0} where
  unfoldable pub find_live : Text → RoutineManager Data → Option RoutineProcess
  find_live routine m = live_of (at_id (Dict.get m.running routine) m.processes)

  -- `self._running[routine] = entry`
  abbrev pub register : RoutineProcess → RoutineManager Data → RoutineManager Data
  register e m = record m {
    processes = Dict.put m.processes e.launch_id e;
    running = Dict.put m.running e.routine e.launch_id;
  }

  unfoldable pub launch :
      Request
      → ℕ × Option ℕ
      → Option RoutineProcess
      → Option ℕ
      → (now : ℕ) → RoutineManager Data
      → Result StartError Info × RoutineManager Data
  launch r times (some existing) pid now m = (raised already_running, m)
  launch r times none none now m = (raised launch_failed, m)
  launch r (heartbeat_timeout, max_duration) none (some pid) now m =
      let e = new_process r pid heartbeat_timeout max_duration now in (ok (info e), register e m)

  abbrev pub launch_checked :
      Result StartError (ℕ × Option ℕ)
      → Request
      → (live : Option RoutineProcess) (now : ℕ) → RoutineManager Data
      → Result StartError Info × RoutineManager Data
  launch_checked (raised e) r live now m = (raised e, m)
  launch_checked (ok times) r live now m = launch r times live r.pid now m

  unfoldable pub start :
      Config
      → Request
      → (now : ℕ) → RoutineManager Data
      → Result StartError Info × RoutineManager Data
  start config r now m = launch_checked (check_request config r) r (find_live r.routine m) now m

  -- `validate_routine_name(routine)` before the rest of a call.
  abbrev pub if_valid {ℓ} :
      {A : Type ℓ}
      → Result InvalidRoutineName Text
      → RoutineManager Data
      → A × RoutineManager Data
      → Result InvalidRoutineName A × RoutineManager Data
  if_valid (raised e) m call = (raised e, m)
  if_valid (ok name) m call = (ok call.0, call.1)

  unfoldable pub beat :
      (now : ℕ) → Option RoutineProcess → RoutineManager Data → Option Beat × RoutineManager Data
  beat now none m = (none, m)
  beat now (some e) m = (
    some (record {
      routine = e.routine;
      heartbeat_timeout = e.heartbeat_timeout;
      remaining = seconds_remaining now (renew now e);
    }),
    modify (renew now) e.launch_id m,
  )

  unfoldable pub heartbeat :
      (routine : Text) (now : ℕ)
      → RoutineManager Data
      → Result InvalidRoutineName (Option Beat) × RoutineManager Data
  unfolding beat
  heartbeat routine now m =
      if_valid (validate_routine_name routine) m (beat now (find_live routine m) m)

  unfoldable pub terminate : (now : ℕ) → Text → RoutineManager Data → RoutineManager Data
  terminate now id m = modify (send_interrupt now) id m

  unfoldable pub stop_found :
      (now : ℕ) → Option RoutineProcess → RoutineManager Data → Option Text × RoutineManager Data
  stop_found now none m = (none, m)
  stop_found now (some e) m = (
    some e.launch_id,
    terminate now e.launch_id (modify (mark (text "operator_request")) e.launch_id m),
  )

  -- `stop` up to the wait for the process, with the entry that it waits for.
  unfoldable pub stop :
      (routine : Text) (now : ℕ)
      → RoutineManager Data
      → Result InvalidRoutineName (Option Text) × RoutineManager Data
  unfolding stop_found
  stop routine now m =
      if_valid (validate_routine_name routine) m (stop_found now (find_live routine m) m)

  -- `for entry in entries: entry.stop_reason = entry.stop_reason or reason`, over the live entries of
  -- `_running`.
  unfoldable pub mark_all : Text → Dict Text → RoutineManager Data → RoutineManager Data
  mark_all reason [] m = m
  mark_all reason ((routine, id) ∷ rest) m = mark_all reason rest (modify (mark_live reason) id m)

  -- `stop_all` up to its loop, which terminates each entry when the one before it is gone.
  unfoldable pub stop_all : (reason : Text) → RoutineManager Data → RoutineManager Data
  stop_all reason m = mark_all reason m.running m

  live_infos : Dict Text → RoutineManager Data → List Info
  live_infos [] m = []
  live_infos ((routine, id) ∷ rest) m =
      let infos = live_infos rest m in
      elim (live_of (Dict.get m.processes id)) [ none ↦ infos | some e ↦ info e ∷ infos ]

  unfoldable pub list_running : RoutineManager Data → List Info
  unfolding live_infos
  list_running m = live_infos m.running m
