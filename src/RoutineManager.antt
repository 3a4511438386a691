-- ===== src/RoutineManager.antt =====
-- src/nomothetic/routine_manager.py: the subprocesses of the autonomy routines and the watchdog of
-- each. Times are whole ticks of the event loop's clock, a microsecond each. Every function here is
-- one stretch of code between two points where a coroutine waits; Steps puts them together.
pub mod Params
pub mod Launch
pub mod Calls
pub mod Monitor
pub mod Steps
pub mod Timely
pub mod Started
pub mod Kept
pub mod TimelyCalls
pub mod Lease
pub mod Registry
pub mod Exclusive
pub mod Errors
pub mod Record
mod Examples
use nomothetic.Base.{
  ℕ, ◌+◌, ◌-◌, ◌≤◌, Bool, true, false, Option, none, some, List, leb, ltb, Result, ok, raised,
  if◌then◌else◌,
}
use nomothetic.Base.Text.{Text, text}
use nomothetic.Base.Dict
use nomothetic.Base.Dict.{Dict}
use nomothetic.RoutineLog.{RoutineLogStore}

-- `RoutineManagerConfig`; the path of the catalogue is read by the caller.
pub record Config : Type 0 where
  pub autonomon_bin : Option Text
  pub device_url : Text
  pub device_id : Text
  pub plugin_key : Option Text
  pub plugin_token : Option Text
  pub default_heartbeat_timeout : ℕ
  pub heartbeat_timeout_ceiling : ℕ
  pub max_duration : Option ℕ
  pub grace_period : ℕ

abbrev pub min_heartbeat_timeout : ℕ
min_heartbeat_timeout = 5_000_000

-- A value of a parameter, as JSON gives it; a number and a list or object by their text.
pub data ParamValue : Type 0 where
  null : ParamValue
  boolean : Bool → ParamValue
  integer floating string structure : Text → ParamValue

-- `proc.returncode`: an exit status, or the negative number of a signal.
pub data ReturnCode : Type 0 where
  exited signalled : ℕ → ReturnCode

-- How far `_terminate` has gone: nothing sent, SIGINT sent last at a time, SIGKILL sent. The lock of
-- the entry lets one call of it through.
pub data Signal : Type 0 where
  no_signal killed : Signal
  interrupted : (since : ℕ) → Signal

-- Where the coroutine `_monitor` stands: waiting for the child with a timer; in the `_terminate` of a
-- lapsed lease, where it has the lock of the entry or waits for another call that has it; or in the
-- `_terminate` of its handler of CancelledError.
pub data MonitorState : Type 0 where
  sleeping : (until : ℕ) → MonitorState
  stopping : (has_lock : Bool) → MonitorState
  cancelled : MonitorState

-- `_RoutineProcess`, with the state of its process and of its monitor.
pub record RoutineProcess : Type 0 where
  pub routine : Text
  pub params : Dict ParamValue
  pub pid : ℕ
  pub started_at : Text
  pub launch_id : Text
  pub heartbeat_timeout : ℕ
  pub max_duration : Option ℕ
  pub started : ℕ
  pub last_heartbeat : ℕ
  pub stop_reason : Option Text
  pub returncode : Option ReturnCode
  pub signal : Signal
  pub monitor : MonitorState

-- The entries whose monitor has not ended, by launch id, which stands for the identity of the object;
-- `_running` by routine; and the log store, where there is one.
pub record RoutineManager (Data : Type 0) : Type 0 where
  pub processes : Dict RoutineProcess
  pub running : Dict Text
  pub log_store : Option (RoutineLogStore Data)

-- `returncode is None`
abbrev pub is_live : RoutineProcess → Bool
is_live e = elim e.returncode [ none ↦ true | some code ↦ false ]

-- `x or y`, of a reason, which is no empty text.
abbrev pub or_reason : Option Text → Text → Option Text
or_reason none reason = some reason
or_reason (some given) reason = some given

abbrev pub min : ℕ → ℕ → ℕ
min a b = if leb a b then a else b

-- `min(deadline, started + max_duration)`, where there is such a cap.
abbrev pub capped : ℕ → ℕ → Option ℕ → ℕ
capped deadline started none = deadline
capped deadline started (some max_duration) = min deadline (started + max_duration)

-- The end of the lease: where `_monitor` puts its timer, and what `seconds_remaining` counts to.
abbrev pub deadline : RoutineProcess → ℕ
deadline e = capped (e.last_heartbeat + e.heartbeat_timeout) e.started e.max_duration

unfoldable pub seconds_remaining : ℕ → RoutineProcess → ℕ
seconds_remaining now e = deadline e - now

-- What `info` returns.
pub record Info : Type 0 where
  pub routine : Text
  pub launch_id : Text
  pub pid : ℕ
  pub started_at : Text
  pub heartbeat_timeout : ℕ
  pub max_duration : Option ℕ
  pub status : Text

unfoldable pub info : RoutineProcess → Info
info e = record {
  routine = e.routine;
  launch_id = e.launch_id;
  pid = e.pid;
  started_at = e.started_at;
  heartbeat_timeout = e.heartbeat_timeout;
  max_duration = e.max_duration;
  status = if is_live e then text "running" else text "stopped";
}

-- A change of one entry.
module _ {Data : Type 0} where
  unfoldable pub modify :
      (RoutineProcess → RoutineProcess) → Text → RoutineManager Data → RoutineManager Data
  modify f id m = elim (Dict.get m.processes id) [
    | none ↦ m
    | some e ↦ record m { processes = Dict.put m.processes id (f e) }
  ]
