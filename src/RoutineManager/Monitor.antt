-- ===== src/RoutineManager/Monitor.antt =====
-- `_monitor` and the rest of `_terminate`, cut where they wait: the timer of the lease, the grace
-- period, the end of the process, the cancellation of the task and its `finally`.
use nomothetic.Base.{ℕ, ◌+◌, Bool, true, false, Option, none, some, leb, if◌then◌else◌}
use nomothetic.Base.Text.{Text, text, text_eq}
use nomothetic.Base.Dict
use nomothetic.Base.Dict.{Dict}
use nomothetic.RoutineLog.{RoutineLogStore, Report, record_event}
use nomothetic.RoutineManager.{
  Config, RoutineProcess, RoutineManager, ReturnCode, Signal, no_signal, killed, interrupted,
  MonitorState, sleeping, stopping, cancelled, is_live, deadline,
}
use nomothetic.RoutineManager.Calls.{send_interrupt, mark}

-- `max_duration_s is not None and now >= started + max_duration_s`
abbrev pub max_passed : ℕ → ℕ → Option ℕ → Bool
max_passed now started none = false
max_passed now started (some max_duration) = leb (started + max_duration) now

unfoldable pub lapsed_reason : ℕ → RoutineProcess → Option Text
lapsed_reason now e =
    if max_passed now e.started e.max_duration
    then some (text "max_duration_exceeded")
    else if leb (e.last_heartbeat + e.heartbeat_timeout) now
    then some (text "heartbeat_timeout")
    else none

-- No call of `_terminate` has the lock of a live entry.
abbrev pub is_unlocked : Signal → Bool
is_unlocked no_signal = true
is_unlocked _ = false

-- `except TimeoutError` of `_monitor`: the timer is set anew, or the process is stopped.
unfoldable pub renew_or_stop : ℕ → Option Text → RoutineProcess → RoutineProcess
renew_or_stop now none e = record e { monitor = sleeping (deadline e) }
renew_or_stop now (some reason) e = record (send_interrupt now (mark reason e)) {
  monitor = stopping (is_unlocked e.signal);
}

unfoldable pub on_timer : ℕ → MonitorState → RoutineProcess → RoutineProcess
unfolding renew_or_stop
on_timer now (stopping has_lock) e = e
on_timer now cancelled e = e
on_timer now (sleeping until) e =
    if leb until now then renew_or_stop now (lapsed_reason now e) e else e

unfoldable pub fire_timer : ℕ → RoutineProcess → RoutineProcess
unfolding on_timer
fire_timer now e = if is_live e then on_timer now e.monitor e else e

-- `except TimeoutError` of `_terminate`.
unfoldable pub after_grace : (now grace_period : ℕ) → Signal → RoutineProcess → RoutineProcess
after_grace now grace_period no_signal e = e
after_grace now grace_period killed e = e
after_grace now grace_period (interrupted since) e =
    if leb (since + grace_period) now then record e { signal = killed } else e

unfoldable pub end_grace : (now grace_period : ℕ) → RoutineProcess → RoutineProcess
unfolding after_grace
end_grace now grace_period e = if is_live e then after_grace now grace_period e.signal e else e

-- The process ends.
unfoldable pub exit_process : ReturnCode → RoutineProcess → RoutineProcess
exit_process code e = if is_live e then record e { returncode = some code } else e

-- The start of `_terminate` once its first call was cancelled and gave the lock back: SIGINT goes out
-- again, and a new grace period starts. A SIGKILL that was sent stays sent.
unfoldable pub interrupt_again : ℕ → Signal → RoutineProcess → RoutineProcess
interrupt_again now killed e = e
interrupt_again now no_signal e = if is_live e then record e { signal = interrupted now } else e
interrupt_again now (interrupted since) e =
    if is_live e then record e { signal = interrupted now } else e

-- The `_terminate` of the handler: a monitor that had the lock takes it again, another one gets it if
-- it is free, and waits for the end of the process if it is not.
unfoldable pub terminate_again : ℕ → MonitorState → RoutineProcess → RoutineProcess
unfolding interrupt_again
terminate_again now (stopping true) e = interrupt_again now e.signal e
terminate_again now _ e = send_interrupt now e

-- `except asyncio.CancelledError` of `_monitor`, for its first cancellation.
unfoldable pub cancel_monitor : ℕ → RoutineProcess → RoutineProcess
unfolding terminate_again
cancel_monitor now e = record (terminate_again now e.monitor (mark (text "server_shutdown") e)) {
  monitor = cancelled;
}

-- `if self._running.get(entry.routine) is entry: del self._running[entry.routine]`
unfoldable pub is_id : Option Text → Text → Bool
is_id none id = false
is_id (some other) id = text_eq other id

unfoldable pub unregister : Text → Text → Dict Text → Dict Text
unfolding is_id
unregister routine id running =
    if is_id (Dict.get running routine) id then Dict.remove running routine else running

-- `empty` is the empty payload, and `stop_data` the one of a stop: its reason, the return code and the
-- source, this gateway.
module _ {Data : Type 0} (empty : Data) (stop_data : Text → Option ReturnCode → Data) where
  unfoldable pub stop_report : Config → Text → Option ReturnCode → (now_iso : Text) → Report Data
  stop_report config reason code now_iso = record {
    event_type = text "stopping";
    payload = some (stop_data reason code);
    run_id = none;
    device_id = some config.device_id;
    timestamp = none;
    now_iso = now_iso;
  }

  record_reason :
      Config
      → (now_iso : Text) → RoutineProcess
      → Option Text
      → Option (RoutineLogStore Data)
      → Option (RoutineLogStore Data)
  record_reason config now_iso e none store = store
  record_reason config now_iso e (some reason) none = none
  record_reason config now_iso e (some reason) (some store) =
      some ((record_event empty e.routine (stop_report config reason e.returncode now_iso) store).1)

  unfoldable pub record_stop :
      Config
      → (now_iso : Text) → RoutineProcess
      → Option (RoutineLogStore Data)
      → Option (RoutineLogStore Data)
  unfolding record_reason
  record_stop config now_iso e store = record_reason config now_iso e e.stop_reason store

  -- The `finally` of `_monitor`, which is reached when the process has ended.
  unfoldable pub leave :
      Config → (now_iso id : Text) → RoutineProcess → RoutineManager Data → RoutineManager Data
  leave config now_iso id e m = record {
    processes = Dict.remove m.processes id;
    running = unregister e.routine id m.running;
    log_store = record_stop config now_iso e m.log_store;
  }

  unfoldable pub finish_entry :
      Config
      → (now_iso id : Text) → Option RoutineProcess
      → RoutineManager Data
      → RoutineManager Data
  finish_entry config now_iso id none m = m
  finish_entry config now_iso id (some e) m = if is_live e then m else leave config now_iso id e m

  unfoldable pub finish : Config → (now_iso id : Text) → RoutineManager Data → RoutineManager Data
  finish config now_iso id m = finish_entry config now_iso id (Dict.get m.processes id) m
