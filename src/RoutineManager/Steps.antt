-- ===== src/RoutineManager/Steps.antt =====
-- The event loop: the calls, timers and ends of processes as steps of a world with a clock.
use nomothetic.Base.{ℕ, ◌+◌, ◌≤◌, ◌≡◌, ◌≢◌, Option, none, some, List, [], ◌∷◌}
use nomothetic.Base.Text.{Text}
use nomothetic.Base.Dict
use nomothetic.Base.Dict.{Dict}
use nomothetic.RoutineLog.{RoutineLogStore}
use nomothetic.RoutineManager.{
  Config, RoutineProcess, RoutineManager, ReturnCode, Signal, no_signal, killed, interrupted,
  MonitorState, sleeping, stopping, cancelled, modify,
}
use nomothetic.RoutineManager.Calls.{Request, start, heartbeat, stop, stop_all, terminate}
use nomothetic.RoutineManager.Monitor.{fire_timer, end_grace, exit_process, cancel_monitor, finish}

-- `id` is a launch id.
pub data Event : Type 0 where
  starts : Request → Event
  beats stops : (routine : Text) → Event
  stops_all : (reason : Text) → Event
  terminates fires kills cancels : (id : Text) → Event
  exits : ReturnCode → (id : Text) → Event
  finishes : (now_iso id : Text) → Event
  waits : (until : ℕ) → Event

pub record World (Data : Type 0) : Type 0 where
  pub now : ℕ
  pub manager : RoutineManager Data

-- No timer of a live entry is due before `t`: the loop runs a timer when it is due, before the clock
-- goes on.
abbrev pub TimerWaits : MonitorState → ℕ → Type 0
TimerWaits (sleeping until) t = t ≤ until
TimerWaits (stopping has_lock) t = Unit
TimerWaits cancelled t = Unit

abbrev pub GraceWaits : (grace_period : ℕ) → Signal → ℕ → Type 0
GraceWaits grace_period no_signal t = Unit
GraceWaits grace_period killed t = Unit
GraceWaits grace_period (interrupted since) t = t ≤ since + grace_period

abbrev pub IsIdleUntil : (grace_period t : ℕ) → RoutineProcess → Type 0
IsIdleUntil grace_period t e = elim e.returncode [
  | some code ↦ Unit
  | none ↦ TimerWaits e.monitor t × GraceWaits grace_period e.signal t
]

-- The monitor has not been cancelled.
abbrev pub IsUncancelled : Option RoutineProcess → Type 0
IsUncancelled none = Unit
IsUncancelled (some e) = e.monitor ≢ cancelled

module _ {Data : Type 0} where
  unfoldable pub initial : Option (RoutineLogStore Data) → World Data
  initial log_store = record {
    now = 0;
    manager = record { processes = []; running = []; log_store = log_store };
  }

  -- What `uuid4` and the loop promise: a new launch id, and a prompt run of the timers. No part cancels
  -- a monitor but the loop when it shuts down, which cancels each task once; that it cancels the call of
  -- a route that has the lock of an entry is left out.
  abbrev pub IsAllowed : Config → Event → World Data → Type 0
  IsAllowed config (starts r) w = Dict.get w.manager.processes r.launch_id ≡ none
  IsAllowed config (waits t) w =
      (w.now ≤ t) × Dict.AllValues (IsIdleUntil config.grace_period t) w.manager.processes
  IsAllowed config (cancels id) w = IsUncancelled (Dict.get w.manager.processes id)
  IsAllowed config _ w = Unit

module _ {Data : Type 0} (empty : Data) (stop_data : Text → Option ReturnCode → Data) where
  -- What an event other than the passing of time does to the manager.
  unfoldable pub handle : Config → Event → (now : ℕ) → RoutineManager Data → RoutineManager Data
  handle config (starts r) now m = (start config r now m).1
  handle config (beats routine) now m = (heartbeat routine now m).1
  handle config (stops routine) now m = (stop routine now m).1
  handle config (stops_all reason) now m = stop_all reason m
  handle config (terminates id) now m = terminate now id m
  handle config (fires id) now m = modify (fire_timer now) id m
  handle config (kills id) now m = modify (end_grace now config.grace_period) id m
  handle config (cancels id) now m = modify (cancel_monitor now) id m
  handle config (exits code id) now m = modify (exit_process code) id m
  handle config (finishes now_iso id) now m = finish empty stop_data config now_iso id m
  handle config (waits t) now m = m

  clock_after : Event → ℕ → ℕ
  clock_after (waits t) now = t
  clock_after _ now = now

  unfoldable pub perform : Config → Event → World Data → World Data
  unfolding clock_after
  perform config event w = record {
    now = clock_after event w.now;
    manager = handle config event w.now w.manager;
  }

  unfoldable pub run_events : Config → List Event → World Data → World Data
  run_events config [] w = w
  run_events config (event ∷ events) w = run_events config events (perform config event w)

  abbrev pub AreAllowed : Config → List Event → World Data → Type 0
  AreAllowed config [] w = Unit
  AreAllowed config (event ∷ events) w =
      IsAllowed config event w × AreAllowed config events (perform config event w)
