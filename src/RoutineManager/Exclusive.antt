-- ===== src/RoutineManager/Exclusive.antt =====
-- A routine has one live process at most.
use nomothetic.Base.{ℕ, ◌≡◌, true, Option, some, List, [], ◌∷◌, arith}
use nomothetic.Base.Text.{Text}
use nomothetic.Base.Dict
use nomothetic.Base.Dict.{Dict, get-put, get-remove}
use nomothetic.RoutineLog.{RoutineLogStore}
use nomothetic.RoutineManager.{Config, RoutineProcess, ReturnCode, is_live}
use nomothetic.RoutineManager.Calls.{renew, send_interrupt, mark, mark_live, find_live}
use nomothetic.RoutineManager.Monitor.{fire_timer, end_grace, cancel_monitor, exit_process}
use nomothetic.RoutineManager.Kept.{IsKept, IsFresh, handle-kept}
use nomothetic.RoutineManager.Registry.{
  IsRegistered, interrupt-KeepsOwn, cancel-KeepsOwn, exit-KeepsOwn, mark_live-KeepsOwn,
  grace-KeepsOwn, fire-KeepsOwn, modify-IsRegistered, leave-IsRegistered, started-IsRegistered,
  live-find_live,
}
use nomothetic.RoutineManager.Steps.{
  Event, starts, beats, stops, stops_all, terminates, fires, kills, cancels, exits, finishes, waits,
  World, IsAllowed, AreAllowed, perform, run_events, initial,
}

module _ {Data : Type 0} where
  IsFresh-allowed :
      (config : Config) (event : Event) (w : World Data)
      → IsAllowed config event w
      → IsFresh event w.manager
  IsFresh-allowed config (starts r) w a = a
  IsFresh-allowed config (beats routine) w a = tt
  IsFresh-allowed config (stops routine) w a = tt
  IsFresh-allowed config (stops_all reason) w a = tt
  IsFresh-allowed config (terminates id) w a = tt
  IsFresh-allowed config (fires id) w a = tt
  IsFresh-allowed config (kills id) w a = tt
  IsFresh-allowed config (cancels id) w a = tt
  IsFresh-allowed config (exits code id) w a = tt
  IsFresh-allowed config (finishes now_iso id) w a = tt
  IsFresh-allowed config (waits t) w a = tt

module _ {Data : Type 0} (empty : Data) (stop_data : Text → Option ReturnCode → Data)
    (config : Config) where
  IsRegistered-IsKept : (now : ℕ) → IsKept empty stop_data config now IsRegistered
  IsRegistered-IsKept now = record {
    renews = λ id m h. modify-IsRegistered (renew now) id m (λ running j e o. o) h;
    interrupts = λ id m h. modify-IsRegistered (send_interrupt now) id m (interrupt-KeepsOwn now) h;
    fires_timer = λ id m h. modify-IsRegistered (fire_timer now) id m (fire-KeepsOwn now) h;
    ends_grace = λ id m h.
        modify-IsRegistered (end_grace now config.grace_period) id m
          (grace-KeepsOwn now config.grace_period) h;
    is_cancelled = λ id m h. modify-IsRegistered (cancel_monitor now) id m (cancel-KeepsOwn now) h;
    ends_process =
        λ code id m h. modify-IsRegistered (exit_process code) id m (exit-KeepsOwn code) h;
    marks = λ reason id m h. modify-IsRegistered (mark reason) id m (λ running j e o. o) h;
    marks_live =
        λ reason id m h. modify-IsRegistered (mark_live reason) id m (mark_live-KeepsOwn reason) h;
    registers = λ r pid heartbeat_timeout max_duration m fresh free h.
        started-IsRegistered r pid heartbeat_timeout max_duration now m fresh free h;
    leaves = λ now_iso id e m h. leave-IsRegistered empty stop_data config now_iso id e m h;
  }

  perform-IsRegistered :
      (event : Event) (w : World Data)
      → IsAllowed config event w
      → IsRegistered w.manager
      → IsRegistered (perform empty stop_data config event w).manager
  unfolding perform
  perform-IsRegistered event w a h =
      handle-kept empty stop_data config w.now IsRegistered (IsRegistered-IsKept w.now) event
        w.manager (IsFresh-allowed config event w a) h

  run_events-IsRegistered :
      (events : List Event) (w : World Data)
      → AreAllowed empty stop_data config events w
      → IsRegistered w.manager
      → IsRegistered (run_events empty stop_data config events w).manager
  unfolding run_events
  run_events-IsRegistered [] w a h = h
  run_events-IsRegistered (event ∷ events) w a h =
      run_events-IsRegistered events (perform empty stop_data config event w) a.1
        (perform-IsRegistered event w a.0 h)

  initial-IsRegistered :
      (log_store : Option (RoutineLogStore Data)) → IsRegistered (initial log_store).manager
  unfolding initial Dict.get
  initial-IsRegistered log_store id e g = absurd (ground (arith, g))

  -- In every run of the loop from an empty manager in which each start has a new launch id, the timers
  -- run promptly and each monitor is cancelled once at most: a live
  -- process stands under its own launch id and is the one that the registry has under its routine, and
  -- two live processes of the same routine are one.
  pub exclusive-run_events :
      (events : List Event) (log_store : Option (RoutineLogStore Data)) (id id' : Text)
      (e e' : RoutineProcess)
      → AreAllowed empty stop_data config events (initial log_store)
      → Dict.get (run_events empty stop_data config events (initial log_store)).manager.processes id
        ≡ some e
      → Dict.get
          (run_events empty stop_data config events (initial log_store)).manager.processes
          id'
        ≡ some e'
      → is_live e ≡ true
      → is_live e' ≡ true
      → e.routine ≡ e'.routine
      → (find_live e.routine (run_events empty stop_data config events (initial log_store)).manager
          ≡ some e)
        × (id ≡ id')
        × (e ≡ e')
  exclusive-run_events events log_store id id' e e' a g g' live live' same =
      let m = (run_events empty stop_data config events (initial log_store)).manager in
      let own =
        run_events-IsRegistered events (initial log_store) a (initial-IsRegistered log_store) in
      let kept = (own id e g).1 live in
      let kept' = (own id' e' g').1 live' in
      let ids : id ≡ id' = cc in (live-find_live e.routine m id e kept g live, ids, cc)
