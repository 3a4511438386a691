-- ===== src/RoutineManager/TimelyCalls.antt =====
-- The changes of the manager keep every entry within its lease.
use nomothetic.Base.{ℕ, ◌≡◌, refl, Option, none, some, arith}
use nomothetic.Base.Text.{Text}
use nomothetic.Base.Dict
use nomothetic.Base.Dict.{Dict, AllValues, put-AllValues, remove-AllValues, get-AllValues}
use nomothetic.RoutineManager.{Config, RoutineProcess, RoutineManager, ReturnCode, modify}
use nomothetic.RoutineManager.Calls.{
  Request, new_process, renew, register, send_interrupt, mark, mark_live,
}
use nomothetic.RoutineManager.Monitor.{fire_timer, end_grace, cancel_monitor, exit_process, leave}
use nomothetic.RoutineManager.Timely.{
  IsTimely, KeepsTimely, by_state, renew-Timely, interrupt-Timely, cancel-Timely, exit-Timely,
  mark-Timely, mark_live-Timely, grace-Timely, fire-Timely,
}
use nomothetic.RoutineManager.Kept.{IsKept}

modify-AllValues :
    {Data : Type 0} (P : RoutineProcess → Type 0) (f : RoutineProcess → RoutineProcess) (id : Text)
    (m : RoutineManager Data)
    → ((e : RoutineProcess) → P e → P (f e))
    → AllValues P m.processes
    → AllValues P (modify f id m).processes
unfolding modify
modify-AllValues {Data} P f id m keeps h = go (Dict.get m.processes id) refl
  where
    go :
        (found : Option RoutineProcess)
        → Dict.get m.processes id ≡ found
        → AllValues P
            (elim found as (λ x. RoutineManager Data) [
              | none ↦ m
              | some e ↦ record m { processes = Dict.put m.processes id (f e) }
            ]).processes
    go none g = h
    go (some e) g =
        put-AllValues P m.processes id (f e) h (keeps e (get-AllValues P m.processes id e h g))

new_process-IsTimely :
    (r : Request) (pid heartbeat_timeout : ℕ) (max_duration : Option ℕ) (now grace_period : ℕ)
    → IsTimely now grace_period (new_process r pid heartbeat_timeout max_duration now)
unfolding new_process
new_process-IsTimely r pid heartbeat_timeout none now grace_period =
    (omega arith, (omega arith, omega arith))
new_process-IsTimely r pid heartbeat_timeout (some cap) now grace_period =
    (omega arith, (ground arith, omega arith))

module _ {Data : Type 0} where
  abbrev pub AllTimely : Config → (now : ℕ) → RoutineManager Data → Type 0
  AllTimely config now m = AllValues (IsTimely now config.grace_period) m.processes

  module _ (config : Config) (now : ℕ) where
    changes :
        (f : RoutineProcess → RoutineProcess) (id : Text) (m : RoutineManager Data)
        → KeepsTimely now config.grace_period f
        → AllTimely config now m
        → AllTimely config now (modify f id m)
    changes f id m keeps h = modify-AllValues (IsTimely now config.grace_period) f id m keeps h

    register-AllTimely :
        (e : RoutineProcess) (m : RoutineManager Data)
        → IsTimely now config.grace_period e
        → AllTimely config now m
        → AllTimely config now (register e m)
    register-AllTimely e m t h =
        put-AllValues (IsTimely now config.grace_period) m.processes e.launch_id e h t

    module _ (empty : Data) (stop_data : Text → Option ReturnCode → Data) where
      pub AllTimely-IsKept : IsKept empty stop_data config now (AllTimely config now)
      unfolding leave
      AllTimely-IsKept = record {
        renews = λ id m h.
            changes (renew now) id m
              (by_state now config.grace_period (renew now) (renew-Timely now config.grace_period))
              h;
        interrupts = λ id m h.
            changes (send_interrupt now) id m
              (by_state now config.grace_period (send_interrupt now)
                (interrupt-Timely now config.grace_period))
              h;
        fires_timer = λ id m h.
            changes (fire_timer now) id m
              (by_state now config.grace_period (fire_timer now)
                (fire-Timely now config.grace_period))
              h;
        ends_grace = λ id m h.
            changes (end_grace now config.grace_period) id m
              (by_state now config.grace_period (end_grace now config.grace_period)
                (grace-Timely now config.grace_period))
              h;
        is_cancelled = λ id m h.
            changes (cancel_monitor now) id m
              (by_state now config.grace_period (cancel_monitor now)
                (cancel-Timely now config.grace_period))
              h;
        ends_process = λ code id m h.
            changes (exit_process code) id m
              (by_state now config.grace_period (exit_process code)
                (exit-Timely now config.grace_period code))
              h;
        marks = λ reason id m h.
            changes (mark reason) id m
              (by_state now config.grace_period (mark reason)
                (mark-Timely now config.grace_period reason))
              h;
        marks_live = λ reason id m h.
            changes (mark_live reason) id m
              (by_state now config.grace_period (mark_live reason)
                (mark_live-Timely now config.grace_period reason))
              h;
        registers = λ r pid heartbeat_timeout max_duration m fresh free h.
            register-AllTimely (new_process r pid heartbeat_timeout max_duration now) m
              (new_process-IsTimely r pid heartbeat_timeout max_duration now config.grace_period) h;
        leaves = λ now_iso id e m h.
            remove-AllValues (IsTimely now config.grace_period) m.processes id h;
      }
