-- ===== src/RoutineManager/Errors.antt =====
-- The answers of `start`: which one each request gets.
use nomothetic.Base.{
  ℕ, ◌+◌, ◌≤◌, ◌≡◌, refl, Bool, true, false, Option, none, some, arith, Result, ok, raised,
}
use nomothetic.Base.Text.{Text}
use nomothetic.RoutineLog.{InvalidRoutineName, validate_routine_name}
use nomothetic.RoutineManager.{
  Config, RoutineProcess, RoutineManager, Info, info, is_live, deadline, capped,
}
use nomothetic.RoutineManager.Params.{ParamError, validate_routine_params}
use nomothetic.RoutineManager.Launch.{has_credentials}
use nomothetic.RoutineManager.Calls.{
  StartError, invalid_routine, bad_param, no_credentials, already_running, launch_failed, Request,
  check_request, resolve_heartbeat_timeout, resolve_max_duration, new_process, find_live, launch,
  launch_checked, register, start, valid_name, no_param_error, guard, ◌>>=◌,
}

-- The first error of a request, in the order of the checks.
abbrev pub first_error :
    Result InvalidRoutineName Text
    → Option ParamError
    → (credited : Bool) → Result StartError ℕ
    → Result StartError (Option ℕ)
    → (running : Option RoutineProcess) → (pid : Option ℕ) → Option StartError
first_error (raised e) param credited hb md running pid = some invalid_routine
first_error (ok name) (some e) credited hb md running pid = some (bad_param e)
first_error (ok name) none false hb md running pid = some no_credentials
first_error (ok name) none true (raised e) md running pid = some e
first_error (ok name) none true (ok t) (raised e) running pid = some e
first_error (ok name) none true (ok t) (ok d) (some existing) pid = some already_running
first_error (ok name) none true (ok t) (ok d) none none = some launch_failed
first_error (ok name) none true (ok t) (ok d) none (some pid) = none

-- `check_request` in terms of what each check gives.
abbrev combined :
    Result InvalidRoutineName Text
    → Option ParamError
    → (credited : Bool) → Result StartError ℕ
    → Result StartError (Option ℕ)
    → Result StartError (ℕ × Option ℕ)
combined named param credited hb md = do
  named' ← valid_name named
  fitting ← no_param_error param
  credited' ← guard credited no_credentials
  heartbeat_timeout ← hb
  max_duration ← md
  ok (heartbeat_timeout, max_duration)

resolve_heartbeat_timeout_le :
    (config : Config) (requested : Option ℕ) (t : ℕ)
    → resolve_heartbeat_timeout config requested ≡ ok t
    → t ≤ config.heartbeat_timeout_ceiling
unfolding resolve_heartbeat_timeout
resolve_heartbeat_timeout_le config none t h = ground (arith, h)
resolve_heartbeat_timeout_le config (some requested) t h = ground (arith, h)

capped_le : (a started : ℕ) (max_duration : Option ℕ) → capped a started max_duration ≤ a
capped_le a started none = omega arith
capped_le a started (some max_duration) = ground arith

module _ {Data : Type 0} where
  -- The first error of a request, or none.
  unfoldable pub error_of : Config → Request → RoutineManager Data → Option StartError
  error_of config r m =
      first_error (validate_routine_name r.routine) (validate_routine_params r.params r.schema)
        (has_credentials config) (resolve_heartbeat_timeout config r.heartbeat_timeout)
        (resolve_max_duration config r.max_duration) (find_live r.routine m) r.pid

  -- What an answer has to be: the error, with the manager as it was, or a new entry.
  abbrev pub IsAnswer :
      Option StartError
      → Config
      → Request
      → (now : ℕ) → RoutineManager Data
      → Result StartError Info × RoutineManager Data
      → Type 0
  IsAnswer (some e) config r now m answer = answer ≡ (raised e, m)
  IsAnswer none config r now m answer =
      (e : RoutineProcess) × (answer ≡ (ok (info e), register e m))
      × (e.routine ≡ r.routine)
      × (e.launch_id ≡ r.launch_id)
      × (is_live e ≡ true)
      × (deadline e ≤ now + config.heartbeat_timeout_ceiling)

  combined-IsAnswer :
      (config : Config) (now : ℕ) (m : RoutineManager Data) (r : Request)
      (named : Result InvalidRoutineName Text) (param : Option ParamError) (credited : Bool)
      (hb : Result StartError ℕ) (md : Result StartError (Option ℕ))
      (running : Option RoutineProcess) (pid : Option ℕ)
      → ((t : ℕ) → hb ≡ ok t → t ≤ config.heartbeat_timeout_ceiling)
      → IsAnswer
          (first_error named param credited hb md running pid)
          config
          (record r { pid = pid })
          now
          m
          (launch_checked
            (combined named param credited hb md)
            (record r { pid = pid })
            running
            now
            m)
  unfolding launch new_process
  combined-IsAnswer config now m r (raised e) param credited hb md running pid le = refl
  combined-IsAnswer config now m r (ok name) (some e) credited hb md running pid le = refl
  combined-IsAnswer config now m r (ok name) none false hb md running pid le = refl
  combined-IsAnswer config now m r (ok name) none true (raised e) md running pid le = refl
  combined-IsAnswer config now m r (ok name) none true (ok t) (raised e) running pid le = refl
  combined-IsAnswer config now m r (ok name) none true (ok t) (ok d) (some existing) pid le = refl
  combined-IsAnswer config now m r (ok name) none true (ok t) (ok d) none none le = refl
  combined-IsAnswer config now m r (ok name) none true (ok t) (ok d) none (some pid) le = (
    new_process (record r { pid = some pid }) pid t d now,
    refl,
    refl,
    refl,
    refl,
    omega (capped_le (now + t) now d, le t refl, arith),
  )

  -- A start answers with its first error and then leaves the manager as it was; the checks come in the
  -- order: name, parameters, credentials, heartbeat timeout, maximum duration, a live process of the
  -- routine, the launch. Without an error it registers a live entry of the routine under the new launch
  -- id, whose deadline is not beyond the ceiling of the heartbeat timeout.
  pub start-IsAnswer :
      (config : Config) (r : Request) (now : ℕ) (m : RoutineManager Data)
      → IsAnswer (error_of config r m) config r now m (start config r now m)
  unfolding start check_request error_of
  start-IsAnswer config r now m =
      combined-IsAnswer config now m r (validate_routine_name r.routine)
        (validate_routine_params r.params r.schema) (has_credentials config)
        (resolve_heartbeat_timeout config r.heartbeat_timeout)
        (resolve_max_duration config r.max_duration) (find_live r.routine m) r.pid
        (resolve_heartbeat_timeout_le config r.heartbeat_timeout)
