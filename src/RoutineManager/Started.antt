-- ===== src/RoutineManager/Started.antt =====
-- What a call of `start` comes to: an error, or a new entry.
use nomothetic.Base.{ℕ, ◌≡◌, refl, Option, none, some, Result, ok, raised, ◌⊎◌, inl, inr}
use nomothetic.RoutineManager.{Config, RoutineProcess, RoutineManager, info}
use nomothetic.RoutineManager.Calls.{
  StartError, already_running, launch_failed, Request, check_request, new_process, find_live,
  register, launch, launch_checked, start,
}

module _ {Data : Type 0} where
  -- The process and the times of a routine that was started.
  pub record IsStarted (config : Config) (r : Request) (now : ℕ) (m : RoutineManager Data)
      : Type 0 where
    pub pid : ℕ
    pub heartbeat_timeout : ℕ
    pub max_duration : Option ℕ
    pub passes : check_request config r ≡ ok (heartbeat_timeout, max_duration)
    pub free : find_live r.routine m ≡ none
    pub launches : r.pid ≡ some pid
    pub result : start config r now m ≡ (
      ok (info (new_process r pid heartbeat_timeout max_duration now)),
      register (new_process r pid heartbeat_timeout max_duration now) m,
    )

  pub record IsRefused (config : Config) (r : Request) (now : ℕ) (m : RoutineManager Data)
      : Type 0 where
    pub error : StartError
    pub result : start config r now m ≡ (raised error, m)

  start_lem :
      (config : Config) (r : Request) (now : ℕ) (m : RoutineManager Data)
      → start config r now m
        ≡ launch_checked (check_request config r) r (find_live r.routine m) now m
  unfolding start
  start_lem config r now m = refl

  launched :
      (config : Config) (r : Request) (now : ℕ) (m : RoutineManager Data) (times : ℕ × Option ℕ)
      (pid : Option ℕ)
      → check_request config r ≡ ok times
      → find_live r.routine m ≡ none
      → r.pid ≡ pid
      → start config r now m ≡ launch r times none pid now m
      → IsStarted config r now m ⊎ IsRefused config r now m
  unfolding launch
  launched config r now m times none c f p s = inr (record { error = launch_failed; result = s })
  launched config r now m (heartbeat_timeout, max_duration) (some pid) c f p s = inl (record {
    pid = pid;
    heartbeat_timeout = heartbeat_timeout;
    max_duration = max_duration;
    passes = c;
    free = f;
    launches = p;
    result = s;
  })

  occupied :
      (config : Config) (r : Request) (now : ℕ) (m : RoutineManager Data) (times : ℕ × Option ℕ)
      (existing : RoutineProcess)
      → start config r now m ≡ launch r times (some existing) r.pid now m
      → IsRefused config r now m
  unfolding launch
  occupied config r now m times existing s = record { error = already_running; result = s }

  pub start_cases :
      (config : Config) (r : Request) (now : ℕ) (m : RoutineManager Data)
      → IsStarted config r now m ⊎ IsRefused config r now m
  start_cases config r now m =
      go (check_request config r) (find_live r.routine m) refl refl (start_lem config r now m)
    where
      go :
          (checked : Result StartError (ℕ × Option ℕ)) (live : Option RoutineProcess)
          → check_request config r ≡ checked
          → find_live r.routine m ≡ live
          → start config r now m ≡ launch_checked checked r live now m
          → IsStarted config r now m ⊎ IsRefused config r now m
      go (raised e) live c f s = inr (record { error = e; result = s })
      go (ok times) (some existing) c f s = inr (occupied config r now m times existing s)
      go (ok times) none c f s = launched config r now m times r.pid c f refl s
