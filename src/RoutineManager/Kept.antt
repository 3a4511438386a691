-- ===== src/RoutineManager/Kept.antt =====
-- When the changes of the manager keep a property of it.
use nomothetic.Base.{
  ℕ, ◌≡◌, Bool, true, false, Option, none, some, [], ◌∷◌, Result, ok, raised, if◌then◌else◌, inl,
  inr,
}
use mathlib.Core.Path.{subst, sym}
use nomothetic.Base.Text.{Text, text}
use nomothetic.Base.Dict
use nomothetic.Base.Dict.{Dict}
use nomothetic.RoutineLog.{InvalidRoutineName, validate_routine_name}
use nomothetic.RoutineManager.{Config, RoutineProcess, RoutineManager, ReturnCode, is_live, modify}
use nomothetic.RoutineManager.Calls.{
  Request, new_process, start, heartbeat, stop, stop_all, mark_all, terminate, renew, register,
  send_interrupt, mark, mark_live, find_live, beat, stop_found, if_valid,
}
use nomothetic.RoutineManager.Monitor.{
  finish, finish_entry, leave, fire_timer, end_grace, cancel_monitor, exit_process,
}
use nomothetic.RoutineManager.Started.{start_cases}
use nomothetic.RoutineManager.Steps.{
  Event, starts, beats, stops, stops_all, terminates, fires, kills, cancels, exits, finishes, waits,
  handle,
}

module _ {Data : Type 0} where
  -- The launch id of a start is new.
  abbrev pub IsFresh : Event → RoutineManager Data → Type 0
  IsFresh (starts r) m = Dict.get m.processes r.launch_id ≡ none
  IsFresh _ m = Unit

module _ {Data : Type 0} (empty : Data) (stop_data : Text → Option ReturnCode → Data)
    (config : Config) (now : ℕ) where
  abbrev KeptBy : (RoutineManager Data → Type 0) → (RoutineProcess → RoutineProcess) → Type 0
  KeptBy P f = (id : Text) (m : RoutineManager Data) → P m → P (modify f id m)

  -- Each change of an entry keeps the property, and so do a new entry and the end of one.
  pub record IsKept (P : RoutineManager Data → Type 0) : Type 0 where
    pub renews : KeptBy P (renew now)
    pub interrupts : KeptBy P (send_interrupt now)
    pub fires_timer : KeptBy P (fire_timer now)
    pub ends_grace : KeptBy P (end_grace now config.grace_period)
    pub is_cancelled : KeptBy P (cancel_monitor now)
    pub ends_process : (code : ReturnCode) → KeptBy P (exit_process code)
    pub marks : (reason : Text) → KeptBy P (mark reason)
    pub marks_live : (reason : Text) → KeptBy P (mark_live reason)
    pub registers :
        (r : Request) (pid heartbeat_timeout : ℕ) (max_duration : Option ℕ)
        (m : RoutineManager Data)
        → Dict.get m.processes r.launch_id ≡ none
        → find_live r.routine m ≡ none
        → P m
        → P (register (new_process r pid heartbeat_timeout max_duration now) m)
    pub leaves :
        (now_iso id : Text) (e : RoutineProcess) (m : RoutineManager Data)
        → P m
        → P (leave empty stop_data config now_iso id e m)

  module _ (P : RoutineManager Data → Type 0) (kept : IsKept P) where
    start_kept :
        (r : Request) (m : RoutineManager Data)
        → Dict.get m.processes r.launch_id ≡ none
        → P m
        → P (start config r now m).1
    start_kept r m fresh h = elim (start_cases config r now m) [
      | inl s ↦
          subst (λ x. P x.1) (sym s.result)
            (kept.registers r s.pid s.heartbeat_timeout s.max_duration m fresh s.free h)
      | inr s ↦ subst (λ x. P x.1) (sym s.result) h
    ]

    if_valid-kept {ℓ} :
        {A : Type ℓ} (valid : Result InvalidRoutineName Text) (m : RoutineManager Data)
        (call : A × RoutineManager Data)
        → P m
        → P call.1
        → P (if_valid valid m call).1
    if_valid-kept (raised e) m call h k = h
    if_valid-kept (ok name) m call h k = k

    beat-kept :
        (live : Option RoutineProcess) (m : RoutineManager Data) → P m → P (beat now live m).1
    unfolding beat
    beat-kept none m h = h
    beat-kept (some e) m h = kept.renews e.launch_id m h

    stop_found-kept :
        (live : Option RoutineProcess) (m : RoutineManager Data) → P m → P (stop_found now live m).1
    unfolding stop_found terminate
    stop_found-kept none m h = h
    stop_found-kept (some e) m h =
        kept.interrupts e.launch_id (modify (mark (text "operator_request")) e.launch_id m)
          (kept.marks (text "operator_request") e.launch_id m h)

    mark_all-kept :
        (reason : Text) (running : Dict Text) (m : RoutineManager Data)
        → P m
        → P (mark_all reason running m)
    unfolding mark_all
    mark_all-kept reason [] m h = h
    mark_all-kept reason ((routine, id) ∷ rest) m h =
        mark_all-kept reason rest (modify (mark_live reason) id m) (kept.marks_live reason id m h)

    if-kept : (b : Bool) (m m' : RoutineManager Data) → P m → P m' → P (if b then m else m')
    if-kept true m m' h k = h
    if-kept false m m' h k = k

    finish_entry-kept :
        (now_iso id : Text) (found : Option RoutineProcess) (m : RoutineManager Data)
        → P m
        → P (finish_entry empty stop_data config now_iso id found m)
    unfolding finish_entry
    finish_entry-kept now_iso id none m h = h
    finish_entry-kept now_iso id (some e) m h =
        if-kept (is_live e) m (leave empty stop_data config now_iso id e m) h
          (kept.leaves now_iso id e m h)

    pub handle-kept :
        (event : Event) (m : RoutineManager Data)
        → IsFresh event m
        → P m
        → P (handle empty stop_data config event now m)
    unfolding handle heartbeat stop stop_all finish terminate
    handle-kept (starts r) m fresh h = start_kept r m fresh h
    handle-kept (beats routine) m fresh h =
        if_valid-kept (validate_routine_name routine) m (beat now (find_live routine m) m) h
          (beat-kept (find_live routine m) m h)
    handle-kept (stops routine) m fresh h =
        if_valid-kept (validate_routine_name routine) m (stop_found now (find_live routine m) m) h
          (stop_found-kept (find_live routine m) m h)
    handle-kept (stops_all reason) m fresh h = mark_all-kept reason m.running m h
    handle-kept (terminates id) m fresh h = kept.interrupts id m h
    handle-kept (fires id) m fresh h = kept.fires_timer id m h
    handle-kept (kills id) m fresh h = kept.ends_grace id m h
    handle-kept (cancels id) m fresh h = kept.is_cancelled id m h
    handle-kept (exits code id) m fresh h = kept.ends_process code id m h
    handle-kept (finishes now_iso id) m fresh h =
        finish_entry-kept now_iso id (Dict.get m.processes id) m h
    handle-kept (waits t) m fresh h = h
