-- ===== src/RoutineManager/Registry.antt =====
-- What each change of the manager keeps true of `_running`: the live entries stand in it.
use nomothetic.Base.{
  ℕ, ◌+◌, ◌≡◌, refl, Bool, true, false, Option, none, some, arith, leb, if◌then◌else◌, Bool-cases,
  inl, inr, ◌⊎◌,
}
use mathlib.Core.Path.{subst, sym, ◌∙◌}
use nomothetic.Base.Text.{Text, text, text_eq, text_eq_iff, text_eq_refl}
use nomothetic.Base.Dict
use nomothetic.Base.Dict.{Dict, get-put, get-remove}
use nomothetic.RoutineManager.{
  Config, RoutineProcess, RoutineManager, ReturnCode, Signal, no_signal, killed, interrupted,
  MonitorState, sleeping, stopping, cancelled, is_live, modify,
}
use nomothetic.RoutineManager.Calls.{
  Request, new_process, register, send_interrupt, mark, mark_live, find_live,
}
use nomothetic.RoutineManager.Monitor.{
  leave, fire_timer, end_grace, cancel_monitor, terminate_again, interrupt_again, is_unlocked,
  exit_process, unregister, renew_or_stop, on_timer, after_grace, lapsed_reason, is_id,
}

-- The entry stands under its launch id, and while its process lives it is the one that `_running` has
-- under its routine.
abbrev pub IsOwn : Dict Text → (id : Text) → RoutineProcess → Type 0
IsOwn running id e = (e.launch_id ≡ id) × (is_live e ≡ true → Dict.get running e.routine ≡ some id)

-- A change that keeps an entry so.
abbrev KeepsOwn : (RoutineProcess → RoutineProcess) → Type 0
KeepsOwn f =
    (running : Dict Text) (id : Text) (e : RoutineProcess)
    → IsOwn running id e
    → IsOwn running id (f e)

if-IsOwn :
    (running : Dict Text) (id : Text) (b : Bool) (x y : RoutineProcess)
    → IsOwn running id x
    → IsOwn running id y
    → IsOwn running id (if b then x else y)
if-IsOwn running id true x y h k = h
if-IsOwn running id false x y h k = k

dead-IsOwn :
    (running : Dict Text) (id : Text) (code : ReturnCode) (e : RoutineProcess)
    → IsOwn running id e
    → IsOwn running id (record e { returncode = some code })
dead-IsOwn running id code e o = (o.0, λ live. absurd (ground (arith, live)))

pub interrupt-KeepsOwn : (now : ℕ) → KeepsOwn (send_interrupt now)
interrupt-KeepsOwn now running id e o = go e.signal o
  where
    go :
        (s : Signal)
        → IsOwn running id (record e { signal = s })
        → IsOwn running id (send_interrupt now (record e { signal = s }))
    go no_signal h =
        if-IsOwn running id (is_live e) (record e { signal = interrupted now })
          (record e { signal = no_signal }) h h
    go killed h = h
    go (interrupted since) h = h

-- Neither a reason nor the place of the monitor counts.
marked-KeepsOwn :
    (now : ℕ) (reason : Text) (monitor : MonitorState) (running : Dict Text) (id : Text)
    (e : RoutineProcess)
    → IsOwn running id e
    → IsOwn running id (record (send_interrupt now (mark reason e)) { monitor = monitor })
marked-KeepsOwn now reason monitor running id e o =
    interrupt-KeepsOwn now running id (mark reason e) o

interrupt_again-KeepsOwn : (now : ℕ) (s : Signal) → KeepsOwn (interrupt_again now s)
unfolding interrupt_again
interrupt_again-KeepsOwn now killed running id e o = o
interrupt_again-KeepsOwn now no_signal running id e o =
    if-IsOwn running id (is_live e) (record e { signal = interrupted now }) e o o
interrupt_again-KeepsOwn now (interrupted since) running id e o =
    if-IsOwn running id (is_live e) (record e { signal = interrupted now }) e o o

terminate_again-KeepsOwn :
    (now : ℕ) (monitor : MonitorState) → KeepsOwn (terminate_again now monitor)
unfolding terminate_again
terminate_again-KeepsOwn now (stopping true) running id e o =
    interrupt_again-KeepsOwn now e.signal running id e o
terminate_again-KeepsOwn now (stopping false) running id e o = interrupt-KeepsOwn now running id e o
terminate_again-KeepsOwn now (sleeping until) running id e o = interrupt-KeepsOwn now running id e o
terminate_again-KeepsOwn now cancelled running id e o = interrupt-KeepsOwn now running id e o

pub cancel-KeepsOwn : (now : ℕ) → KeepsOwn (cancel_monitor now)
unfolding cancel_monitor
cancel-KeepsOwn now running id e o =
    terminate_again-KeepsOwn now e.monitor running id (mark (text "server_shutdown") e) o

pub exit-KeepsOwn : (code : ReturnCode) → KeepsOwn (exit_process code)
unfolding exit_process
exit-KeepsOwn code running id e o =
    if-IsOwn running id (is_live e) (record e { returncode = some code }) e
      (dead-IsOwn running id code e o) o

pub mark_live-KeepsOwn : (reason : Text) → KeepsOwn (mark_live reason)
mark_live-KeepsOwn reason running id e o = if-IsOwn running id (is_live e) (mark reason e) e o o

after_grace-KeepsOwn :
    (now grace_period : ℕ) (s : Signal) → KeepsOwn (after_grace now grace_period s)
unfolding after_grace
after_grace-KeepsOwn now grace_period no_signal running id e o = o
after_grace-KeepsOwn now grace_period killed running id e o = o
after_grace-KeepsOwn now grace_period (interrupted since) running id e o =
    if-IsOwn running id (leb (since + grace_period) now) (record e { signal = killed }) e o o

pub grace-KeepsOwn : (now grace_period : ℕ) → KeepsOwn (end_grace now grace_period)
unfolding end_grace
grace-KeepsOwn now grace_period running id e o =
    if-IsOwn running id (is_live e) (after_grace now grace_period e.signal e) e
      (after_grace-KeepsOwn now grace_period e.signal running id e o) o

renew_or_stop-KeepsOwn : (now : ℕ) (reason : Option Text) → KeepsOwn (renew_or_stop now reason)
unfolding renew_or_stop
renew_or_stop-KeepsOwn now none running id e o = o
renew_or_stop-KeepsOwn now (some reason) running id e o =
    marked-KeepsOwn now reason (stopping (is_unlocked e.signal)) running id e o

on_timer-KeepsOwn : (now : ℕ) (monitor : MonitorState) → KeepsOwn (on_timer now monitor)
unfolding on_timer
on_timer-KeepsOwn now (stopping has_lock) running id e o = o
on_timer-KeepsOwn now cancelled running id e o = o
on_timer-KeepsOwn now (sleeping until) running id e o =
    if-IsOwn running id (leb until now) (renew_or_stop now (lapsed_reason now e) e) e
      (renew_or_stop-KeepsOwn now (lapsed_reason now e) running id e o) o

pub fire-KeepsOwn : (now : ℕ) → KeepsOwn (fire_timer now)
unfolding fire_timer
fire-KeepsOwn now running id e o =
    if-IsOwn running id (is_live e) (on_timer now e.monitor e) e
      (on_timer-KeepsOwn now e.monitor running id e o) o

module _ {V : Type 0} (d : Dict V) (k j : Text) (v w : V) where
  get-put-cases :
      Dict.get (Dict.put d k v) j ≡ some w
      → ((k ≡ j) × (v ≡ w)) ⊎ ((text_eq k j ≡ false) × (Dict.get d j ≡ some w))
  get-put-cases h = ground (arith, h, get-put d k j v, text_eq_iff k j)

  get-remove-cases :
      Dict.get (Dict.remove d k) j ≡ some w → (text_eq k j ≡ false) × (Dict.get d j ≡ some w)
  get-remove-cases h = ground (arith, h, get-remove d k j)

get-put_same : (d : Dict Text) (k v : Text) → Dict.get (Dict.put d k v) k ≡ some v
get-put_same d k v = get-put d k k v ∙ rw (text_eq_refl k) refl

put-kept :
    (d : Dict Text) (k j v w : Text)
    → Dict.get d j ≡ some w
    → (k ≡ j → ⊥)
    → Dict.get (Dict.put d k v) j ≡ some w
put-kept d k j v w h other = elim (Bool-cases (text_eq k j)) [
  | inl same ↦ absurd (other ((text_eq_iff k j).0 same))
  | inr apart ↦ get-put d k j v ∙ (rw apart h)
]

unregister-kept :
    (running : Dict Text) (r id r' j : Text)
    → Dict.get running r' ≡ some j
    → text_eq id j ≡ false
    → Dict.get (unregister r id running) r' ≡ some j
unfolding unregister is_id
unregister-kept running r id r' j h apart =
    ground (
      arith,
      h,
      apart,
      get-remove running r r',
      text_eq_iff r r',
      text_eq_iff id j,
      text_eq_iff j id,
    )

-- Every entry of the manager is so.
module _ {Data : Type 0} where
  pub live-find_live :
      (routine : Text) (m : RoutineManager Data) (j : Text) (e : RoutineProcess)
      → Dict.get m.running routine ≡ some j
      → Dict.get m.processes j ≡ some e
      → is_live e ≡ true
      → find_live routine m ≡ some e
  unfolding find_live
  live-find_live routine m j e r g live = rw (r, g, live) refl

  other_live :
      (routine : Text) (m : RoutineManager Data) (j : Text) (e : RoutineProcess)
      → find_live routine m ≡ none
      → Dict.get m.running routine ≡ some j
      → Dict.get m.processes j ≡ some e
      → is_live e ≡ true
      → ⊥
  unfolding find_live
  other_live routine m j e free r g live = absurd (ground (arith, rw (r, g, live) at free))

  abbrev pub IsRegistered : RoutineManager Data → Type 0
  IsRegistered m =
      (id : Text) (e : RoutineProcess) → Dict.get m.processes id ≡ some e → IsOwn m.running id e

  pub modify-IsRegistered :
      (f : RoutineProcess → RoutineProcess) (id : Text) (m : RoutineManager Data)
      → KeepsOwn f
      → IsRegistered m
      → IsRegistered (modify f id m)
  unfolding modify
  modify-IsRegistered f id m keeps h = go (Dict.get m.processes id) refl
    where
      go :
          (found : Option RoutineProcess)
          → Dict.get m.processes id ≡ found
          → IsRegistered (elim found as (λ x. RoutineManager Data) [
            | none ↦ m
            | some e ↦ record m { processes = Dict.put m.processes id (f e) }
          ])
      go none g j e' g' = h j e' g'
      go (some e) g j e' g' = elim (get-put-cases m.processes id j (f e) e' g') [
        | inl same ↦
            subst (λ x. IsOwn m.running x e') same.0
              (subst (λ x. IsOwn m.running id x) same.1 (keeps m.running id e (h id e g)))
        | inr other ↦ h j e' other.1
      ]

  -- A new launch id, and a routine without a live process.
  register-IsRegistered :
      (e : RoutineProcess) (m : RoutineManager Data)
      → find_live e.routine m ≡ none
      → Dict.get m.processes e.launch_id ≡ none
      → IsRegistered m
      → IsRegistered (register e m)
  register-IsRegistered e m free fresh h j e' g' =
      elim (get-put-cases m.processes e.launch_id j e e' g') [
        | inl same ↦
            subst (λ x. IsOwn (register e m).running x e') same.0
              (subst (λ x. IsOwn (register e m).running e.launch_id x) same.1
                (refl, λ live. get-put_same m.running e.routine e.launch_id))
        | inr other ↦ (
          (h j e' other.1).0,
          λ live.
              let kept = (h j e' other.1).1 live in
              put-kept m.running e.routine e'.routine e.launch_id j kept (λ same.
                other_live e.routine m j e' free
                  (subst (λ x. Dict.get m.running x ≡ some j) (sym same) kept) other.1 live),
        )
      ]

  pub leave-IsRegistered :
      (empty : Data) (stop_data : Text → Option ReturnCode → Data) (config : Config)
      (now_iso id : Text) (e : RoutineProcess) (m : RoutineManager Data)
      → IsRegistered m
      → IsRegistered (leave empty stop_data config now_iso id e m)
  unfolding leave unregister
  leave-IsRegistered empty stop_data config now_iso id e m h j e' g' =
      let other = get-remove-cases m.processes id j e e' g' in
      (
        (h j e' other.1).0,
        λ live.
            unregister-kept m.running e.routine id e'.routine j ((h j e' other.1).1 live) other.0,
      )

  -- `register` of a new entry, whose routine and launch id are those of the request.
  pub started-IsRegistered :
      (r : Request) (pid heartbeat_timeout : ℕ) (max_duration : Option ℕ) (now : ℕ)
      (m : RoutineManager Data)
      → Dict.get m.processes r.launch_id ≡ none
      → find_live r.routine m ≡ none
      → IsRegistered m
      → IsRegistered (register (new_process r pid heartbeat_timeout max_duration now) m)
  unfolding new_process
  started-IsRegistered r pid heartbeat_timeout max_duration now m fresh free h =
      register-IsRegistered (new_process r pid heartbeat_timeout max_duration now) m free fresh h
