-- ===== src/RoutineManager/Timely.antt =====
-- One entry in time: what each change of it keeps true of its timers and its deadline.
use nomothetic.Base.{
  ℕ, ◌+◌, ◌≤◌, ◌≡◌, refl, Bool, true, false, Option, none, some, arith, leb, if◌then◌else◌,
}
use nomothetic.Base.Text.{Text}
use nomothetic.RoutineManager.{
  RoutineProcess, ReturnCode, Signal, no_signal, killed, interrupted, MonitorState, sleeping,
  stopping, cancelled, deadline, capped,
}
use nomothetic.RoutineManager.Calls.{send_interrupt, mark, mark_live, renew}
use nomothetic.RoutineManager.Monitor.{
  fire_timer, end_grace, exit_process, cancel_monitor, lapsed_reason, renew_or_stop, is_unlocked,
  terminate_again, interrupt_again,
}
use nomothetic.RoutineManager.Steps.{IsIdleUntil}

-- Of a live process: with nothing sent, the timer is not past and not beyond the deadline; with SIGINT
-- sent, it was sent by the deadline, or again within the grace period when the monitor was cancelled,
-- and the grace period of the last one is not past.
abbrev pub Timely : Signal → MonitorState → (now grace_period due : ℕ) → Type 0
Timely no_signal (sleeping until) now grace_period due = (now ≤ until) × (until ≤ due)
Timely no_signal (stopping has_lock) now grace_period due = ⊥
Timely no_signal cancelled now grace_period due = ⊥
Timely killed monitor now grace_period due = Unit
Timely (interrupted since) cancelled now grace_period due =
    (now ≤ since + grace_period) × (since ≤ due + grace_period)
Timely (interrupted since) (sleeping until) now grace_period due =
    (now ≤ since + grace_period) × (since ≤ due)
Timely (interrupted since) (stopping has_lock) now grace_period due =
    (now ≤ since + grace_period) × (since ≤ due)

abbrev pub IsTimely : (now grace_period : ℕ) → RoutineProcess → Type 0
IsTimely now grace_period e = (e.last_heartbeat ≤ now) × elim e.returncode [
  | some code ↦ Unit
  | none ↦ Timely e.signal e.monitor now grace_period (deadline e)
]

capped_mono :
    (a b started : ℕ) (max_duration : Option ℕ)
    → a ≤ b
    → capped a started max_duration ≤ capped b started max_duration
capped_mono a b started max_duration h = ground (arith, h)

Timely-mono :
    (s : Signal) (monitor : MonitorState) (now grace_period a b : ℕ)
    → a ≤ b
    → Timely s monitor now grace_period a
    → Timely s monitor now grace_period b
Timely-mono no_signal (sleeping until) now grace_period a b h t = (t.0, omega arith)
Timely-mono no_signal (stopping has_lock) now grace_period a b h t = t
Timely-mono no_signal cancelled now grace_period a b h t = t
Timely-mono killed monitor now grace_period a b h t = tt
Timely-mono (interrupted since) cancelled now grace_period a b h t = (t.0, omega arith)
Timely-mono (interrupted since) (sleeping until) now grace_period a b h t = (t.0, omega arith)
Timely-mono (interrupted since) (stopping has_lock) now grace_period a b h t = (t.0, omega arith)

-- An entry with its process, its signal and its monitor apart.
abbrev with_state : Option ReturnCode → Signal → MonitorState → RoutineProcess → RoutineProcess
with_state code s monitor e = record e { returncode = code; signal = s; monitor = monitor }

abbrev pub KeepsTimely : (now grace_period : ℕ) → (RoutineProcess → RoutineProcess) → Type 0
KeepsTimely now grace_period f =
    (e : RoutineProcess) → IsTimely now grace_period e → IsTimely now grace_period (f e)

-- It is enough to look at each state.
abbrev pub KeepsTimelyAt : (now grace_period : ℕ) → (RoutineProcess → RoutineProcess) → Type 0
KeepsTimelyAt now grace_period f =
    (code : Option ReturnCode) (s : Signal) (monitor : MonitorState) (e : RoutineProcess)
    → IsTimely now grace_period (with_state code s monitor e)
    → IsTimely now grace_period (f (with_state code s monitor e))

pub by_state :
    (now grace_period : ℕ) (f : RoutineProcess → RoutineProcess)
    → KeepsTimelyAt now grace_period f
    → KeepsTimely now grace_period f
by_state now grace_period f h e t = h e.returncode e.signal e.monitor e t

if-IsTimely :
    (now grace_period : ℕ) (b : Bool) (x y : RoutineProcess)
    → (b ≡ true → IsTimely now grace_period x)
    → (b ≡ false → IsTimely now grace_period y)
    → IsTimely now grace_period (if b then x else y)
if-IsTimely now grace_period true x y h k = h refl
if-IsTimely now grace_period false x y h k = k refl

pub renew-Timely : (now grace_period : ℕ) → KeepsTimelyAt now grace_period (renew now)
renew-Timely now grace_period (some code) s monitor e t = (omega arith, tt)
renew-Timely now grace_period none s monitor e t = (
  omega arith,
  Timely-mono s monitor now grace_period (deadline e) (deadline (renew now e))
      (capped_mono (e.last_heartbeat + e.heartbeat_timeout) (now + e.heartbeat_timeout) e.started
        e.max_duration (omega (t.0, arith)))
      t.1,
)

pub interrupt-Timely : (now grace_period : ℕ) → KeepsTimelyAt now grace_period (send_interrupt now)
interrupt-Timely now grace_period (some code) no_signal monitor e t = t
interrupt-Timely now grace_period (some code) killed monitor e t = t
interrupt-Timely now grace_period (some code) (interrupted since) monitor e t = t
interrupt-Timely now grace_period none no_signal (sleeping until) e t =
    (t.0, (omega arith, omega (t.1, arith)))
interrupt-Timely now grace_period none no_signal (stopping has_lock) e t = absurd t.1
interrupt-Timely now grace_period none no_signal cancelled e t = absurd t.1
interrupt-Timely now grace_period none killed monitor e t = t
interrupt-Timely now grace_period none (interrupted since) monitor e t = t

pub cancel-Timely : (now grace_period : ℕ) → KeepsTimelyAt now grace_period (cancel_monitor now)
unfolding cancel_monitor terminate_again interrupt_again
cancel-Timely now grace_period (some code) no_signal (sleeping until) e t = t
cancel-Timely now grace_period (some code) killed (sleeping until) e t = t
cancel-Timely now grace_period (some code) (interrupted since) (sleeping until) e t = t
cancel-Timely now grace_period (some code) no_signal (stopping true) e t = t
cancel-Timely now grace_period (some code) killed (stopping true) e t = t
cancel-Timely now grace_period (some code) (interrupted since) (stopping true) e t = t
cancel-Timely now grace_period (some code) no_signal (stopping false) e t = t
cancel-Timely now grace_period (some code) killed (stopping false) e t = t
cancel-Timely now grace_period (some code) (interrupted since) (stopping false) e t = t
cancel-Timely now grace_period (some code) no_signal cancelled e t = t
cancel-Timely now grace_period (some code) killed cancelled e t = t
cancel-Timely now grace_period (some code) (interrupted since) cancelled e t = t
cancel-Timely now grace_period none no_signal (sleeping until) e t =
    (t.0, (omega arith, omega (t.1, arith)))
cancel-Timely now grace_period none no_signal (stopping has_lock) e t = absurd t.1
cancel-Timely now grace_period none no_signal cancelled e t = absurd t.1
cancel-Timely now grace_period none killed (sleeping until) e t = t
cancel-Timely now grace_period none killed (stopping true) e t = t
cancel-Timely now grace_period none killed (stopping false) e t = t
cancel-Timely now grace_period none killed cancelled e t = t
cancel-Timely now grace_period none (interrupted since) (sleeping until) e t =
    (t.0, (t.1.0, omega (t.1, arith)))
cancel-Timely now grace_period none (interrupted since) (stopping false) e t =
    (t.0, (t.1.0, omega (t.1, arith)))
cancel-Timely now grace_period none (interrupted since) (stopping true) e t =
    (t.0, (omega arith, omega (t.1, arith)))
cancel-Timely now grace_period none (interrupted since) cancelled e t = t

pub exit-Timely :
    (now grace_period : ℕ) (code : ReturnCode) → KeepsTimelyAt now grace_period (exit_process code)
unfolding exit_process
exit-Timely now grace_period code (some other) s monitor e t = t
exit-Timely now grace_period code none s monitor e t = (t.0, tt)

pub mark-Timely :
    (now grace_period : ℕ) (reason : Text) → KeepsTimelyAt now grace_period (mark reason)
mark-Timely now grace_period reason code s monitor e t = t

pub mark_live-Timely :
    (now grace_period : ℕ) (reason : Text) → KeepsTimelyAt now grace_period (mark_live reason)
mark_live-Timely now grace_period reason (some code) s monitor e t = t
mark_live-Timely now grace_period reason none s monitor e t = t

pub grace-Timely :
    (now grace_period : ℕ) → KeepsTimelyAt now grace_period (end_grace now grace_period)
unfolding end_grace
grace-Timely now grace_period (some code) s monitor e t = t
grace-Timely now grace_period none no_signal monitor e t = t
grace-Timely now grace_period none killed monitor e t = t
grace-Timely now grace_period none (interrupted since) monitor e t =
    if-IsTimely now grace_period (leb (since + grace_period) now) (with_state none killed monitor e)
      (with_state none (interrupted since) monitor e) (λ over. (t.0, tt)) (λ early. t)

-- The lease has not lapsed before the deadline.
lapsed_reason-none :
    (now : ℕ) (max_duration : Option ℕ) (e : RoutineProcess)
    → lapsed_reason now (record e { max_duration = max_duration }) ≡ none
    → now ≤ deadline (record e { max_duration = max_duration })
unfolding lapsed_reason
lapsed_reason-none now none e h = ground (arith, h)
lapsed_reason-none now (some cap) e h = ground (arith, h)

stop-Timely :
    (now grace_period until : ℕ) (reason : Text) (s : Signal) (e : RoutineProcess)
    → IsTimely now grace_period (with_state none s (sleeping until) e)
    → IsTimely now grace_period
        (record (send_interrupt now (mark reason (with_state none s (sleeping until) e))) {
          monitor = stopping (is_unlocked s);
        })
stop-Timely now grace_period until reason no_signal e t = (t.0, (omega arith, omega (t.1, arith)))
stop-Timely now grace_period until reason killed e t = t
stop-Timely now grace_period until reason (interrupted since) e t = t

rearm-Timely :
    (now grace_period until : ℕ) (s : Signal) (e : RoutineProcess)
    → now ≤ deadline e
    → IsTimely now grace_period (with_state none s (sleeping until) e)
    → IsTimely now grace_period (with_state none s (sleeping (deadline e)) e)
rearm-Timely now grace_period until no_signal e h t = (t.0, (h, omega arith))
rearm-Timely now grace_period until killed e h t = t
rearm-Timely now grace_period until (interrupted since) e h t = t

on_timer-Timely :
    (now grace_period until : ℕ) (s : Signal) (e : RoutineProcess) (reason : Option Text)
    → lapsed_reason now (with_state none s (sleeping until) e) ≡ reason
    → IsTimely now grace_period (with_state none s (sleeping until) e)
    → IsTimely now grace_period (renew_or_stop now reason (with_state none s (sleeping until) e))
unfolding renew_or_stop
on_timer-Timely now grace_period until s e none h t =
    rearm-Timely now grace_period until s e
      (lapsed_reason-none now e.max_duration (with_state none s (sleeping until) e) h) t
on_timer-Timely now grace_period until s e (some reason) h t =
    stop-Timely now grace_period until reason s e t

pub fire-Timely : (now grace_period : ℕ) → KeepsTimelyAt now grace_period (fire_timer now)
unfolding fire_timer
fire-Timely now grace_period (some code) s monitor e t = t
fire-Timely now grace_period none s (stopping has_lock) e t = t
fire-Timely now grace_period none s cancelled e t = t
fire-Timely now grace_period none s (sleeping until) e t =
    let e' = with_state none s (sleeping until) e in
    if-IsTimely now grace_period (leb until now) (renew_or_stop now (lapsed_reason now e') e') e'
      (λ due. on_timer-Timely now grace_period until s e (lapsed_reason now e') refl t) (λ early. t)

-- The clock goes on to a time before which no timer is due.
pub wait-Timely :
    (now t grace_period : ℕ) (code : Option ReturnCode) (s : Signal) (monitor : MonitorState)
    (e : RoutineProcess)
    → now ≤ t
    → IsIdleUntil grace_period t (with_state code s monitor e)
    → IsTimely now grace_period (with_state code s monitor e)
    → IsTimely t grace_period (with_state code s monitor e)
wait-Timely now t grace_period (some code) s monitor e le idle h = (omega (h.0, arith), tt)
wait-Timely now t grace_period none no_signal (sleeping until) e le idle h =
    (omega (h.0, arith), (idle.0, h.1.1))
wait-Timely now t grace_period none no_signal (stopping has_lock) e le idle h = absurd h.1
wait-Timely now t grace_period none no_signal cancelled e le idle h = absurd h.1
wait-Timely now t grace_period none killed monitor e le idle h = (omega (h.0, arith), tt)
wait-Timely now t grace_period none (interrupted since) cancelled e le idle h =
    (omega (h.0, arith), (idle.1, h.1.1))
wait-Timely now t grace_period none (interrupted since) (sleeping until) e le idle h =
    (omega (h.0, arith), (idle.1, h.1.1))
wait-Timely now t grace_period none (interrupted since) (stopping has_lock) e le idle h =
    (omega (h.0, arith), (idle.1, h.1.1))
