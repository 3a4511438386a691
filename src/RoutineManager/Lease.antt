-- ===== src/RoutineManager/Lease.antt =====
-- The watchdog: how long a process lives without a heartbeat.
use nomothetic.Base.{ℕ, ◌+◌, ◌≤◌, ◌≡◌, ◌⊎◌}
use nomothetic.Base.Text.{Text}
use nomothetic.Base.Dict
use nomothetic.Base.Dict.{Dict, put-AllValues, remove-AllValues}
use nomothetic.RoutineManager.{Signal, killed, interrupted, MonitorState, cancelled}
use nomothetic.RoutineManager.Timely.{Timely}

-- What has been done by `now` about a process that was due at `due`.
abbrev pub IsBeingStopped : Signal → MonitorState → (now grace_period due : ℕ) → Type 0
IsBeingStopped s monitor now grace_period due =
    (s ≡ killed)
    ⊎ ((since : ℕ) × (s ≡ interrupted since)
        × (now ≤ since + grace_period)
        × ((since ≤ due) ⊎ ((monitor ≡ cancelled) × (since ≤ due + grace_period))))
