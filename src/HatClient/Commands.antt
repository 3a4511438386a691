-- ===== src/HatClient/Commands.antt =====
-- What the daemon gets to read over any calls of the client.
use nomothetic.Base.{
  ℕ, suc, ◌+◌, ◌-◌, ◌*◌, ◌≤◌, ◌≡◌, refl, Bool, true, false, ◌&&◌, Option, none, some, List, [], ◌∷◌,
  length, ok, raised, arith, leb, if◌then◌else◌,
}
use mathlib.Core.Path.{sym, subst}
use nomothetic.AiCommand.{is_speed, is_angle, one}
use nomothetic.HatClient.Methods.{
  call, guarded, call_set_servo_pulse_us, call_set_servo_angle, call_set_motor_speed, call_drive,
  call_steer, call_pan_camera, call_tilt_camera, call_set_volume, call_set_mic_gain,
}
use nomothetic.HatClient.{
  Command, set_servo_pulse_us, set_servo_angle, set_motor_speed, drive, steer, pan_camera,
  tilt_camera, set_volume, set_mic_gain, set_motor_calibration, set_servo_calibration,
  calibrate_grayscale, start_routine, plain, is_between, passes, Request, connection_error,
  timeout_error, value_error, foreign_error, daemon_error, HatClient, Io, did, timed_out, os_error,
  Daemon, Float,
}
use nomothetic.HatClient.Requests.{
  Codec, Answer, after_sendall, send_request, connected, connect, connect_without, shut_all, close,
  next_id, ensure_connected, exchange, after_connect, reconnect, retry, request_on, request,
}

-- A finite float from `- low` to `high`.
abbrev pub is_within : (low high : ℕ) → Float → Bool
is_within low high none = false
is_within low high (some n) = leb n.magnitude ((if n.negative then low else high) * one)

-- The bounds that the hardware is to be driven in: channels, pulses, angles, speeds and volumes.
abbrev pub is_in_range : Command → Bool
is_in_range (set_servo_pulse_us channel pulse_us ttl_ms) =
    is_between 0 11 channel && is_between 500 2500 pulse_us
is_in_range (set_servo_angle channel angle_deg ttl_ms) =
    is_between 0 11 channel && is_within 0 180 angle_deg
is_in_range (set_motor_speed channel speed_pct ttl_ms) =
    is_between 0 3 channel && is_within 100 100 speed_pct
is_in_range (drive speed_pct ttl_ms) = is_within 100 100 speed_pct
is_in_range (steer angle_deg ttl_ms) = is_within 0 180 angle_deg
is_in_range (pan_camera angle_deg ttl_ms) = is_within 0 180 angle_deg
is_in_range (tilt_camera angle_deg ttl_ms) = is_within 0 180 angle_deg
is_in_range (set_volume volume_pct) = is_between 0 100 volume_pct
is_in_range (set_mic_gain gain_pct) = is_between 0 100 gain_pct
is_in_range _ = true

angle_within : (angle : Float) → passes is_angle angle ≡ true → is_within 0 180 angle ≡ true
angle_within none h = h
angle_within (some n) h = ground (arith, h)

speed_within : (speed : Float) → passes is_speed speed ≡ true → is_within 100 100 speed ≡ true
speed_within none h = h
speed_within (some n) h = ground (arith, h)

both_within : (a b c : Bool) → (b ≡ true → c ≡ true) → (a && b) ≡ true → (a && c) ≡ true
both_within true b c h e = h e
both_within false b c h e = e

-- The uses of a client.
pub data Use : Type 0 where
  calls : Command → Use
  connects closes : Use

-- A daemon that writes down what it is sent, the latest first.
unfoldable pub recorded : {Conn W : Type 0} → Daemon Conn W → Daemon Conn (List Request × W)
recorded d = record {
  dial = λ w. let got = d.dial w.1 in (got.0, (w.0, got.1));
  sendall = λ s req w. let got = d.sendall s req w.1 in (got.0, (req ∷ w.0, got.1));
  readline = λ s w. let got = d.readline s w.1 in (got.0, (w.0, got.1));
  shut = λ s w. (w.0, d.shut s w.1);
}

-- Requests in range, the latest first, whose ids are above 0, grow with each and end at `n` at most.
abbrev pub IsLog : (n : ℕ) → List Request → Type 0
IsLog n [] = Unit
IsLog n (r ∷ rs) = (1 ≤ r.id) × (r.id ≤ n) × (is_in_range r.command ≡ true) × IsLog (r.id - 1) rs

IsLog-le : (m n : ℕ) (rs : List Request) → m ≤ n → IsLog m rs → IsLog n rs
IsLog-le m n [] le h = h
IsLog-le m n (r ∷ rs) le h = (h.0, omega (arith, h.1, le), h.2, h.3)

module _ {Conn Json W : Type 0} (daemon : Daemon Conn W) (codec : Codec Json) where
  abbrev pub use_client : Use → HatClient Conn → W → HatClient Conn × W
  use_client (calls command) c w = (call daemon codec command c w).1
  use_client connects c w = (connect daemon codec c w).1
  use_client closes c w = close daemon codec c w

  abbrev pub use_all : List Use → HatClient Conn × W → HatClient Conn × W
  use_all [] state = state
  use_all (u ∷ us) (c, w) = use_all us (use_client u c w)

module _ {Conn Json W : Type 0} (daemon : Daemon Conn W) (codec : Codec Json) where
  -- At most `sent` requests are written down, in order and in range.
  abbrev IsSound : (sent : ℕ) → HatClient Conn × (List Request × W) → Type 0
  IsSound sent (c, (log, w)) = IsLog c.req_counter log × (length log ≤ sent)

  IsSound-le :
      (m n : ℕ) (state : HatClient Conn × (List Request × W))
      → m ≤ n
      → IsSound m state
      → IsSound n state
  IsSound-le m n (c, (log, w)) le (h, l) = (h, omega (arith, le, l))

  connected-IsSound :
      (n : ℕ) (c : HatClient Conn) (got : Option Conn × (List Request × W))
      → IsSound n (c, got.1)
      → IsSound n (connected (recorded daemon) codec c got).1
  unfolding connected
  connected-IsSound n c (none, w) h = h
  connected-IsSound n c (some s, w) h = h

  connect-IsSound :
      (n : ℕ) (c : HatClient Conn) (w : List Request × W)
      → IsSound n (c, w)
      → IsSound n (connect (recorded daemon) codec c w).1
  unfolding connect recorded
  connect-IsSound n c w h = connected-IsSound n c ((recorded daemon).dial w) h

  ensure_connected-IsSound :
      (n : ℕ) (c : HatClient Conn) (w : List Request × W)
      → IsSound n (c, w)
      → IsSound n (ensure_connected (recorded daemon) codec c w).1
  unfolding ensure_connected connect_without
  ensure_connected-IsSound n c w h = go c.sock
    where
      go : (sock : Option Conn) → IsSound n (connect_without (recorded daemon) codec sock c w).1
      go none = connect-IsSound n c w h
      go (some s) = h

  shut_all_log :
      (sock : Option Conn) (w : List Request × W)
      → (shut_all (recorded daemon) codec sock w).0 ≡ w.0
  unfolding shut_all recorded
  shut_all_log none w = refl
  shut_all_log (some s) w = refl

  close-IsSound :
      (n : ℕ) (c : HatClient Conn) (w : List Request × W)
      → IsSound n (c, w)
      → IsSound n (close (recorded daemon) codec c w)
  unfolding close
  close-IsSound n c w h =
      let e = shut_all_log c.sock w in
      (subst (λ log. IsLog c.req_counter log) (sym e) h.0, ground (arith, e, h.1))

  reconnect-IsSound :
      (n : ℕ) (c : HatClient Conn) (w : List Request × W)
      → IsSound n (c, w)
      → IsSound n (reconnect (recorded daemon) codec c w).1
  unfolding reconnect
  reconnect-IsSound n c w h =
      let closed = close (recorded daemon) codec c w in
      connect-IsSound n closed.0 closed.1 (close-IsSound n c w h)

  -- One request at most goes out, and the reader writes nothing down.
  after_sendall_log :
      (s : Conn) (sent : Io Unit × (List Request × W))
      → (after_sendall (recorded daemon) codec s sent).1.0 ≡ sent.1.0
  unfolding after_sendall recorded
  after_sendall_log s (timed_out, w) = refl
  after_sendall_log s (os_error, w) = refl
  after_sendall_log s (did done, w) = refl

  send_request_log :
      (P : List Request → Type 0) (req : Request) (sock : Option Conn) (w : List Request × W)
      → P w.0
      → P (req ∷ w.0)
      → P (send_request (recorded daemon) codec req sock w).1.0
  unfolding send_request recorded
  send_request_log P req none w keeps grows = keeps
  send_request_log P req (some s) w keeps grows =
      subst P (sym (after_sendall_log s ((recorded daemon).sendall s req w))) grows

  exchange-IsSound :
      (n : ℕ) (command : Command) (c : HatClient Conn) (w : List Request × W)
      → is_in_range command ≡ true
      → IsSound n (c, w)
      → IsSound (suc n) (exchange (recorded daemon) codec command c w).1
  unfolding exchange next_id
  exchange-IsSound n command c w fits h =
      send_request_log (λ log. IsLog (suc c.req_counter) log × (length log ≤ suc n))
        (record { id = suc c.req_counter; command = command }) c.sock w
        (IsLog-le c.req_counter (suc c.req_counter) w.0 (omega arith) h.0, omega (arith, h.1))
        (
          (
            omega arith,
            omega arith,
            fits,
            IsLog-le c.req_counter (suc c.req_counter - 1) w.0 (omega arith) h.0,
          ),
          omega (arith, h.1),
        )

  after_connect-IsSound :
      (n : ℕ) (command : Command) (got : Answer (recorded daemon) codec Unit)
      → is_in_range command ≡ true
      → IsSound n got.1
      → IsSound (suc n) (after_connect (recorded daemon) codec command got).1
  unfolding after_connect
  after_connect-IsSound n command (raised e, state) fits h =
      IsSound-le n (suc n) state (omega arith) h
  after_connect-IsSound n command (ok done, (c, w)) fits h = exchange-IsSound n command c w fits h

  retry-IsSound :
      (n : ℕ) (command : Command) (got : Answer (recorded daemon) codec (Option Json))
      → is_in_range command ≡ true
      → IsSound n got.1
      → IsSound (suc n) (retry (recorded daemon) codec command got).1
  unfolding retry
  retry-IsSound n command (raised connection_error, (c, w)) fits h =
      after_connect-IsSound n command (reconnect (recorded daemon) codec c w) fits
        (reconnect-IsSound n c w h)
  retry-IsSound n command (raised timeout_error, s) fits h = IsSound-le n (suc n) s (omega arith) h
  retry-IsSound n command (raised value_error, s) fits h = IsSound-le n (suc n) s (omega arith) h
  retry-IsSound n command (raised foreign_error, s) fits h = IsSound-le n (suc n) s (omega arith) h
  retry-IsSound n command (raised (daemon_error code message), s) fits h =
      IsSound-le n (suc n) s (omega arith) h
  retry-IsSound n command (ok result, s) fits h = IsSound-le n (suc n) s (omega arith) h

  request_on-IsSound :
      (n : ℕ) (command : Command) (got : Answer (recorded daemon) codec Unit)
      → is_in_range command ≡ true
      → IsSound n got.1
      → IsSound (suc (suc n)) (request_on (recorded daemon) codec command got).1
  unfolding request_on
  request_on-IsSound n command (raised e, s) fits h = IsSound-le n (suc (suc n)) s (omega arith) h
  request_on-IsSound n command (ok done, (c, w)) fits h =
      retry-IsSound (suc n) command (exchange (recorded daemon) codec command c w) fits
        (exchange-IsSound n command c w fits h)

  request-IsSound :
      (n : ℕ) (command : Command) (c : HatClient Conn) (w : List Request × W)
      → is_in_range command ≡ true
      → IsSound n (c, w)
      → IsSound (suc (suc n)) (request (recorded daemon) codec command c w).1
  unfolding request
  request-IsSound n command c w fits h =
      request_on-IsSound n command (ensure_connected (recorded daemon) codec c w) fits
        (ensure_connected-IsSound n c w h)

  guarded-IsSound :
      (n : ℕ) (test : Bool) (command : Command) (c : HatClient Conn) (w : List Request × W)
      → (test ≡ true → is_in_range command ≡ true)
      → IsSound n (c, w)
      → IsSound (suc (suc n)) (guarded (recorded daemon) codec test command c w).1
  unfolding guarded
  guarded-IsSound n true command c w fits h = request-IsSound n command c w (fits refl) h
  guarded-IsSound n false command c w fits h = IsSound-le n (suc (suc n)) (c, w) (omega arith) h

  call-IsSound :
      (n : ℕ) (command : Command) (c : HatClient Conn) (w : List Request × W)
      → IsSound n (c, w)
      → IsSound (suc (suc n)) (call (recorded daemon) codec command c w).1
  unfolding call call_set_servo_pulse_us call_set_servo_angle call_set_motor_speed call_drive
      call_steer call_pan_camera call_tilt_camera call_set_volume call_set_mic_gain
  call-IsSound n (set_servo_pulse_us channel pulse_us ttl_ms) c w h =
      guarded-IsSound n (is_between 0 11 channel && is_between 500 2500 pulse_us)
        (set_servo_pulse_us channel pulse_us ttl_ms) c w (λ e. e) h
  call-IsSound n (set_servo_angle channel angle_deg ttl_ms) c w h =
      guarded-IsSound n (is_between 0 11 channel && passes is_angle angle_deg)
        (set_servo_angle channel angle_deg ttl_ms) c w
        (both_within (is_between 0 11 channel) (passes is_angle angle_deg)
          (is_within 0 180 angle_deg) (angle_within angle_deg))
        h
  call-IsSound n (set_motor_speed channel speed_pct ttl_ms) c w h =
      guarded-IsSound n (is_between 0 3 channel && passes is_speed speed_pct)
        (set_motor_speed channel speed_pct ttl_ms) c w
        (both_within (is_between 0 3 channel) (passes is_speed speed_pct)
          (is_within 100 100 speed_pct) (speed_within speed_pct))
        h
  call-IsSound n (drive speed_pct ttl_ms) c w h =
      guarded-IsSound n (passes is_speed speed_pct) (drive speed_pct ttl_ms) c w
        (speed_within speed_pct) h
  call-IsSound n (steer angle_deg ttl_ms) c w h =
      guarded-IsSound n (passes is_angle angle_deg) (steer angle_deg ttl_ms) c w
        (angle_within angle_deg) h
  call-IsSound n (pan_camera angle_deg ttl_ms) c w h =
      guarded-IsSound n (passes is_angle angle_deg) (pan_camera angle_deg ttl_ms) c w
        (angle_within angle_deg) h
  call-IsSound n (tilt_camera angle_deg ttl_ms) c w h =
      guarded-IsSound n (passes is_angle angle_deg) (tilt_camera angle_deg ttl_ms) c w
        (angle_within angle_deg) h
  call-IsSound n (set_volume volume_pct) c w h =
      guarded-IsSound n (is_between 0 100 volume_pct) (set_volume volume_pct) c w (λ e. e) h
  call-IsSound n (set_mic_gain gain_pct) c w h =
      guarded-IsSound n (is_between 0 100 gain_pct) (set_mic_gain gain_pct) c w (λ e. e) h
  call-IsSound n (set_motor_calibration channel speed_scale deadband_pct is_reversed) c w h =
      request-IsSound n (set_motor_calibration channel speed_scale deadband_pct is_reversed) c w
        refl h
  call-IsSound n (set_servo_calibration servo trim_us) c w h =
      request-IsSound n (set_servo_calibration servo trim_us) c w refl h
  call-IsSound n (calibrate_grayscale channel surface) c w h =
      request-IsSound n (calibrate_grayscale channel surface) c w refl h
  call-IsSound n
        (start_routine name speed_pct obstacle_threshold_cm cliff_threshold_normalized
          max_duration_s)
        c w h =
      request-IsSound n
        (start_routine name speed_pct obstacle_threshold_cm cliff_threshold_normalized
          max_duration_s)
        c w refl h
  call-IsSound n (plain method) c w h = request-IsSound n (plain method) c w refl h

  use_client-IsSound :
      (n : ℕ) (u : Use) (c : HatClient Conn) (w : List Request × W)
      → IsSound n (c, w)
      → IsSound (suc (suc n)) (use_client (recorded daemon) codec u c w)
  use_client-IsSound n (calls command) c w h = call-IsSound n command c w h
  use_client-IsSound n connects c w h =
      let s = connect (recorded daemon) codec c w in
      IsSound-le n (suc (suc n)) s.1 (omega arith) (connect-IsSound n c w h)
  use_client-IsSound n closes c w h =
      IsSound-le n (suc (suc n)) (close (recorded daemon) codec c w) (omega arith)
        (close-IsSound n c w h)

  -- However the client is used, and whatever connections are lost, the daemon is sent only commands
  -- whose channels, pulses, angles, speeds and volumes are in range (calibrations and routines have no
  -- range here), each with a larger id than the one before, and at most two requests for each use: from
  -- a state where that holds of what was sent and `n` bounds it, it holds after.
  pub use_all_sound :
      (uses : List Use) (n : ℕ) (c : HatClient Conn) (log : List Request) (w : W)
      → IsLog c.req_counter log
      → length log ≤ n
      → let after = use_all (recorded daemon) codec uses (c, (log, w)) in
        IsLog after.0.req_counter after.1.0 × (length after.1.0 ≤ n + 2 * length uses)
  use_all_sound [] n c log w h l = (h, omega (arith, l))
  use_all_sound (u ∷ uses) n c log w h l =
      let next = use_client (recorded daemon) codec u c (log, w) in
      let s = use_client-IsSound n u c (log, w) (h, l) in
      let rest = use_all_sound uses (suc (suc n)) next.0 next.1.0 next.1.1 s.0 s.1 in
      (rest.0, omega (arith, rest.1))
