-- ===== src/HatClient.antt =====
-- src/nomothetic/hat.py: the client of the daemon that drives the hardware. A request runs under the
-- lock of the client, so it is one step. The socket and its reader are one connection. How a method
-- reads the result that it returns is left out, and so are the dumps of a request as JSON.
pub mod Requests
pub mod Methods
pub mod Commands
mod Examples
use nomothetic.Base.{ℕ, suc, Bool, true, false, not, ◌&&◌, ◌||◌, ◌==◌, Option, none, some, leb, ◌*◌}
use nomothetic.Base.Text.{Text}
use nomothetic.AiCommand.{Number, is_speed, is_angle}

-- A finite float, or none for an infinity or NaN, which no bound lets pass.
abbrev pub Float : Type 0
Float = Option Number

-- The methods of the client, with the parameters that each sends. `plain` is a method without.
pub data Command : Type 0 where
  set_servo_pulse_us : (channel pulse_us ttl_ms : Number) → Command
  set_servo_angle set_motor_speed : (channel : Number) (value : Float) (ttl_ms : Number) → Command
  drive steer pan_camera tilt_camera : (value : Float) (ttl_ms : Number) → Command
  set_volume set_mic_gain : (pct : Number) → Command
  set_motor_calibration :
      (channel : Number) (speed_scale deadband_pct : Option Float) (is_reversed : Option Bool)
      → Command
  set_servo_calibration : (servo : Text) (trim_us : Number) → Command
  calibrate_grayscale : (channel : Number) (surface : Text) → Command
  start_routine :
      (name : Text)
      (speed_pct obstacle_threshold_cm cliff_threshold_normalized max_duration_s : Option Float)
      → Command
  plain : (method : Text) → Command

-- `low <= n <= high`, of whole numbers.
abbrev pub is_between : (low high : ℕ) → Number → Bool
is_between low high n =
    (not n.negative || n.magnitude == 0) && leb low n.magnitude && leb n.magnitude high

abbrev pub passes : (Number → Bool) → Float → Bool
passes test none = false
passes test (some n) = test n

-- `id` is the number that `str` prints.
pub record Request : Type 0 where
  pub id : ℕ
  pub command : Command

-- `HatConnectionError`, `HatTimeoutError`, `HatError` with its code and message (none is the default),
-- `ValueError`, and an exception that the client does not expect.
pub data HatError (Json : Type 0) : Type 0 where
  connection_error timeout_error value_error foreign_error : HatError Json
  daemon_error : (code message : Option Json) → HatError Json

pub record HatClient (Conn : Type 0) : Type 0 where
  pub sock : Option Conn
  pub req_counter : ℕ

abbrev pub new_client : {Conn : Type 0} → HatClient Conn
new_client = record { sock = none; req_counter = 0 }

-- A call of the socket: its value, a TimeoutError, or another OSError.
pub data Io (A : Type 0) : Type 0 where
  did : A → Io A
  timed_out os_error : Io A

-- The sockets of the system and the daemon behind them, in a world `W`.
pub record Daemon (Conn W : Type 0) : Type 0 where
  pub dial : W → Option Conn × W
  pub sendall : Conn → Request → W → Io Unit × W
  pub readline : Conn → W → Io Text × W
  pub shut : Conn → W → W
