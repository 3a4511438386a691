-- ===== src/HatClient/Methods.antt =====
-- The public methods of the client: the tests of the parameters, then the request.
use nomothetic.Base.{Bool, ◌&&◌, Option, raised, if◌then◌else◌}
use nomothetic.AiCommand.{Number, is_speed, is_angle}
use nomothetic.HatClient.{
  Float, Command, set_servo_pulse_us, set_servo_angle, set_motor_speed, drive, steer, pan_camera,
  tilt_camera, set_volume, set_mic_gain, is_between, passes, HatClient, value_error, Daemon,
}
use nomothetic.HatClient.Requests.{Codec, Answer, request}

module _ {Conn Json W : Type 0} (daemon : Daemon Conn W) (codec : Codec Json) where
  abbrev Method : Type 0
  Method = HatClient Conn → W → Answer daemon codec (Option Json)

  -- `if not ...: raise ValueError(...)`, and the request.
  unfoldable pub guarded : Bool → Command → Method
  guarded test command c w =
      if test then request daemon codec command c w else (raised value_error, (c, w))

  unfoldable pub call_set_servo_pulse_us : (channel pulse_us ttl_ms : Number) → Method
  unfolding guarded
  call_set_servo_pulse_us channel pulse_us ttl_ms =
      guarded (is_between 0 11 channel && is_between 500 2500 pulse_us)
        (set_servo_pulse_us channel pulse_us ttl_ms)

  unfoldable pub call_set_servo_angle :
      (channel : Number) (angle_deg : Float) (ttl_ms : Number) → Method
  unfolding guarded
  call_set_servo_angle channel angle_deg ttl_ms =
      guarded (is_between 0 11 channel && passes is_angle angle_deg)
        (set_servo_angle channel angle_deg ttl_ms)

  unfoldable pub call_set_motor_speed :
      (channel : Number) (speed_pct : Float) (ttl_ms : Number) → Method
  unfolding guarded
  call_set_motor_speed channel speed_pct ttl_ms =
      guarded (is_between 0 3 channel && passes is_speed speed_pct)
        (set_motor_speed channel speed_pct ttl_ms)

  unfoldable pub call_drive : (speed_pct : Float) (ttl_ms : Number) → Method
  unfolding guarded
  call_drive speed_pct ttl_ms = guarded (passes is_speed speed_pct) (drive speed_pct ttl_ms)

  unfoldable pub call_steer : (angle_deg : Float) (ttl_ms : Number) → Method
  unfolding guarded
  call_steer angle_deg ttl_ms = guarded (passes is_angle angle_deg) (steer angle_deg ttl_ms)

  unfoldable pub call_pan_camera : (angle_deg : Float) (ttl_ms : Number) → Method
  unfolding guarded
  call_pan_camera angle_deg ttl_ms =
      guarded (passes is_angle angle_deg) (pan_camera angle_deg ttl_ms)

  unfoldable pub call_tilt_camera : (angle_deg : Float) (ttl_ms : Number) → Method
  unfolding guarded
  call_tilt_camera angle_deg ttl_ms =
      guarded (passes is_angle angle_deg) (tilt_camera angle_deg ttl_ms)

  unfoldable pub call_set_volume : (volume_pct : Number) → Method
  unfolding guarded
  call_set_volume volume_pct = guarded (is_between 0 100 volume_pct) (set_volume volume_pct)

  unfoldable pub call_set_mic_gain : (gain_pct : Number) → Method
  unfolding guarded
  call_set_mic_gain gain_pct = guarded (is_between 0 100 gain_pct) (set_mic_gain gain_pct)

  unfoldable pub call : Command → Method
  unfolding request call_set_servo_pulse_us call_set_servo_angle call_set_motor_speed call_drive
      call_steer call_pan_camera call_tilt_camera call_set_volume call_set_mic_gain
  call (set_servo_pulse_us channel pulse_us ttl_ms) c w =
      call_set_servo_pulse_us channel pulse_us ttl_ms c w
  call (set_servo_angle channel angle_deg ttl_ms) c w =
      call_set_servo_angle channel angle_deg ttl_ms c w
  call (set_motor_speed channel speed_pct ttl_ms) c w =
      call_set_motor_speed channel speed_pct ttl_ms c w
  call (drive speed_pct ttl_ms) c w = call_drive speed_pct ttl_ms c w
  call (steer angle_deg ttl_ms) c w = call_steer angle_deg ttl_ms c w
  call (pan_camera angle_deg ttl_ms) c w = call_pan_camera angle_deg ttl_ms c w
  call (tilt_camera angle_deg ttl_ms) c w = call_tilt_camera angle_deg ttl_ms c w
  call (set_volume volume_pct) c w = call_set_volume volume_pct c w
  call (set_mic_gain gain_pct) c w = call_set_mic_gain gain_pct c w
  call command c w = request daemon codec command c w
