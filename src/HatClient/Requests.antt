-- ===== src/HatClient/Requests.antt =====
-- A request: the connection, the exchange with the daemon, and the second try.
use nomothetic.Base.{
  suc, Bool, false, Option, none, some, [], ◌∷◌, Result, ok, raised, if◌then◌else◌,
}
use nomothetic.Base.Text.{Text, text}
use nomothetic.Base.Dict
use nomothetic.Base.Dict.{Dict}
use nomothetic.HatClient.{
  Command, Request, HatError, connection_error, timeout_error, foreign_error, daemon_error,
  HatClient, Io, did, timed_out, os_error, Daemon,
}

-- `json.loads` of a line: a value, a JSONDecodeError, or another exception.
pub data Loaded (Json : Type 0) : Type 0 where
  decoded : Json → Loaded Json
  malformed undecodable : Loaded Json

pub record Codec (Json : Type 0) : Type 0 where
  pub loads : Text → Loaded Json
  pub as_dict : Json → Option (Dict Json)
  pub is_true : Json → Bool

module _ {Conn Json W : Type 0} (daemon : Daemon Conn W) (codec : Codec Json) where
  open daemon use {dial, sendall, readline, shut}
  open codec use {loads, as_dict, is_true}

  abbrev pub Answer : Type 0 → Type 0
  Answer A = Result (HatError Json) A × (HatClient Conn × W)

  -- `resp.get("ok")` as a test.
  is_there : Option Json → Bool
  is_there none = false
  is_there (some value) = is_true value

  read_error : Option (Dict Json) → HatError Json
  read_error none = foreign_error
  read_error (some e) = daemon_error (Dict.get e (text "code")) (Dict.get e (text "message"))

  -- `resp.get("error", {})`
  error_of : Option Json → HatError Json
  unfolding read_error
  error_of none = read_error (some [])
  error_of (some e) = read_error (as_dict e)

  -- A result that is none stands for `{}`.
  read_response : Option (Dict Json) → Result (HatError Json) (Option Json)
  unfolding is_there error_of
  read_response none = raised foreign_error
  read_response (some resp) =
      if is_there (Dict.get resp (text "ok"))
      then ok (Dict.get resp (text "result"))
      else raised (error_of (Dict.get resp (text "error")))

  read_loaded : Loaded Json → Result (HatError Json) (Option Json)
  unfolding read_response
  read_loaded (decoded resp) = read_response (as_dict resp)
  read_loaded malformed = raised connection_error
  read_loaded undecodable = raised foreign_error

  unfoldable pub read_line : Io Text → Result (HatError Json) (Option Json)
  unfolding read_loaded
  read_line timed_out = raised timeout_error
  read_line os_error = raised connection_error
  read_line (did []) = raised connection_error
  read_line (did (c ∷ line)) = read_loaded (loads (c ∷ line))

  unfoldable pub after_sendall : Conn → Io Unit × W → Result (HatError Json) (Option Json) × W
  unfolding read_line
  after_sendall s (timed_out, w) = (raised timeout_error, w)
  after_sendall s (os_error, w) = (raised connection_error, w)
  after_sendall s (did done, w) = let got = readline s w in (read_line got.0, got.1)

  unfoldable pub send_request : Request → Option Conn → W → Result (HatError Json) (Option Json) × W
  unfolding after_sendall
  send_request req none w = (raised connection_error, w)
  send_request req (some s) w = after_sendall s (sendall s req w)

  unfoldable pub connected : HatClient Conn → Option Conn × W → Answer Unit
  connected c (none, w) = (raised connection_error, (c, w))
  connected c (some s, w) = (ok tt, (record c { sock = some s }, w))

  unfoldable pub connect : HatClient Conn → W → Answer Unit
  unfolding connected
  connect c w = connected c (dial w)

  unfoldable pub shut_all : Option Conn → W → W
  shut_all none w = w
  shut_all (some s) w = shut s w

  unfoldable pub close : HatClient Conn → W → HatClient Conn × W
  unfolding shut_all
  close c w = (record c { sock = none }, shut_all c.sock w)

  unfoldable pub next_id : HatClient Conn → HatClient Conn
  next_id c = record c { req_counter = suc c.req_counter }

  unfoldable pub connect_without : Option Conn → HatClient Conn → W → Answer Unit
  unfolding connect
  connect_without none c w = connect c w
  connect_without (some s) c w = (ok tt, (c, w))

  unfoldable pub ensure_connected : HatClient Conn → W → Answer Unit
  unfolding connect_without
  ensure_connected c w = connect_without c.sock c w

  -- A request with the next id, on the connection that there is.
  unfoldable pub exchange : Command → HatClient Conn → W → Answer (Option Json)
  unfolding send_request next_id
  exchange command c w =
      let c = next_id c in
      let got = send_request (record { id = c.req_counter; command = command }) c.sock w in
      (got.0, (c, got.1))

  unfoldable pub after_connect : Command → Answer Unit → Answer (Option Json)
  unfolding exchange
  after_connect command (raised e, state) = (raised e, state)
  after_connect command (ok done, (c, w)) = exchange command c w

  -- `self.close()`, `self.connect()`
  unfoldable pub reconnect : HatClient Conn → W → Answer Unit
  unfolding close connect
  reconnect c w = let closed = close c w in connect closed.0 closed.1

  -- Only a HatConnectionError of the first exchange is tried again.
  unfoldable pub retry : Command → Answer (Option Json) → Answer (Option Json)
  unfolding after_connect reconnect
  retry command (raised connection_error, (c, w)) = after_connect command (reconnect c w)
  retry command (result, state) = (result, state)

  unfoldable pub request_on : Command → Answer Unit → Answer (Option Json)
  unfolding retry exchange
  request_on command (raised e, state) = (raised e, state)
  request_on command (ok done, (c, w)) = retry command (exchange command c w)

  unfoldable pub request : Command → HatClient Conn → W → Answer (Option Json)
  unfolding request_on ensure_connected
  request command c w = request_on command (ensure_connected c w)
