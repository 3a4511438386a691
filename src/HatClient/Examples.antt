-- ===== src/HatClient/Examples.antt =====
-- A daemon whose first connection breaks.
use nomothetic.Base.{
  ℕ, zero, suc, List, ◌≤◌, ◌*◌, ◌+◌, ◌≡◌, refl, Bool, true, false, some, [], ◌∷◌, length, arith,
}
use nomothetic.Base.Text.{text}
use nomothetic.AiCommand.{one}
use nomothetic.HatClient.{
  Command, set_motor_speed, set_volume, Daemon, Io, did, os_error, new_client,
}
use nomothetic.HatClient.Requests.{Codec, decoded}
use nomothetic.HatClient.Methods.{call}
use nomothetic.HatClient.Commands.{use_all, use_all_sound, recorded, IsLog, Use, calls}

abbrev half_speed : Command
half_speed =
    set_motor_speed (record { negative = false; magnitude = 1 })
      (some (record { negative = true; magnitude = 50 * one }))
      (record { negative = false; magnitude = 500 })

abbrev too_loud : Command
too_loud = set_volume (record { negative = false; magnitude = 101 })

-- The number of sends that still fail.
abbrev send_after : ℕ → Io Unit × ℕ
send_after zero = (did tt, 0)
send_after (suc n) = (os_error, n)

abbrev toy_daemon : Daemon ℕ ℕ
toy_daemon = record {
  dial = λ w. (some 1, w);
  sendall = λ s req w. send_after w;
  readline = λ s w. (did (text "r"), w);
  shut = λ s w. w;
}

abbrev toy_codec : Codec Bool
toy_codec = record {
  loads = λ line. decoded true;
  as_dict = λ value. some ((text "ok", true) ∷ []);
  is_true = λ value. value;
}

abbrev toy_uses : List Use
toy_uses = calls half_speed ∷ calls too_loud ∷ []

-- The command goes out twice, and the one that is out of range does not.
retries_once :
    (use_all (recorded toy_daemon) toy_codec toy_uses (new_client, ([], 1))).1.0
    ≡ record { id = 2; command = half_speed } ∷ record { id = 1; command = half_speed } ∷ []
unfolding call recorded
retries_once = refl

use_all_sound_example :
    let after = use_all (recorded toy_daemon) toy_codec toy_uses (new_client, ([], 1)) in
    IsLog after.0.req_counter after.1.0 × (length after.1.0 ≤ 0 + 2 * 2)
use_all_sound_example =
    use_all_sound toy_daemon toy_codec toy_uses 0 new_client [] 1 tt (omega arith)
