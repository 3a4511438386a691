-- ===== src/PluginAuthRoutes/Examples.antt =====
-- A device with one plugin: a challenge, the token for it, and the same nonce again.
use nomothetic.Base.{
  ℕ, ◌+◌, ◌≡◌, ◌≢◌, refl, Bool, false, Option, none, some, List, [], ◌∷◌, ◌++◌, arith, ok, is_ok,
}
use nomothetic.Base.Text.{Text, text, text_eq, text_ne}
use nomothetic.Base.Dict
use nomothetic.RateLimit.{
  limiter, plugin_auth_rate_limit, check_required, check, clean_old, stamps, set_stamps, client_ip,
}
use nomothetic.Auth.{AuthService, plugin_token_ttl, plugin_sub_prefix, timestamp, scope_plugin}
use nomothetic.Auth.Tokens.{create_plugin_token, verify_token}
use nomothetic.PluginAuth.Names.{validate_plugin_name, matches_name}
use nomothetic.Base.Pattern.{matches}
use nomothetic.PluginAuth.Keys.{readable, path_of, get_public_key, read_pem, verify_signature}
use nomothetic.PluginAuth.Challenges.{consume}
use nomothetic.PluginAuthRoutes.{
  AppStores, Context, PluginTokenRequest, PluginTokenResponse, token, is_localhost,
  remote_auth_allowed,
}
use nomothetic.PluginAuthRoutes.Token.{IsProven, token-IsProven}
use nomothetic.PluginAuthRoutes.Replay.{RouteCall, challenges, tokens, answer_all, token-answer_all}
use nomothetic.Pairing.{compare_digest}
use nomothetic.Toys.{ToyToken, toy_jose, toy_keys}

abbrev autonomon : Text
autonomon = text "autonomon"

-- Every host but this one is none of the loopback interface.
abbrev loopback : Text → Option Bool
loopback host = some (text_eq host (text "127.0.0.1"))

abbrev decode_any : Text → Option Text
decode_any s = some s

abbrev same : Text → Text
same s = s

abbrev service : AuthService
service = record {
  secret = text "0123456789abcdef0123456789abcdef";
  issuer = text "nomon-device";
  user_store = [];
  token_store = [];
}

abbrev device : AppStores
device = record {
  limiters = (text "plugin_auth_limiter", limiter 10 60) ∷ [];
  plugin_key_store = some ((path_of autonomon, readable (text "k1")) ∷ []);
  plugin_challenge_store = some (record {
    ttl = 30;
    max = 2;
    pending = (text "n0", record { plugin = autonomon; expires_at = 30 }) ∷ [];
  });
  auth_service = some service;
}

abbrev at : ℕ → Context
at now = record {
  trust_proxy = text "";
  allow_remote = text "";
  request = record { forwarded_for = none; client_host = some (text "127.0.0.1") };
  now = record { monotonic = now; utc = now + 1000 };
}

abbrev signed : PluginTokenRequest
signed = record { plugin = autonomon; nonce = text "n0"; signature = text "k1n0" }

abbrev after_token : AppStores
after_token = record {
  limiters =
      (
        text "plugin_auth_limiter",
        record {
          max_requests = 10;
          window_seconds = 60;
          requests = (text "127.0.0.1", 5 ∷ []) ∷ [];
        },
      )
      ∷ [];
  plugin_key_store = some ((path_of autonomon, readable (text "k1")) ∷ []);
  plugin_challenge_store = some (record { ttl = 30; max = 2; pending = [] });
  auth_service = some service;
}

abbrev granted : PluginTokenResponse ToyToken
granted = record {
  access_token = create_plugin_token toy_jose autonomon plugin_token_ttl 1005 service;
  expires_in = 3600;
}

token_granted :
    token toy_keys loopback toy_jose decode_any same (at 5) signed device
    ≡ (ok granted, after_token)
unfolding compare_digest token is_localhost remote_auth_allowed get_public_key read_pem
    validate_plugin_name matches_name matches consume verify_signature create_plugin_token
    plugin_auth_rate_limit check_required check clean_old stamps set_stamps client_ip Dict.get
    Dict.put Dict.remove text_eq
token_granted = refl

token-IsProven_example :
    (svc : AuthService) × IsProven toy_keys loopback toy_jose decode_any same
      (at 5)
      signed
      device
      granted
      after_token
      svc
    × (verify_token toy_jose granted.access_token 1006 svc
        ≡ ok (record {
          sub = plugin_sub_prefix ++ autonomon;
          exp = timestamp (1005 + plugin_token_ttl);
          iat = timestamp 1005;
          iss = svc.issuer;
          scope = scope_plugin;
        }))
token-IsProven_example =
    token-IsProven toy_keys loopback toy_jose decode_any same (at 5) signed granted device
      after_token 1006 token_granted (omega arith) (omega arith)

-- Another challenge is drawn and the old nonce presented once in between.
abbrev between : List RouteCall
between = challenges (at 6) autonomon (text "n1") ∷ tokens (at 7) signed ∷ []

n1-ne-n0 : text "n1" ≢ text "n0"
unfolding text_eq
n1-ne-n0 = text_ne (text "n1") (text "n0") refl

token-answer_all_example :
    is_ok
      (token toy_keys loopback toy_jose decode_any same
        (at 9)
        signed
        (answer_all toy_keys loopback toy_jose decode_any same between after_token)).0
    ≡ false
token-answer_all_example =
    token-answer_all toy_keys loopback toy_jose decode_any same (at 5) (at 9) signed signed granted
      device after_token between token_granted (n1-ne-n0, tt) refl
