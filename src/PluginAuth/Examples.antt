-- ===== src/PluginAuth/Examples.antt =====
-- A toy key library, a directory and a few challenges.
use nomothetic.Base.{
  ◌≤◌, ◌≡◌, ◌≢◌, ◌↔◌, ◌⊎◌, ◌++◌, refl, true, false, some, List, [], ◌∷◌, arith, length, leb, ok,
  is_ok, if◌then◌else◌,
}
use nomothetic.Base.Text.{Text, text, text_eq, text_ne}
use nomothetic.Base.Dict
use nomothetic.Base.Pattern.{newline}
use nomothetic.PluginAuth.Names.{validate_plugin_name}
use nomothetic.PluginAuth.Names.Charset.{IsPluginName, validate_plugin_name_iff}
use nomothetic.PluginAuth.Keys.{
  ed25519, Directory, readable, path_of, read_pem, get_public_key, register,
}
use nomothetic.PluginAuth.Keys.Stability.{
  Request, register_all, get_public_key-register_all, register_effect,
}
use nomothetic.Pairing.{compare_digest}
use nomothetic.PluginAuth.Challenges.{ChallengeStore, issue, consume}
use nomothetic.PluginAuth.Challenges.Bounded.{
  Call, issue_call, consume_call, perform_all, length-perform_all-le,
}
use nomothetic.Toys.{toy_keys}
use nomothetic.PluginAuth.Challenges.SingleUse.{consume-consume, consume-issue}

abbrev autonomon : Text
autonomon = text "autonomon"

-- The name that the pattern was meant to refuse.
newline_passes : validate_plugin_name (autonomon ++ newline ∷ []) ≡ ok (autonomon ++ newline ∷ [])
unfolding validate_plugin_name
newline_passes = refl

validate_plugin_name_iff_example : (validate_plugin_name autonomon ≡ ok autonomon) ↔ (
    (base : Text) × IsPluginName base × ((autonomon ≡ base) ⊎ (autonomon ≡ base ++ newline ∷ [])))
validate_plugin_name_iff_example = validate_plugin_name_iff autonomon

-- Every text is the PEM form of a key, which is the text.
abbrev keys : Directory
keys = (path_of autonomon, readable (text "k1")) ∷ []

abbrev attempts : List Request
attempts =
    record { plugin = autonomon; pem = text "k2"; writes = true }
    ∷ record { plugin = text "other"; pem = text "k3"; writes = true }
    ∷ []

known : get_public_key toy_keys autonomon keys ≡ ok (some (text "k1"))
unfolding get_public_key read_pem validate_plugin_name Dict.get text_eq
known = refl

get_public_key-register_all_example :
    get_public_key toy_keys autonomon (register_all toy_keys attempts keys) ≡ ok (some (text "k1"))
get_public_key-register_all_example =
    get_public_key-register_all toy_keys autonomon (text "k1") attempts keys known

register_effect_example :
    ((register toy_keys autonomon (text "k2") true []).1 ≡ [])
      × (is_ok (register toy_keys autonomon (text "k2") true []).0 ≡ false)
    ⊎ ((new stored : Text) × (is_ok (register toy_keys autonomon (text "k2") true []).0 ≡ true)
        × (toy_keys.load_pem_public_key (text "k2") ≡ ed25519 new)
        × (get_public_key toy_keys autonomon (register toy_keys autonomon (text "k2") true []).1
            ≡ ok (some stored))
        × (toy_keys.raw_pub stored ≡ toy_keys.raw_pub new))
register_effect_example = register_effect toy_keys autonomon (text "k2") true []

abbrev calls : List Call
calls =
    issue_call autonomon (text "n1") 0
    ∷ issue_call autonomon (text "n2") 1
    ∷ issue_call autonomon (text "n3") 2
    ∷ consume_call autonomon (text "n2") 3
    ∷ []

length-perform_all-le_example :
    length (perform_all calls (record { ttl = 30; max = 2; pending = [] })).pending ≤ 2
length-perform_all-le_example = length-perform_all-le 30 2 calls (omega arith)

abbrev store : ChallengeStore
store = record {
  ttl = 30;
  max = 2;
  pending = (text "n0", record { plugin = autonomon; expires_at = 30 }) ∷ [];
}

n1-ne-n0 : text "n1" ≢ text "n0"
unfolding text_eq
n1-ne-n0 = text_ne (text "n1") (text "n0") refl

consume-consume_example :
    (consume autonomon (text "n0") 5 (
      perform_all
        (issue_call autonomon (text "n1") 4 ∷ [])
        (consume autonomon (text "n0") 3 store).1)).0
    ≡ ok false
consume-consume_example =
    consume-consume autonomon autonomon (text "n0") 3 5 (issue_call autonomon (text "n1") 4 ∷ [])
      store (n1-ne-n0, tt)

consume-issue_example :
    ((issue autonomon (text "n9") 4 store).0 ≡ ok (text "n9", 30))
    × ((consume autonomon (text "n9") 9 (issue autonomon (text "n9") 4 store).1).0
        ≡ (if leb 9 34 then compare_digest autonomon autonomon else ok false))
consume-issue_example = consume-issue autonomon autonomon (text "n9") 4 9 store (omega arith)
