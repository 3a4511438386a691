-- ===== src/RoutineManager/Launch.antt =====
-- What a child is launched with: the path of the CLI and the environment.
use nomothetic.Base.{Bool, true, false, ◌||◌, Option, none, some, List, [], ◌∷◌, if◌then◌else◌}
use nomothetic.Base.Text.{Text, text}
use nomothetic.Base.Dict
use nomothetic.Base.Dict.{Dict}
use nomothetic.RoutineManager.{Config, ParamValue, string}

-- A text that is there and not empty, as `if value:` tests it.
abbrev pub non_empty : Option Text → Option Text
non_empty none = none
non_empty (some []) = none
non_empty (some (c ∷ s)) = some (c ∷ s)

abbrev pub is_given : Option Text → Bool
is_given none = false
is_given (some []) = false
is_given (some (c ∷ s)) = true

unfoldable pub has_credentials : Config → Bool
has_credentials config = is_given config.plugin_key || is_given config.plugin_token

abbrev pub bare_name : Text
bare_name = text "nomon-autonomon"

-- `_resolve_autonomon_bin`: the published path, the script beside the interpreter, or the bare name.
unfoldable pub resolve_autonomon_bin :
    (published : Option Text) (beside : Text) (is_file : Text → Bool) → Text
resolve_autonomon_bin published beside is_file =
    let fallback = if is_file beside then beside else bare_name in
    elim (non_empty published) [
      | none ↦ fallback
      | some path ↦ if is_file path then path else fallback
    ]

unfoldable pub resolve_bin :
    Config → (published : Option Text) (beside : Text) (is_file : Text → Bool) → Text
resolve_bin config published beside is_file = elim (non_empty config.autonomon_bin) [
  | none ↦ resolve_autonomon_bin published beside is_file
  | some path ↦ path
]

abbrev pub env_passthrough : List Text
env_passthrough =
    text "PATH"
    ∷ text "HOME"
    ∷ text "USER"
    ∷ text "LANG"
    ∷ text "LC_ALL"
    ∷ text "LD_LIBRARY_PATH"
    ∷ text "SSL_CERT_FILE"
    ∷ []

-- `{k: os.environ[k] for k in names if k in os.environ}`
unfoldable pub passed_through : List Text → Dict Text → Dict Text
passed_through [] environ = []
passed_through (k ∷ names) environ =
    let rest = passed_through names environ in
    elim (Dict.get environ k) [ none ↦ rest | some value ↦ (k, value) ∷ rest ]

-- Only one credential reaches the child.
unfoldable pub add_credential : Config → Dict Text → Dict Text
add_credential config env = elim (non_empty config.plugin_key) [
  | some key ↦ Dict.put env (text "NOMON_PLUGIN_KEY") key
  | none ↦ elim (non_empty config.plugin_token) [
    | some token ↦ Dict.put env (text "NOMON_PLUGIN_TOKEN") token
    | none ↦ env
  ]
]

-- `dumps` is `json.dumps` of an object.
module _ (dumps : Dict ParamValue → Text) where
  unfoldable pub build_env :
      Config → (environ : Dict Text) (routine : Text) → Dict ParamValue → Dict Text
  build_env config environ routine params =
      let env = passed_through env_passthrough environ in
      let env' = Dict.put env (text "NOMON_DEVICE_URL") config.device_url in
      let env'' = Dict.put env' (text "NOMON_DEVICE_ID") config.device_id in
      let given = dumps (Dict.put params (text "routine") (string routine)) in
      add_credential config (Dict.put env'' (text "NOMON_PLUGIN_PARAMS") given)
