-- ===== src/RoutineManager/Params.antt =====
-- `validate_routine_params`: the parameters of a request against the published schema.
use nomothetic.Base.{
  ℕ, Bool, true, false, not, ◌&&◌, ◌||◌, Option, none, some, [], ◌∷◌, length, ltb, leb, ◌==◌,
  if◌then◌else◌,
}
use nomothetic.Base.Text.{Text, text, text_eq}
use nomothetic.Base.Pattern.{matches}
use nomothetic.Base.Dict
use nomothetic.Base.Dict.{Dict}
use nomothetic.RoutineManager.{ParamValue, null, boolean, integer, floating, string, structure}

-- The messages of the ValueError.
pub data ParamError : Type 0 where
  invalid_name reserved_name not_scalar too_long unknown_param wrong_type : ParamError

-- A property of the schema: an object with what `str(spec.get("type", ""))` gives, or no object.
pub data Spec : Type 0 where
  mapping : (type_name : Text) → Spec
  no_mapping : Spec

abbrev pub max_param_string : ℕ
max_param_string = 512

abbrev pub is_lower_letter : ℕ → Bool
is_lower_letter c = leb b'a' c && leb c b'z'

abbrev pub is_key_char : ℕ → Bool
is_key_char c = is_lower_letter c || leb b'0' c && leb c b'9' || c == b'_'

-- `^[a-z][a-z0-9_]{0,63}$`
unfoldable pub matches_param_key : Text → Bool
unfolding matches
matches_param_key key = matches is_lower_letter is_key_char 63 key

-- `_SCHEMA_TYPES`, with the two tests of `isinstance`: a `bool` is an `int` to Python, and the first
-- test refuses it where no `bool` is expected.
unfoldable pub has_type : Text → ParamValue → Bool
has_type type_name null = true
has_type type_name (boolean b) = not (
    text_eq type_name (text "number")
    || text_eq type_name (text "integer")
    || text_eq type_name (text "string"))
has_type type_name (integer t) =
    not (text_eq type_name (text "string") || text_eq type_name (text "boolean"))
has_type type_name (floating t) = not (
    text_eq type_name (text "integer")
    || text_eq type_name (text "string")
    || text_eq type_name (text "boolean"))
has_type type_name (string t) = not (
    text_eq type_name (text "number")
    || text_eq type_name (text "integer")
    || text_eq type_name (text "boolean"))
has_type type_name (structure t) = false

abbrev pub is_scalar : ParamValue → Bool
is_scalar (structure t) = false
is_scalar _ = true

abbrev pub is_too_long : ParamValue → Bool
is_too_long (string t) = ltb max_param_string (length t)
is_too_long _ = false

check_spec : Option Spec → ParamValue → Option ParamError
unfolding has_type
check_spec none value = some unknown_param
check_spec (some no_mapping) value = some unknown_param
check_spec (some (mapping type_name)) value =
    if has_type type_name value then none else some wrong_type

-- `if not schema: continue`
check_schema : Text → ParamValue → Dict Spec → Option ParamError
unfolding check_spec
check_schema key value [] = none
check_schema key value (s ∷ schema) = check_spec (Dict.get (s ∷ schema) key) value

unfoldable pub check_param : Text → ParamValue → Dict Spec → Option ParamError
unfolding check_schema
check_param key value schema =
    if not (matches_param_key key)
    then some invalid_name
    else if text_eq key (text "routine")
    then some reserved_name
    else if not (is_scalar value)
    then some not_scalar
    else if is_too_long value
    then some too_long
    else check_schema key value schema

-- The first error of the first parameter that has one.
unfoldable pub validate_routine_params : Dict ParamValue → Dict Spec → Option ParamError
validate_routine_params [] schema = none
validate_routine_params ((key, value) ∷ params) schema =
    let rest = validate_routine_params params schema in
    elim (check_param key value schema) [ none ↦ rest | some e ↦ some e ]
