-- ===== src/PluginAuth/Names.antt =====
-- `_validate_plugin_name`: a match of the pattern of plugin names.
pub mod Charset
use nomothetic.Base.{
  ℕ, zero, suc, Bool, true, false, ◌&&◌, ◌||◌, List, [], ◌∷◌, ◌==◌, leb, Result, ok, raised,
  if◌then◌else◌,
}
use nomothetic.Base.Text.{Text}
use nomothetic.Base.Pattern.{matches}

pub data PluginAuthError : Type 0 where
  invalid_plugin_name invalid_pem not_ed25519 key_conflict os_error unsupported_algorithm :
      PluginAuthError

-- `[a-z0-9]`
abbrev pub is_first : ℕ → Bool
is_first c = leb b'a' c && leb c b'z' || leb b'0' c && leb c b'9'

-- `[a-z0-9_-]`
abbrev pub is_later : ℕ → Bool
is_later c = is_first c || c == b'_' || c == b'-'

-- `^[a-z0-9][a-z0-9_-]{0,63}$`
unfoldable pub matches_name : Text → Bool
unfolding matches
matches_name name = matches is_first is_later 63 name

unfoldable pub validate_plugin_name : Text → Result PluginAuthError Text
unfolding matches_name
validate_plugin_name name = if matches_name name then ok name else raised invalid_plugin_name
