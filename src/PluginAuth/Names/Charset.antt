-- ===== src/PluginAuth/Names/Charset.antt =====
-- What the pattern accepts: the documented names, and each of them with a newline behind it.
use nomothetic.Base.{
  ◌≡◌, ◌↔◌, ◌⊎◌, refl, Bool, true, false, [], ◌∷◌, ◌++◌, arith, ok, raised, if◌then◌else◌,
}
use nomothetic.Base.Text.{Text}
use nomothetic.Base.Pattern.{newline, matches_iff, IsSpelled}
use nomothetic.PluginAuth.Names.{
  PluginAuthError, is_first, is_later, matches_name, validate_plugin_name,
}

-- A text of the documented form: 1 to 64 characters of `[a-z0-9_-]`, the first of `[a-z0-9]`.
abbrev pub IsPluginName : Text → Type 0
IsPluginName = IsSpelled is_first is_later 63

-- The accepted names are those of the documented form, and those with one newline behind: the
-- pattern's `$` lets a final newline pass.
pub validate_plugin_name_iff :
    (name : Text)
    → (validate_plugin_name name ≡ ok name)
      ↔ ((base : Text) × IsPluginName base × ((name ≡ base) ⊎ (name ≡ base ++ newline ∷ [])))
unfolding validate_plugin_name matches_name
validate_plugin_name_iff name = (
  λ h. (matches_iff is_first is_later 63 name).0 (accepted (matches_name name) h),
  λ form. rw ((matches_iff is_first is_later 63 name).1 form),
)
  where
    accepted :
        (b : Bool)
        → (if b then ok name else raised PluginAuthError.invalid_plugin_name) ≡ ok name
        → b ≡ true
    accepted true h = refl
    accepted false h = absurd (ground (arith, h))
