-- ===== src/Pairing.antt =====
-- src/nomothetic/pairing.py: the secrets of pairing and the files they stand in; the children hold
-- `PairingState` and what is shown of it. A draw of `secrets.randbelow(n)` or of a choice among n is
-- a number taken modulo n.
pub mod State
pub mod Passkey
pub mod Passphrase
pub mod Restart
pub mod Session
pub mod Candidates
pub mod Consumption
mod Examples
use nomothetic.Base.{
  ℕ, zero, suc, ◌+◌, ◌*◌, ◌/◌, ◌%◌, ◌^◌, ◌≤◌, Bool, true, false, ◌&&◌, Option, none, some, List, [],
  ◌∷◌, ◌++◌, length, all, ltb, leb, ◌==◌, Result, ok, raised, if◌then◌else◌,
}
use nomothetic.Base.Text.{Text, text, text_eq, strip}
use nomothetic.Base.Dict
use nomothetic.Base.Dict.{Dict}
use nomothetic.Files.{
  SecretFile, Reading, decoded, os_error, undecodable, Disk, environ_get, has_size, PythonError,
  unicode_decode_error, type_error,
}

abbrev pub default_pairing_secret_path : Text
default_pairing_secret_path = text "/var/lib/nomon/pairing_secret"

abbrev pub default_ap_passphrase_path : Text
default_ap_passphrase_path = text "/var/lib/nomon/ap_passphrase"

abbrev pub pairing_secret_digits : ℕ
pairing_secret_digits = 8

abbrev pub ap_passphrase_length : ℕ
ap_passphrase_length = 20

abbrev pub wpa2_min_len : ℕ
wpa2_min_len = 8

abbrev pub wpa2_max_len : ℕ
wpa2_max_len = 63

abbrev pub ap_passphrase_alphabet : Text
ap_passphrase_alphabet = text "abcdefghjkmnpqrstuvwxyzABCDEFGHJKLMNPQRSTUVWXYZ23456789"

unfoldable pub get_ap_passphrase_path : Dict Text → Text
unfolding environ_get
get_ap_passphrase_path environ =
    environ_get environ (text "NOMON_AP_PASSPHRASE_PATH") default_ap_passphrase_path

unfoldable pub get_pairing_secret_path : Dict Text → Text
unfolding environ_get
get_pairing_secret_path environ =
    environ_get environ (text "NOMON_PAIRING_SECRET_PATH") default_pairing_secret_path

abbrev pub is_printable_ascii : ℕ → Bool
is_printable_ascii c = leb 32 c && leb c 126

unfoldable pub is_valid_ap_passphrase : Text → Bool
is_valid_ap_passphrase value =
    leb wpa2_min_len (length value)
    && leb (length value) wpa2_max_len
    && all is_printable_ascii value

-- `secrets.choice(seq)`: the element that the draw is at, from the front round and round.
unfoldable pub nth : Text → ℕ → ℕ
nth [] i = 0
nth (c ∷ s) zero = c
nth (c ∷ s) (suc i) = nth s i

unfoldable pub choice : Text → ℕ → ℕ
unfolding nth
choice seq draw = nth seq (draw % length seq)

-- `"".join(secrets.choice(...) for _ in range(n))`, the draws by their position.
unfoldable pub choices : ℕ → (ℕ → ℕ) → Text
unfolding choice
choices zero draws = []
choices (suc n) draws = choice ap_passphrase_alphabet (draws n) ∷ choices n draws

unfoldable pub new_ap_passphrase : (ℕ → ℕ) → Text
unfolding choices
new_ap_passphrase draws = choices ap_passphrase_length draws

-- `f"{n:0{width}d}"` of a number of at most `width` digits.
unfoldable pub zero_padded : ℕ → ℕ → Text
zero_padded zero n = []
zero_padded (suc width) n = zero_padded width (n / 10) ++ (b'0' + n % 10) ∷ []

-- The passkey of `_set_new_secret`.
unfoldable pub new_passkey : ℕ → Text
unfolding zero_padded
new_passkey draw = zero_padded pairing_secret_digits (draw % 10 ^ pairing_secret_digits)

-- `value or None`
unfoldable pub or_none : Text → Option Text
or_none [] = none
or_none (c ∷ s) = some (c ∷ s)

unfoldable pub read_reading : Reading → Result PythonError (Option Text)
unfolding or_none
read_reading os_error = ok none
read_reading undecodable = raised unicode_decode_error
read_reading (decoded contents) = ok (or_none (strip contents))

unfoldable pub read_file : Option SecretFile → Result PythonError (Option Text)
unfolding read_reading
read_file none = ok none
read_file (some file) = read_reading file.reading

unfoldable pub read_secret_file : (path : Text) → Disk → Result PythonError (Option Text)
unfolding read_file
read_secret_file path disk = read_file (Dict.get disk path)

-- `os.path.exists` is false where `os.path.getsize` raises.
unfoldable pub secret_file_present : (path : Text) → Disk → Bool
unfolding has_size
secret_file_present path disk = has_size 1 (Dict.get disk path)

abbrev pub is_ascii : Text → Bool
is_ascii s = all (λ c. leb c 127) s

-- `hmac.compare_digest` of two texts, which raises TypeError where one is not ASCII.
unfoldable pub compare_digest : Text → Text → Result PythonError Bool
compare_digest s t = if is_ascii s && is_ascii t then ok (text_eq s t) else raised type_error

-- `s.isdigit()`, over the Unicode property that decides it for a character.
unfoldable pub isdigit : (ℕ → Bool) → Text → Bool
isdigit is_digit [] = false
isdigit is_digit (c ∷ s) = all is_digit (c ∷ s)

-- `existing.isdigit() and len(existing) == _PAIRING_SECRET_DIGITS`
unfoldable pub is_passkey : (ℕ → Bool) → Text → Bool
unfolding isdigit
is_passkey is_digit value = isdigit is_digit value && length value == pairing_secret_digits
