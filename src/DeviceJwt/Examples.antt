-- ===== src/DeviceJwt/Examples.antt =====
-- A disk with a secret of 64 characters, and an empty one.
use nomothetic.Base.{◌≡◌, ◌⊎◌, refl, true, none, [], ◌∷◌, ok}
use nomothetic.Base.Text.{Text, text, text_eq, strip}
use nomothetic.Base.Dict
use nomothetic.Files.{SecretFile, decoded}
use nomothetic.DeviceJwt.{
  default_secret_path, read, unreadable_file_present, load_or_generate, rotate,
}
use nomothetic.DeviceJwt.Stability.{
  IsUrlsafe, load_or_generate-rotate, load_or_generate-load_or_generate,
}

abbrev letters : Text
letters = text "abcdefghijklmnopqrstuvwxyzABCDEFGHIJKLMNOPQRSTUVWXYZ0123456789-_"

letters-IsUrlsafe : IsUrlsafe letters
letters-IsUrlsafe = (refl, refl)

load_or_generate-rotate_example :
    load_or_generate default_secret_path
      (text "other")
      true
      (rotate default_secret_path letters true []).1
    ≡ (
      ok (rotate default_secret_path letters true []).0,
      (rotate default_secret_path letters true []).1,
    )
load_or_generate-rotate_example =
    load_or_generate-rotate default_secret_path letters (text "other") true [] letters-IsUrlsafe

loaded : (load_or_generate default_secret_path letters true []).0 ≡ ok letters
unfolding load_or_generate read unreadable_file_present Dict.get
loaded = refl

load_or_generate-load_or_generate_example :
    (load_or_generate default_secret_path
        (text "other")
        true
        (load_or_generate default_secret_path letters true []).1
      ≡ (ok letters, (load_or_generate default_secret_path letters true []).1))
    ⊎ ((read default_secret_path [] ≡ ok none)
        × (unreadable_file_present default_secret_path [] ≡ true)
        × (letters ≡ letters)
        × ((load_or_generate default_secret_path letters true []).1 ≡ []))
load_or_generate-load_or_generate_example =
    load_or_generate-load_or_generate default_secret_path letters (text "other") letters true []
      letters-IsUrlsafe loaded

-- 31 characters and a newline are 32 bytes: too short to be loaded, and still not replaced.
abbrev truncated : SecretFile
truncated = record { reading = decoded (text "abcdefghijklmnopqrstuvwxyzabcde\n"); size = 32 }

truncated_stays :
    load_or_generate default_secret_path letters true ((default_secret_path, truncated) ∷ [])
    ≡ (ok letters, (default_secret_path, truncated) ∷ [])
unfolding load_or_generate read unreadable_file_present Dict.get text_eq strip
truncated_stays = refl
