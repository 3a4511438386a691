-- ===== src/Pairing/Restart.antt =====
-- What a restart finds: the secrets that are on disk stay, and a file that cannot be read is never
-- written to.
use nomothetic.Base.{
  ℕ, ◌≤◌, ◌≡◌, ◌⊎◌, inl, inr, refl, Bool, true, false, Option, none, some, [], ◌∷◌, length, all,
  arith, Result, ok, raised, Bool-cases,
}
use nomothetic.Base.Text.{Text, strip, text_eq_refl, all-weaken}
use nomothetic.Base.Dict
use nomothetic.Base.Dict.{Dict, get-put}
use nomothetic.Files.{Disk, write_secret_file, file_of, PythonError}
use nomothetic.Pairing.{
  get_pairing_secret_path, get_ap_passphrase_path, new_passkey, new_ap_passphrase, or_none,
  read_reading, read_file, read_secret_file, secret_file_present, isdigit, is_passkey,
}
use nomothetic.Pairing.State.{
  PairingState, generate_secret, load_read_secret, load_or_generate_secret, load_existing,
  generate_ap_passphrase, load_or_generate_ap_passphrase,
}
use nomothetic.Pairing.Passkey.{is_decimal, new_passkey-decimal, strip-new_passkey}
use nomothetic.Pairing.Passphrase.{new_ap_passphrase_valid}

or_none_lem : (s : Text) → 1 ≤ length s → or_none s ≡ some s
unfolding or_none
or_none_lem [] h = absurd (omega (arith, h))
or_none_lem (c ∷ s) h = refl

-- A value with no space at its ends, written to a file, is read back.
pub read-write :
    (path secret : Text) (disk : Disk)
    → strip secret ≡ secret
    → 1 ≤ length secret
    → read_secret_file path (write_secret_file path secret true disk) ≡ ok (some secret)
unfolding read_secret_file write_secret_file file_of read_file read_reading
read-write path secret disk stripped long =
    simp (get-put, text_eq_refl, stripped, or_none_lem secret long) refl

passkey_accepted :
    (is_digit : ℕ → Bool) (s : Text)
    → length s ≡ 8
    → all is_digit s ≡ true
    → is_passkey is_digit s ≡ true
unfolding is_passkey isdigit
passkey_accepted is_digit [] size digits = absurd (omega (arith, size))
passkey_accepted is_digit (c ∷ s) size digits = ground (arith, size, digits)

pub new_passkey_accepted :
    (is_digit : ℕ → Bool) (draw : ℕ)
    → ((c : ℕ) → is_decimal c ≡ true → is_digit c ≡ true)
    → is_passkey is_digit (new_passkey draw) ≡ true
new_passkey_accepted is_digit draw digits =
    let (size, decimals, number) = new_passkey-decimal draw in
    passkey_accepted is_digit (new_passkey draw) size
      (all-weaken is_decimal is_digit (new_passkey draw) digits decimals)

module _ (is_digit : ℕ → Bool) (environ : Dict Text) where
  -- A passkey that `generate_secret` could write is the one that every later start loads, whatever
  -- that start would have drawn and whatever state it starts from, and the disk stays as it is. The
  -- ten decimal digits are digits to `str.isdigit`.
  pub load_or_generate_secret-generate_secret :
      (draw draw' : ℕ) (writes : Bool) (s s' : PairingState) (disk : Disk)
      → ((c : ℕ) → is_decimal c ≡ true → is_digit c ≡ true)
      → load_or_generate_secret is_digit environ draw' writes s'
          (generate_secret is_digit environ draw true s disk).2
        ≡ (
          ok (new_passkey draw),
          load_existing (new_passkey draw) s',
          (generate_secret is_digit environ draw true s disk).2,
        )
  unfolding load_or_generate_secret generate_secret
  load_or_generate_secret-generate_secret draw draw' writes s s' disk digits =
      let long : 1 ≤ length (new_passkey draw) = omega (arith, (new_passkey-decimal draw).0) in
      rw
        (
          read-write (get_pairing_secret_path environ) (new_passkey draw) disk
              (strip-new_passkey draw) long,
          new_passkey_accepted is_digit draw digits,
        )
        refl

  -- A Soft AP passphrase that `generate_ap_passphrase` could write is the one that every later start
  -- loads, whatever that start would have drawn and whatever state it starts from, and the disk stays
  -- as it is.
  pub load_or_generate_ap_passphrase-generate_ap_passphrase :
      (draws draws' : ℕ → ℕ) (writes : Bool) (s s' : PairingState) (disk : Disk)
      → load_or_generate_ap_passphrase is_digit environ draws' writes s'
          (generate_ap_passphrase is_digit environ draws true s disk).2
        ≡ (
          ok (new_ap_passphrase draws),
          record s' { ap_passphrase = some (new_ap_passphrase draws) },
          (generate_ap_passphrase is_digit environ draws true s disk).2,
        )
  unfolding load_or_generate_ap_passphrase generate_ap_passphrase
  load_or_generate_ap_passphrase-generate_ap_passphrase draws draws' writes s s' disk =
      let (size, valid, stripped) = new_ap_passphrase_valid draws in
      let long : 1 ≤ length (new_ap_passphrase draws) = omega (arith, size) in
      rw
        (
          read-write (get_ap_passphrase_path environ) (new_ap_passphrase draws) disk stripped long,
          valid,
        )
        refl

  -- `load_or_generate_secret` leaves the disk as it is, or else it puts the passkey that it returns
  -- into the file, and then the file was absent, was empty, or held a text that is no passkey.
  pub load_or_generate_secret_disk :
      (draw : ℕ) (writes : Bool) (s : PairingState) (disk : Disk)
      → ((load_or_generate_secret is_digit environ draw writes s disk).2 ≡ disk)
        ⊎ (((load_or_generate_secret is_digit environ draw writes s disk).0 ≡ ok (new_passkey draw))
            × ((load_or_generate_secret is_digit environ draw writes s disk).2
                ≡ Dict.put disk (get_pairing_secret_path environ) (file_of (new_passkey draw)))
            × ((secret_file_present (get_pairing_secret_path environ) disk ≡ false)
                ⊎ ((existing : Text) × (read_secret_file (get_pairing_secret_path environ) disk
                      ≡ ok (some existing))
                    × (is_passkey is_digit existing ≡ false))))
  unfolding load_or_generate_secret generate_secret write_secret_file
  load_or_generate_secret_disk draw writes s disk =
      go writes (read_secret_file (get_pairing_secret_path environ) disk) refl
    where
      go :
          (w : Bool) (r : Result PythonError (Option Text))
          → read_secret_file (get_pairing_secret_path environ) disk ≡ r
          → ((load_read_secret is_digit environ draw w r s disk).2 ≡ disk)
            ⊎ (((load_read_secret is_digit environ draw w r s disk).0 ≡ ok (new_passkey draw))
                × ((load_read_secret is_digit environ draw w r s disk).2
                    ≡ Dict.put disk (get_pairing_secret_path environ) (file_of (new_passkey draw)))
                × ((secret_file_present (get_pairing_secret_path environ) disk ≡ false)
                    ⊎ ((existing : Text) × (r ≡ ok (some existing))
                        × (is_passkey is_digit existing ≡ false))))
      go w (raised e) h = inl refl
      go false (ok none) h = inl (ground arith)
      go true (ok none) h =
          elim (Bool-cases (secret_file_present (get_pairing_secret_path environ) disk)) [
            | inl there ↦ rw there (inl refl)
            | inr gone ↦ rw gone (inr (refl, refl, inl refl))
          ]
      go false (ok (some existing)) h = inl (ground arith)
      go true (ok (some existing)) h = elim (Bool-cases (is_passkey is_digit existing)) [
        | inl good ↦ rw good (inl refl)
        | inr bad ↦ rw bad (inr (refl, refl, inr (existing, refl, bad)))
      ]
