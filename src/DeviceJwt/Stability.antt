-- ===== src/DeviceJwt/Stability.antt =====
-- What a restart of the service finds of the signing secret.
use nomothetic.Base.{
  ◌≡◌, ◌⊎◌, inl, inr, refl, sym, ap, ◌∙◌, Bool, true, not, ◌&&◌, Option, none, some, length, all,
  leb, arith, Result, ok, raised, Bool-cases,
}
use nomothetic.Base.Text.{Text, strip_lem, is_space, is_space_ascii, all-weaken, text_eq_refl}
use nomothetic.Base.Dict.{get-put}
use nomothetic.Files.{Disk, write_secret_file, file_of, PythonError}
use nomothetic.DeviceJwt.{
  long_enough, read_reading, read_file, read, unreadable_file_present, load_read, load_or_generate,
  rotate,
}

-- What `secrets.token_urlsafe(48)` gives: 64 characters of the URL-safe alphabet, of which it is
-- used that they are visible ASCII.
abbrev pub IsUrlsafe : Text → Type 0
IsUrlsafe drawn = (length drawn ≡ 64) × (all (λ c. leb 33 c && leb c 126) drawn ≡ true)

long_lem : (s : Text) → length s ≡ 64 → long_enough s ≡ some s
unfolding long_enough
long_lem s h = rw h refl

result_ok : (s t : Text) → Path (Result PythonError Text) (ok s) (ok t) → s ≡ t
result_ok s t e = ground (arith, e)

read-write :
    (path drawn : Text) (disk : Disk)
    → IsUrlsafe drawn
    → read path (write_secret_file path drawn true disk) ≡ ok (some drawn)
unfolding read write_secret_file file_of read_file read_reading
read-write path drawn disk (size, visible) =
    let stripped = strip_lem drawn (
      all-weaken (λ c. leb 33 c && leb c 126) (λ c. not (is_space c)) drawn
        (λ c h. ground (arith, is_space_ascii c, h)) visible) in
    simp (get-put, text_eq_refl, stripped, long_lem drawn size) refl

load-of_read :
    (path drawn v : Text) (writes : Bool) (disk : Disk)
    → read path disk ≡ ok (some v)
    → load_or_generate path drawn writes disk ≡ (ok v, disk)
unfolding load_or_generate load_read
load-of_read path drawn v writes disk h = rw h refl

-- After a rotation that could write, the next start loads the secret that was drawn, whatever that
-- start would have drawn, and leaves the disk as it is. What was drawn is visible ASCII, 64 long.
pub load_or_generate-rotate :
    (path drawn drawn' : Text) (writes : Bool) (disk : Disk)
    → IsUrlsafe drawn
    → load_or_generate path drawn' writes (rotate path drawn true disk).1
      ≡ (ok (rotate path drawn true disk).0, (rotate path drawn true disk).1)
unfolding rotate
load_or_generate-rotate path drawn drawn' writes disk urlsafe =
    load-of_read path drawn' drawn writes (write_secret_file path drawn true disk)
      (read-write path drawn disk urlsafe)

-- A start that got a secret, with a disk that it could write to, leaves one that the next start
-- loads, whatever that one would have drawn and with the disk as it is; or else the file gave no
-- secret and is of 32 bytes or more, and the start left the disk as it was and returned what it drew:
-- a file that cannot be read, or a readable one whose text is too short when it is stripped. What was drawn is visible ASCII, 64 long.
pub load_or_generate-load_or_generate :
    (path drawn drawn' v : Text) (writes : Bool) (disk : Disk)
    → IsUrlsafe drawn
    → (load_or_generate path drawn true disk).0 ≡ ok v
    → (load_or_generate path drawn' writes (load_or_generate path drawn true disk).1
        ≡ (ok v, (load_or_generate path drawn true disk).1))
      ⊎ ((read path disk ≡ ok none)
          × (unreadable_file_present path disk ≡ true)
          × (v ≡ drawn)
          × ((load_or_generate path drawn true disk).1 ≡ disk))
unfolding load_or_generate load_read
load_or_generate-load_or_generate path drawn drawn' v writes disk urlsafe = go (read path disk) refl
  where
    go :
        (r : Result PythonError (Option Text))
        → read path disk ≡ r
        → (load_read path drawn true r disk).0 ≡ ok v
        → (load_or_generate path drawn' writes (load_read path drawn true r disk).1
            ≡ (ok v, (load_read path drawn true r disk).1))
          ⊎ ((r ≡ ok none)
              × (unreadable_file_present path disk ≡ true)
              × (v ≡ drawn)
              × ((load_read path drawn true r disk).1 ≡ disk))
    go (raised e) h e' = absurd (ground (arith, e'))
    go (ok (some existing)) h e = inl (
        load-of_read path drawn' v writes disk (h ∙ ap (λ t. ok (some t)) (result_ok existing v e)))
    go (ok none) h e = elim (Bool-cases (unreadable_file_present path disk)) [
      | inl there ↦ rw there (inr (refl, refl, sym (result_ok drawn v (rw there at e)), refl))
      | inr gone ↦ rw gone (
          inl (
            load-of_read path drawn' v writes (write_secret_file path drawn true disk) (
              read-write path drawn disk urlsafe
              ∙ ap (λ t. ok (some t)) (result_ok drawn v (rw gone at e)))))
    ]
