-- ===== src/Pairing/Consumption.antt =====
-- A pairing secret is consumed once in a session, and a reset leaves none.
use nomothetic.Base.{
  ◌≡◌, refl, ℕ, Bool, true, false, none, List, [], ◌∷◌, All, arith, Result, ok, raised,
  if◌then◌else◌,
}
use nomothetic.Base.Text.{Text, text_eq_refl}
use nomothetic.Base.Dict
use nomothetic.Base.Dict.{Dict, get-put, get-remove}
use nomothetic.Files.{Disk, unlink, PythonError, has_size}
use nomothetic.DeviceJwt
use nomothetic.Pairing.{
  get_pairing_secret_path, get_ap_passphrase_path, read_file, read_secret_file, secret_file_present,
}
use nomothetic.Pairing.State.{
  PairingState, generate_secret, load_read_secret, load_or_generate_secret, complete_pairing,
  active_or_read, get_active_secret, is_present, has_pairing_secret, verify_active, verify_secret,
  consume_verified, verify_and_consume, reset_session, reset,
}
use nomothetic.Pairing.Session.{
  Call, consume_call, complete_call, reset_session_call, IsReset, perform, perform_all,
}

-- Of two files that are deleted the first is gone.
get-unlink :
    (path other : Text) (disk : Disk)
    → Dict.get (unlink other true (unlink path true disk)) path ≡ none
unfolding unlink
get-unlink path other disk = simp (get-remove, text_eq_refl) (ground arith)

read_secret_file_absent :
    (path : Text) (disk : Disk) → Dict.get disk path ≡ none → read_secret_file path disk ≡ ok none
unfolding read_secret_file read_file
read_secret_file_absent path disk gone = rw gone refl

secret_file_absent :
    (path : Text) (disk : Disk) → Dict.get disk path ≡ none → secret_file_present path disk ≡ false
unfolding secret_file_present has_size
secret_file_absent path disk gone = rw gone refl

module _ (is_digit : ℕ → Bool) (environ : Dict Text) where
  verify_and_consume_paired :
      (candidate : Text) (s : PairingState) (disk : Disk)
      → s.paired ≡ true
      → verify_and_consume is_digit environ candidate s disk ≡ (ok false, s)
  unfolding verify_and_consume
  verify_and_consume_paired candidate s disk h = rw h refl

  consume_verified_ok :
      (r : Result PythonError Bool) (s : PairingState)
      → (consume_verified is_digit environ r s).0 ≡ ok true
      → (consume_verified is_digit environ r s).1.paired ≡ true
  unfolding consume_verified
  consume_verified_ok (raised e) s h = absurd (ground (arith, h))
  consume_verified_ok (ok false) s h = absurd (ground (arith, h))
  consume_verified_ok (ok true) s h = refl

  consumed-paired :
      (candidate : Text) (s : PairingState) (disk : Disk)
      → (verify_and_consume is_digit environ candidate s disk).0 ≡ ok true
      → (verify_and_consume is_digit environ candidate s disk).1.paired ≡ true
  unfolding verify_and_consume
  consumed-paired candidate s disk = go s.paired
    where
      go :
          (b : Bool)
          → (if b
              then (ok false, s)
              else consume_verified is_digit environ
                  (verify_secret is_digit environ candidate s disk)
                  s).0
            ≡ ok true
          → (if b
              then (ok false, s)
              else consume_verified is_digit environ
                  (verify_secret is_digit environ candidate s disk)
                  s).1.paired
            ≡ true
      go true h = absurd (ground (arith, h))
      go false h = consume_verified_ok (verify_secret is_digit environ candidate s disk) s h

  perform-paired :
      (call : Call) (s : PairingState) (disk : Disk)
      → (IsReset call → ⊥)
      → s.paired ≡ true
      → (perform is_digit environ call (s, disk)).0.paired ≡ true
  unfolding perform complete_pairing
  perform-paired (consume_call candidate) s disk other h =
      rw (verify_and_consume_paired candidate s disk h) h
  perform-paired (complete_call owner_email) s disk other h = refl
  perform-paired (reset_session_call drawn writes) s disk other h = absurd (other tt)

  perform_all-paired :
      (calls : List Call) (s : PairingState) (disk : Disk)
      → All (λ call. IsReset call → ⊥) calls
      → s.paired ≡ true
      → (perform_all is_digit environ calls (s, disk)).0.paired ≡ true
  unfolding perform_all
  perform_all-paired [] s disk others h = h
  perform_all-paired (call ∷ calls) s disk others h =
      let next = perform is_digit environ call (s, disk) in
      perform_all-paired calls next.0 next.1 others.1 (perform-paired call s disk others.0 h)

  -- After a candidate was consumed, no candidate is consumed again until the session is reset,
  -- whatever attempts and pairings come between, and the attempt changes nothing.
  pub verify_and_consume-verify_and_consume :
      (candidate other : Text) (s : PairingState) (disk disk' : Disk) (calls : List Call)
      → (verify_and_consume is_digit environ candidate s disk).0 ≡ ok true
      → All (λ call. IsReset call → ⊥) calls
      → (let s' =
            (perform_all is_digit environ calls
              ((verify_and_consume is_digit environ candidate s disk).1, disk)).0 in
          verify_and_consume is_digit environ other s' disk' ≡ (ok false, s'))
  verify_and_consume-verify_and_consume candidate other s disk disk' calls consumed others =
      let s1 = (verify_and_consume is_digit environ candidate s disk).1 in
      verify_and_consume_paired other (perform_all is_digit environ calls (s1, disk)).0 disk'
        (perform_all-paired calls s1 disk others (consumed-paired candidate s disk consumed))

  load_or_generate_secret_absent :
      (draw : ℕ) (writes : Bool) (s : PairingState) (disk : Disk)
      → Dict.get disk (get_pairing_secret_path environ) ≡ none
      → load_or_generate_secret is_digit environ draw writes s disk
        ≡ generate_secret is_digit environ draw writes s disk
  unfolding load_or_generate_secret load_read_secret
  load_or_generate_secret_absent draw writes s disk gone =
      let path = get_pairing_secret_path environ in
      rw (read_secret_file_absent path disk gone) (rw (secret_file_absent path disk gone) refl)

  -- After a reset that could delete both files, no secret is available, every candidate is refused,
  -- the device is unpaired with no owner and no passphrase, its signing secret is the one drawn, and
  -- the next start does what `generate_secret` does.
  pub reset_effect :
      (drawn candidate : Text) (writes writes' : Bool) (draw : ℕ) (s s'' : PairingState)
      (disk : Disk)
      → (let (s', disk') = reset is_digit environ drawn writes true true s disk in
          (has_pairing_secret is_digit environ s' disk' ≡ ok false)
          × (verify_secret is_digit environ candidate s' disk' ≡ ok false)
          × (s'.paired ≡ false)
          × (s'.owner_email ≡ none)
          × (s'.ap_passphrase ≡ none)
          × (s'.jwt_secret ≡ drawn)
          × (load_or_generate_secret is_digit environ draw writes' s'' disk'
              ≡ generate_secret is_digit environ draw writes' s'' disk'))
  unfolding reset reset_session unlink DeviceJwt.rotate has_pairing_secret is_present verify_secret
      verify_active get_active_secret active_or_read
  reset_effect drawn candidate writes writes' draw s s'' disk =
      let (s', disk') = reset_session is_digit environ drawn writes s disk in
      let path = get_pairing_secret_path environ in
      let gone = get-unlink path (get_ap_passphrase_path environ) disk' in
      let read =
        read_secret_file_absent path (reset is_digit environ drawn writes true true s disk).1
          gone in
      (
        rw read refl,
        rw read refl,
        refl,
        refl,
        refl,
        refl,
        load_or_generate_secret_absent draw writes' s''
            (reset is_digit environ drawn writes true true s disk).1 gone,
      )
