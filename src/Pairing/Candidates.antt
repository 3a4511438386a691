-- ===== src/Pairing/Candidates.antt =====
-- One run of the service after `load_or_generate_secret`: which candidates verify, and when.
use mathlib.Core.Path.{subst}
use nomothetic.Base.{
  ◌≤◌, length, ◌≡◌, ◌≢◌, inr, refl, ℕ, Bool, true, false, Option, none, some, List, arith, Result,
  ok, raised, if◌then◌else◌,
}
use nomothetic.Base.Text.{Text}
use nomothetic.Base.Dict.{Dict}
use nomothetic.Files.{Disk, write_secret_file, PythonError}
use nomothetic.Pairing.{
  new_passkey, read_secret_file, secret_file_present, is_passkey, compare_digest,
}
use nomothetic.Pairing.State.{
  PairingState, Loaded, load_existing, set_new_secret, generate_secret, load_read_secret,
  load_or_generate_secret, active_read, verify_active, verify_secret,
}
use nomothetic.Pairing.Passkey.{new_passkey-decimal, strip-new_passkey}
use nomothetic.Pairing.Restart.{read-write}
use nomothetic.Pairing.Session.{
  Call, Answers, secret_path, jwt_path, perform_all, active-of_Answers, perform_all-Answers,
}

module _ (is_digit : ℕ → Bool) (environ : Dict Text) where
  active_read_own :
      (v : Text) (r : Result PythonError (Option Text))
      → r ≡ ok (some v)
      → active_read is_digit environ (some v) r ≡ ok (some v)
  unfolding active_read
  active_read_own v r h = rw h (ground arith)

  active_read-none :
      (v : Text) (r : Result PythonError (Option Text))
      → r ≡ ok none
      → active_read is_digit environ (some v) r ≡ ok (some v)
  unfolding active_read
  active_read-none v r h = rw h refl

  -- Where `generate_secret` is reached from a file that gives no passkey.
  generate-Answers :
      (draw : ℕ) (writes : Bool) (s : PairingState) (disk : Disk)
      → active_read is_digit environ
          (some (new_passkey draw))
          (read_secret_file (secret_path is_digit environ) disk)
        ≡ ok (some (new_passkey draw))
      → Answers is_digit environ (new_passkey draw) (
        set_new_secret draw s,
        write_secret_file (secret_path is_digit environ) (new_passkey draw) writes disk,
      )
  unfolding set_new_secret write_secret_file
  generate-Answers draw false s disk h = (inr refl, h)
  generate-Answers draw true s disk h =
      let long : 1 ≤ length (new_passkey draw) = omega (arith, (new_passkey-decimal draw).0) in
      (
        inr refl,
        active_read_own (new_passkey draw)
            (read_secret_file (secret_path is_digit environ)
              (write_secret_file (secret_path is_digit environ) (new_passkey draw) true disk))
            (read-write (secret_path is_digit environ) (new_passkey draw) disk
              (strip-new_passkey draw) long),
      )

  -- A method that returns a secret leaves a state that answers to it.
  abbrev Serves : Loaded → Type 0
  Serves x = (v : Text) → x.0 ≡ ok v → Answers is_digit environ v (x.1, x.2)

  returns-Serves :
      (p : Text) (s : PairingState) (disk : Disk)
      → Answers is_digit environ p (s, disk)
      → Serves (ok p, s, disk)
  returns-Serves p s disk h v e =
      let same : p ≡ v = ground (arith, e) in
      subst (λ t. Answers is_digit environ t (s, disk)) same h

  if-Serves :
      (b : Bool) (x y : Loaded)
      → (b ≡ true → Serves x)
      → (b ≡ false → Serves y)
      → Serves (if b then x else y)
  if-Serves true x y hx hy = hx refl
  if-Serves false x y hx hy = hy refl

  active_read_other :
      (last : Text) (existing : Text)
      → is_passkey is_digit existing ≡ false
      → active_read is_digit environ (some last) (ok (some existing)) ≡ ok (some last)
  unfolding active_read
  active_read_other last existing h = rw h refl

  generate_secret-Serves :
      (draw : ℕ) (writes : Bool) (s : PairingState) (disk : Disk)
      → active_read is_digit environ
          (some (new_passkey draw))
          (read_secret_file (secret_path is_digit environ) disk)
        ≡ ok (some (new_passkey draw))
      → Serves (generate_secret is_digit environ draw writes s disk)
  unfolding generate_secret
  generate_secret-Serves draw writes s disk h =
      returns-Serves (new_passkey draw) (set_new_secret draw s)
        (write_secret_file (secret_path is_digit environ) (new_passkey draw) writes disk)
        (generate-Answers draw writes s disk h)

  load_read-Serves :
      (draw : ℕ) (writes : Bool) (s : PairingState) (disk : Disk)
      (r : Result PythonError (Option Text))
      → read_secret_file (secret_path is_digit environ) disk ≡ r
      → Serves (load_read_secret is_digit environ draw writes r s disk)
  unfolding load_read_secret set_new_secret
  load_read-Serves draw writes s disk (raised e) h = λ v e'. absurd (ground (arith, e'))
  load_read-Serves draw writes s disk (ok none) h =
      let last : active_read is_digit environ (some (new_passkey draw))
            (read_secret_file (secret_path is_digit environ) disk)
          ≡ ok (some (new_passkey draw)) =
        active_read-none (new_passkey draw) (read_secret_file (secret_path is_digit environ) disk)
          h in
      if-Serves (secret_file_present (secret_path is_digit environ) disk)
        (ok (new_passkey draw), set_new_secret draw s, disk)
        (generate_secret is_digit environ draw writes s disk)
        (λ there. returns-Serves (new_passkey draw) (set_new_secret draw s) disk (inr refl, last))
        (λ gone. generate_secret-Serves draw writes s disk last)
  load_read-Serves draw writes s disk (ok (some existing)) h =
      if-Serves (is_passkey is_digit existing) (ok existing, load_existing existing s, disk)
        (generate_secret is_digit environ draw writes s disk)
        (λ good. returns-Serves existing (load_existing existing s) disk (
          inr refl,
          active_read_own existing (read_secret_file (secret_path is_digit environ) disk) h,
        ))
        (λ bad.
          generate_secret-Serves draw writes s disk
            (rw h (active_read_other (new_passkey draw) existing bad)))

  -- After a start that loaded or generated the secret `v`, and any sequence of attempts to consume a
  -- candidate, completed pairings and session resets, a candidate verifies exactly when it is `v`,
  -- and where one of the two is not ASCII the comparison raises TypeError. The tokens' secret stands
  -- in another file than the pairing secret.
  pub verify_secret-load_or_generate_secret :
      (draw : ℕ) (writes : Bool) (s : PairingState) (disk : Disk) (v candidate : Text)
      (calls : List Call)
      → (jwt_path is_digit environ) ≢ (secret_path is_digit environ)
      → (load_or_generate_secret is_digit environ draw writes s disk).0 ≡ ok v
      → (let (r, s', disk') = load_or_generate_secret is_digit environ draw writes s disk in
          let (s'', disk'') = perform_all is_digit environ calls (s', disk') in
          verify_secret is_digit environ candidate s'' disk'' ≡ compare_digest v candidate)
  unfolding verify_secret verify_active load_or_generate_secret
  verify_secret-load_or_generate_secret draw writes s disk v candidate calls apart loaded =
      let x = load_or_generate_secret is_digit environ draw writes s disk in
      let after = perform_all is_digit environ calls (x.1, x.2) in
      let h = perform_all-Answers is_digit environ calls v x.1 x.2 apart (
        load_read-Serves draw writes s disk (read_secret_file (secret_path is_digit environ) disk)
          refl v loaded) in
      rw (active-of_Answers is_digit environ v after.0 after.1 h) refl
