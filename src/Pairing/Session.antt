-- ===== src/Pairing/Session.antt =====
-- The calls that a session of pairing is made of, and what they keep of its secret.
use nomothetic.Base.{
  ◌≡◌, ◌≢◌, ◌⊎◌, inl, inr, refl, ℕ, Bool, true, false, none, some, List, [], ◌∷◌, Result, ok,
  raised, Bool-cases, if◌then◌else◌,
}
use nomothetic.Base.Text.{Text, text_eq, text_eq_iff}
use nomothetic.Base.Dict.{Dict, get-put}
use nomothetic.Files.{Disk, write_secret_file, PythonError}
use nomothetic.DeviceJwt
use nomothetic.Pairing.{get_pairing_secret_path, read_secret_file}
use nomothetic.Pairing.State.{
  PairingState, complete_pairing, active_read, active_or_read, get_active_secret, verify_secret,
  consume_verified, verify_and_consume, reset_session,
}

-- The calls of one run that leave `pairing_secret` alone.
pub data Call : Type 0 where
  consume_call : (candidate : Text) → Call
  complete_call : (owner_email : Text) → Call
  reset_session_call : (drawn : Text) (writes : Bool) → Call

abbrev pub IsReset : Call → Type 0
IsReset (consume_call candidate) = ⊥
IsReset (complete_call owner_email) = ⊥
IsReset (reset_session_call drawn writes) = Unit

module _ (is_digit : ℕ → Bool) (environ : Dict Text) where
  abbrev pub secret_path : Text
  secret_path = get_pairing_secret_path environ

  abbrev pub jwt_path : Text
  jwt_path = DeviceJwt.store_path none environ

  unfoldable pub perform : Call → PairingState × Disk → PairingState × Disk
  perform (consume_call candidate) (s, disk) =
      ((verify_and_consume is_digit environ candidate s disk).1, disk)
  perform (complete_call owner_email) (s, disk) = (complete_pairing owner_email s, disk)
  perform (reset_session_call drawn writes) (s, disk) =
      reset_session is_digit environ drawn writes s disk

  unfoldable pub perform_all : List Call → PairingState × Disk → PairingState × Disk
  perform_all [] w = w
  perform_all (call ∷ calls) w = perform_all calls (perform call w)

  -- The secret in memory is `v` or gone, and without it the file or the last secret gives `v`.
  abbrev pub Answers : Text → PairingState × Disk → Type 0
  Answers v w =
      ((w.0.secret ≡ none) ⊎ (w.0.secret ≡ some v))
      × (active_read is_digit environ w.0.last_secret (read_secret_file secret_path w.1)
          ≡ ok (some v))

  pub active-of_Answers :
      (v : Text) (s : PairingState) (disk : Disk)
      → Answers v (s, disk)
      → get_active_secret is_digit environ s disk ≡ ok (some v)
  unfolding get_active_secret active_or_read
  active-of_Answers v s disk (inl gone, h) = rw gone h
  active-of_Answers v s disk (inr there, h) = rw there refl

  consume_verified-Answers :
      (r : Result PythonError Bool) (v : Text) (s : PairingState) (disk : Disk)
      → Answers v (s, disk)
      → Answers v ((consume_verified is_digit environ r s).1, disk)
  unfolding consume_verified
  consume_verified-Answers (raised e) v s disk h = h
  consume_verified-Answers (ok false) v s disk h = h
  consume_verified-Answers (ok true) v s disk h = (inl refl, h.1)

  read-jwt_write :
      (drawn : Text) (writes : Bool) (disk : Disk)
      → jwt_path ≢ secret_path
      → read_secret_file secret_path (write_secret_file jwt_path drawn writes disk)
        ≡ read_secret_file secret_path disk
  unfolding read_secret_file write_secret_file
  read-jwt_write drawn false disk apart = refl
  read-jwt_write drawn true disk apart = elim (Bool-cases (text_eq jwt_path secret_path)) [
    | inl same ↦ absurd (apart ((text_eq_iff jwt_path secret_path).0 same))
    | inr other ↦ simp (get-put, other) refl
  ]

  if-Answers :
      (b : Bool) (x y : Result PythonError Bool × PairingState) (v : Text) (disk : Disk)
      → Answers v (x.1, disk)
      → Answers v (y.1, disk)
      → Answers v ((if b then x else y).1, disk)
  if-Answers true x y v disk hx hy = hx
  if-Answers false x y v disk hx hy = hy

  perform-Answers :
      (call : Call) (v : Text) (s : PairingState) (disk : Disk)
      → jwt_path ≢ secret_path
      → Answers v (s, disk)
      → Answers v (perform call (s, disk))
  unfolding perform verify_and_consume complete_pairing reset_session DeviceJwt.rotate
  perform-Answers (consume_call candidate) v s disk apart h =
      if-Answers s.paired (ok false, s)
        (consume_verified is_digit environ (verify_secret is_digit environ candidate s disk) s) v
        disk h
        (consume_verified-Answers (verify_secret is_digit environ candidate s disk) v s disk h)
  perform-Answers (complete_call owner_email) v s disk apart h = (inl refl, h.1)
  perform-Answers (reset_session_call drawn writes) v s disk apart h =
      (inl refl, rw (read-jwt_write drawn writes disk apart) h.1)

  pub perform_all-Answers :
      (calls : List Call) (v : Text) (s : PairingState) (disk : Disk)
      → jwt_path ≢ secret_path
      → Answers v (s, disk)
      → Answers v (perform_all calls (s, disk))
  unfolding perform_all
  perform_all-Answers [] v s disk apart h = h
  perform_all-Answers (call ∷ calls) v s disk apart h =
      let next = perform call (s, disk) in
      perform_all-Answers calls v next.0 next.1 apart (perform-Answers call v s disk apart h)
