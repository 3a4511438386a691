-- ===== src/Base/Pattern.antt =====
-- The match of `^[first][later]{0,n}$` by `re.match`, where no character of the classes is a newline:
-- then one pass decides, and `$` also holds before a newline that ends the text.
use mathlib.Core.Bool.{false≢true}
use mathlib.Core.List.{append-nil}
use nomothetic.Base.{
  ap, ◌∙◌, ℕ, zero, suc, ◌≤◌, ◌≡◌, ◌↔◌, ◌⊎◌, inl, inr, refl, Bool, true, false, ◌&&◌, [], ◌∷◌, ◌++◌,
  arith, length, All, if◌then◌else◌, Bool-cases, ◌==◌,
}
use nomothetic.Base.Text.{Text}

abbrev pub newline : ℕ
newline = 10

-- `$`
at_end : Text → Bool
at_end [] = true
at_end (c ∷ []) = c == newline
at_end (c ∷ d ∷ s) = false

module _ (is_first is_later : ℕ → Bool) where
  -- `[later]{0,n}$`
  matches_later : ℕ → Text → Bool
  unfolding at_end
  matches_later n [] = true
  matches_later zero (c ∷ s) = at_end (c ∷ s)
  matches_later (suc n) (c ∷ s) =
      let rest = matches_later n s in if is_later c then rest else at_end (c ∷ s)

  unfoldable pub matches : ℕ → Text → Bool
  unfolding matches_later
  matches n [] = false
  matches n (c ∷ s) = is_first c && matches_later n s

  abbrev pub LaterChars : Text → Type 0
  LaterChars = All (λ c. is_later c ≡ true)

  -- One character of the first class, and then at most `n` of the second.
  pub record IsSpelled (n : ℕ) (name : Text) : Type 0 where
    pub first : ℕ
    pub later : Text
    pub spelled : name ≡ first ∷ later
    pub first_ok : is_first first ≡ true
    pub later_ok : LaterChars later
    pub short : length later ≤ n

  abbrev optional_newline : Bool → Text
  optional_newline true = newline ∷ []
  optional_newline false = []

  at_end_cases : (s : Text) → at_end s ≡ true → (b : Bool) × (s ≡ optional_newline b)
  unfolding at_end
  at_end_cases [] h = (false, refl)
  at_end_cases (c ∷ []) h = (true, ground arith)
  at_end_cases (c ∷ d ∷ s) h = absurd (ground arith)

  matches_later_sound :
      (n : ℕ) (s : Text)
      → matches_later n s ≡ true
      → (later : Text) × (b : Bool) × (s ≡ later ++ optional_newline b)
        × LaterChars later
        × (length later ≤ n)
  unfolding matches_later
  matches_later_sound n [] h = ([], false, refl, tt, omega arith)
  matches_later_sound zero (c ∷ s) h =
      let (b, e) = at_end_cases (c ∷ s) h in ([], b, e, tt, omega arith)
  matches_later_sound (suc n) (c ∷ s) h = elim (Bool-cases (is_later c)) [
    | inl word ↦
        let (later, b, e, chars, short) = matches_later_sound n s (rw word at h) in
        (c ∷ later, b, ground (arith, e), (word, chars), omega arith)
    | inr other ↦ let (b, e) = at_end_cases (c ∷ s) (rw other at h) in ([], b, e, tt, omega arith)
  ]

  matches_later_complete :
      (n : ℕ) (later : Text) (b : Bool)
      → LaterChars later
      → length later ≤ n
      → matches_later n (later ++ optional_newline b) ≡ true
  unfolding matches_later
  matches_later_complete zero [] true h k = refl
  matches_later_complete zero [] false h k = refl
  matches_later_complete (suc n) [] true h k = ground arith
  matches_later_complete (suc n) [] false h k = refl
  matches_later_complete zero (c ∷ later) b h k = absurd (omega arith)
  matches_later_complete (suc n) (c ∷ later) b h k =
      ground (arith, h.0, matches_later_complete n later b h.1 (omega arith))

  matches_sound :
      (n : ℕ) (name : Text)
      → matches n name ≡ true
      → (base : Text) × IsSpelled n base × ((b : Bool) × (name ≡ base ++ optional_newline b))
  unfolding matches
  matches_sound n [] h = absurd (false≢true h)
  matches_sound n (c ∷ s) h =
      let (later, b, e, chars, short) = matches_later_sound n s (ground arith) in
      (
        c ∷ later,
        record {
          first = c;
          later = later;
          spelled = refl;
          first_ok = ground arith;
          later_ok = chars;
          short = short;
        },
        (b, ap (λ t. c ∷ t) e),
      )

  matches_complete :
      (n : ℕ) (base : Text) (b : Bool)
      → IsSpelled n base
      → matches n (base ++ optional_newline b) ≡ true
  unfolding matches
  matches_complete n base b form = rw form.spelled (
      ground (arith, form.first_ok, matches_later_complete n form.later b form.later_ok form.short))

  -- The texts that match are those so spelled, and those with one newline behind.
  pub matches_iff :
      (n : ℕ) (name : Text)
      → (matches n name ≡ true)
        ↔ ((base : Text) × IsSpelled n base × ((name ≡ base) ⊎ (name ≡ base ++ newline ∷ [])))
  matches_iff n name = (
    λ h. let (base, form, (b, e)) = matches_sound n name h in (base, form, either base b e),
    λ (base, form, e). matched base form e,
  )
    where
      either :
          (base : Text) (b : Bool)
          → name ≡ base ++ optional_newline b
          → (name ≡ base) ⊎ (name ≡ base ++ newline ∷ [])
      either base true e = inr e
      either base false e = inl (e ∙ append-nil base)

      matched :
          (base : Text)
          → IsSpelled n base
          → (name ≡ base) ⊎ (name ≡ base ++ newline ∷ [])
          → matches n name ≡ true
      matched base form (inl e) = rw (e, ← append-nil base) (matches_complete n base false form)
      matched base form (inr e) = rw e (matches_complete n base true form)
