-- ===== src/Base/Dict.antt =====
-- Python's `dict` with text keys, in insertion order: an assignment to a key that is there keeps
-- its place, and one to a new key goes to the end.
use mathlib.Core.Path.{subst}
use nomothetic.Base.{
  ◌+◌, ◌≤◌, ◌≡◌, ap, refl, Bool, true, Option, none, some, List, [], ◌∷◌, arith, length, is_some,
  if◌then◌else◌, Bool-cases, inl, inr,
}
use nomothetic.Base.Text.{Text, text_eq, text_eq_iff, text_eq_refl}

abbrev pub Dict {ℓ} : Type ℓ → Type ℓ
Dict V = List (Text × V)

module _ {ℓ} {V : Type ℓ} where
  -- `d.get(k)`
  unfoldable pub get : Dict V → Text → Option V
  get [] k = none
  get ((j, v) ∷ d) k = if text_eq j k then some v else get d k

  -- `d[k] = v`
  unfoldable pub put : Dict V → Text → V → Dict V
  put [] k v = (k, v) ∷ []
  put ((j, w) ∷ d) k v = if text_eq j k then (j, v) ∷ d else (j, w) ∷ put d k v

  -- `del d[k]` and `d.pop(k, None)`
  unfoldable pub remove : Dict V → Text → Dict V
  remove [] k = []
  remove ((j, v) ∷ d) k = let rest = remove d k in if text_eq j k then rest else (j, v) ∷ rest

  -- What is left after the deletion of every entry for which `p` fails.
  unfoldable pub retain : (Text → V → Bool) → Dict V → Dict V
  retain p [] = []
  retain p ((k, v) ∷ d) = let rest = retain p d in if p k v then (k, v) ∷ rest else rest

  -- A key stands once: what the type `dict` guarantees.
  abbrev pub Distinct : Dict V → Type ℓ
  Distinct [] = Unit
  Distinct ((k, v) ∷ d) = (get d k ≡ none) × Distinct d

  abbrev pub select : (Text → V → Bool) → Text → Option V → Option V
  select p k none = none
  select p k (some v) = if p k v then some v else none

  pub get-put :
      (d : Dict V) (k j : Text) (v : V)
      → get (put d k v) j ≡ (if text_eq k j then some v else get d j)
  unfolding get put
  get-put [] k j v = refl
  get-put ((i, w) ∷ d) k j v =
      ground (arith, text_eq_iff k j, text_eq_iff i k, text_eq_iff i j, get-put d k j v)

  pub get-remove :
      (d : Dict V) (k j : Text) → get (remove d k) j ≡ (if text_eq k j then none else get d j)
  unfolding get remove
  get-remove [] k j = ground arith
  get-remove ((i, w) ∷ d) k j =
      ground (arith, text_eq_iff k j, text_eq_iff i k, text_eq_iff i j, get-remove d k j)

  pub get-retain-none :
      (p : Text → V → Bool) (d : Dict V) (k : Text) → get d k ≡ none → get (retain p d) k ≡ none
  unfolding get retain
  get-retain-none p [] k h = refl
  get-retain-none p ((j, v) ∷ d) k h = ground (arith, text_eq_iff j k, get-retain-none p d k)

  pub get-retain :
      (p : Text → V → Bool) (d : Dict V) (k : Text)
      → Distinct d
      → get (retain p d) k ≡ select p k (get d k)
  unfolding get retain
  get-retain p [] k h = refl
  get-retain p ((j, v) ∷ d) k h = elim (Bool-cases (text_eq j k)) [
    | inl same ↦ let e = (text_eq_iff j k).0 same in ground (arith, e, get-retain-none p d j h.0)
    | inr other ↦ rw other (ground (arith, get-retain p d k h.1))
  ]

  pub put-Distinct : (d : Dict V) (k : Text) (v : V) → Distinct d → Distinct (put d k v)
  unfolding get put
  put-Distinct [] k v h = (refl, tt)
  put-Distinct ((j, w) ∷ d) k v h = elim (Bool-cases (text_eq j k)) [
    | inl same ↦ rw same h
    | inr other ↦
        rw other (
          ground (arith, get-put d k j v, text_eq_iff k j, text_eq_iff j k),
          put-Distinct d k v h.1,
        )
  ]

  pub remove-Distinct : (d : Dict V) (k : Text) → Distinct d → Distinct (remove d k)
  unfolding get remove
  remove-Distinct [] k h = tt
  remove-Distinct ((j, v) ∷ d) k h = elim (Bool-cases (text_eq j k)) [
    | inl same ↦ rw same (remove-Distinct d k h.1)
    | inr other ↦ rw other (ground (arith, get-remove d k j), remove-Distinct d k h.1)
  ]

  pub retain-Distinct : (p : Text → V → Bool) (d : Dict V) → Distinct d → Distinct (retain p d)
  unfolding get retain
  retain-Distinct p [] h = tt
  retain-Distinct p ((j, v) ∷ d) h = elim (Bool-cases (p j v)) [
    | inl kept ↦ rw kept (get-retain-none p d j h.0, retain-Distinct p d h.1)
    | inr gone ↦ rw gone (retain-Distinct p d h.1)
  ]

  pub length-put :
      (d : Dict V) (k : Text) (v : V)
      → length (put d k v) ≡ (if is_some (get d k) then length d else length d + 1)
  unfolding get put
  length-put [] k v = refl
  length-put ((j, w) ∷ d) k v = ground (arith, length-put d k v)

  pub length-remove-le : (d : Dict V) (k : Text) → length (remove d k) ≤ length d
  unfolding remove
  length-remove-le [] k = omega arith
  length-remove-le ((j, v) ∷ d) k = ground (arith, length-remove-le d k)

  pub length-retain-le : (p : Text → V → Bool) (d : Dict V) → length (retain p d) ≤ length d
  unfolding retain
  length-retain-le p [] = omega arith
  length-retain-le p ((j, v) ∷ d) = ground (arith, length-retain-le p d)

  -- Deleting a key that is there makes room for one entry.
  pub length-remove-lt :
      (d : Dict V) (k : Text) (v : V) → get d k ≡ some v → length (remove d k) + 1 ≤ length d
  unfolding get remove
  length-remove-lt [] k v h = cc
  length-remove-lt ((j, w) ∷ d) k v h = ground (arith, length-remove-lt d k v, length-remove-le d k)

  -- An entry that the test passes stays.
  pub get-retain-kept :
      (p : Text → V → Bool) (d : Dict V) (k : Text) (v : V)
      → get d k ≡ some v
      → p k v ≡ true
      → get (retain p d) k ≡ some v
  unfolding get retain
  get-retain-kept p [] k v h kept = absurd (ground (arith, h))
  get-retain-kept p ((j, w) ∷ d) k v h kept =
      ground (arith, h, kept, text_eq_iff j k, get-retain-kept p d k v)

  -- Every value of the dict has the property.
  abbrev pub AllValues {κ} : (V → Type κ) → Dict V → Type κ
  AllValues P [] = Unit
  AllValues P ((k, v) ∷ d) = P v × AllValues P d

module _ {ℓ κ} {V : Type ℓ} (P : V → Type κ) where
  pub get-AllValues : (d : Dict V) (k : Text) (v : V) → AllValues P d → get d k ≡ some v → P v
  unfolding get
  get-AllValues [] k v h e = absurd (ground (arith, e))
  get-AllValues ((j, w) ∷ d) k v h e = elim (Bool-cases (text_eq j k)) [
    | inl same ↦ let f : w ≡ v = ground (arith, e, same) in subst P f h.0
    | inr other ↦ get-AllValues d k v h.1 (rw other at e)
  ]

  pub put-AllValues :
      (d : Dict V) (k : Text) (v : V) → AllValues P d → P v → AllValues P (put d k v)
  unfolding put
  put-AllValues [] k v h new = (new, tt)
  put-AllValues ((j, w) ∷ d) k v h new = elim (Bool-cases (text_eq j k)) [
    | inl same ↦ rw same (new, h.1)
    | inr other ↦ rw other (h.0, put-AllValues d k v h.1 new)
  ]

  pub remove-AllValues : (d : Dict V) (k : Text) → AllValues P d → AllValues P (remove d k)
  unfolding remove
  remove-AllValues [] k h = tt
  remove-AllValues ((j, w) ∷ d) k h = elim (Bool-cases (text_eq j k)) [
    | inl same ↦ rw same (remove-AllValues d k h.1)
    | inr other ↦ rw other (h.0, remove-AllValues d k h.1)
  ]

  pub retain-AllValues :
      (p : Text → V → Bool) (d : Dict V) → AllValues P d → AllValues P (retain p d)
  unfolding retain
  retain-AllValues p [] h = tt
  retain-AllValues p ((j, w) ∷ d) h = elim (Bool-cases (p j w)) [
    | inl kept ↦ rw kept (h.0, retain-AllValues p d h.1)
    | inr gone ↦ rw gone (retain-AllValues p d h.1)
  ]

-- The second of two assignments to a key counts.
pub put-put {ℓ} : {V : Type ℓ} (d : Dict V) (k : Text) (v w : V) → put (put d k v) k w ≡ put d k w
unfolding put
put-put [] k v w = simp text_eq_refl refl
put-put ((j, u) ∷ d) k v w = elim (Bool-cases (text_eq j k)) [
  | inl same ↦ rw same (rw same refl)
  | inr other ↦ rw other (rw other (ap (λ l. (j, u) ∷ l) (put-put d k v w)))
]
