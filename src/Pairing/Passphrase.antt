-- ===== src/Pairing/Passphrase.antt =====
-- The Soft AP passphrase: what is drawn is a passphrase that WPA2 takes.
use nomothetic.Base.{
  ℕ, zero, suc, ◌%◌, ◌<◌, ◌≡◌, refl, Bool, true, not, ◌&&◌, [], ◌∷◌, length, all, arith, leb,
}
use nomothetic.Base.Text.{Text, strip, strip_lem, is_space, is_space_ascii, all-weaken}
use nomothetic.Pairing.{
  nth, choice, choices, new_ap_passphrase, ap_passphrase_alphabet, is_valid_ap_passphrase,
}

abbrev pub is_visible : ℕ → Bool
is_visible c = leb 33 c && leb c 126

nth-all : (p : ℕ → Bool) (s : Text) (i : ℕ) → all p s ≡ true → i < length s → p (nth s i) ≡ true
unfolding nth
nth-all p [] i h lt = absurd (omega (arith, lt))
nth-all p (c ∷ s) zero h lt = ground (arith, h)
nth-all p (c ∷ s) (suc i) h lt = nth-all p s i (ground (arith, h)) (omega (arith, lt))

alphabet_visible : all is_visible ap_passphrase_alphabet ≡ true
alphabet_visible = refl

length-alphabet : length ap_passphrase_alphabet ≡ 55
length-alphabet = refl

choice_visible : (draw : ℕ) → is_visible (choice ap_passphrase_alphabet draw) ≡ true
unfolding choice
choice_visible draw =
    nth-all is_visible ap_passphrase_alphabet (draw % length ap_passphrase_alphabet)
      alphabet_visible (omega arith)

choices_visible : (n : ℕ) (draws : ℕ → ℕ) → all is_visible (choices n draws) ≡ true
unfolding choices
choices_visible zero draws = refl
choices_visible (suc n) draws = ground (arith, choice_visible (draws n), choices_visible n draws)

length-choices : (n : ℕ) (draws : ℕ → ℕ) → length (choices n draws) ≡ n
unfolding choices
length-choices zero draws = refl
length-choices (suc n) draws = omega (arith, length-choices n draws)

twenty_valid :
    (s : Text)
    → length s ≡ 20
    → all (λ c. leb 32 c && leb c 126) s ≡ true
    → is_valid_ap_passphrase s ≡ true
unfolding is_valid_ap_passphrase
twenty_valid s size printable = ground (arith, size, printable)

-- Whatever is drawn, the new passphrase has twenty characters, is one that
-- `is_valid_ap_passphrase` accepts, and is not changed by `str.strip`.
pub new_ap_passphrase_valid :
    (draws : ℕ → ℕ)
    → (length (new_ap_passphrase draws) ≡ 20)
      × (is_valid_ap_passphrase (new_ap_passphrase draws) ≡ true)
      × (strip (new_ap_passphrase draws) ≡ new_ap_passphrase draws)
unfolding new_ap_passphrase is_valid_ap_passphrase
new_ap_passphrase_valid draws =
    let visible = choices_visible 20 draws in
    let size = length-choices 20 draws in
    let printable =
      all-weaken is_visible (λ c. leb 32 c && leb c 126) (choices 20 draws)
        (λ c h. ground (arith, h)) visible in
    (
      size,
      twenty_valid (choices 20 draws) size printable,
      strip_lem (choices 20 draws) (
          all-weaken is_visible (λ c. not (is_space c)) (choices 20 draws)
            (λ c h. ground (arith, is_space_ascii c, h)) visible),
    )
