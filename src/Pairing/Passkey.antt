-- ===== src/Pairing/Passkey.antt =====
-- The passkey of `_set_new_secret`: eight decimal digits that spell the number drawn.
use nomothetic.Base.{
  ℕ, zero, suc, ◌+◌, ◌-◌, ◌*◌, ◌/◌, ◌%◌, ◌^◌, ◌<◌, ◌≡◌, refl, Bool, true, not, ◌&&◌, [], ◌∷◌, ◌++◌,
  length, length-append, all, arith, leb,
}
use nomothetic.Base.Text.{Text, strip, strip_lem, is_space, is_space_ascii, all-weaken}
use nomothetic.Pairing.{zero_padded, new_passkey, pairing_secret_digits}

abbrev pub is_decimal : ℕ → Bool
is_decimal c = leb b'0' c && leb c b'9'

-- The number that the digits spell, after the digits of `n`.
abbrev pub decimal : ℕ → Text → ℕ
decimal n [] = n
decimal n (c ∷ s) = decimal (n * 10 + (c - b'0')) s

decimal-append :
    (n : ℕ) (s : Text) (c : ℕ) → decimal n (s ++ c ∷ []) ≡ decimal n s * 10 + (c - b'0')
decimal-append n [] c = refl
decimal-append n (d ∷ s) c = decimal-append (n * 10 + (d - b'0')) s c

all-append : (p : ℕ → Bool) (s t : Text) → all p s ≡ true → all p t ≡ true → all p (s ++ t) ≡ true
all-append p [] t hs ht = ht
all-append p (c ∷ s) t hs ht = ground (arith, all-append p s t, hs, ht)

length-zero_padded : (width n : ℕ) → length (zero_padded width n) ≡ width
unfolding zero_padded
length-zero_padded zero n = refl
length-zero_padded (suc width) n = omega (
  arith,
  length-append (zero_padded width (n / 10)) ((b'0' + n % 10) ∷ []),
  length-zero_padded width (n / 10),
)

zero_padded_decimal : (width n : ℕ) → all is_decimal (zero_padded width n) ≡ true
unfolding zero_padded
zero_padded_decimal zero n = refl
zero_padded_decimal (suc width) n =
    all-append is_decimal (zero_padded width (n / 10)) ((b'0' + n % 10) ∷ [])
      (zero_padded_decimal width (n / 10)) (ground arith)

decimal-zero_padded : (width n : ℕ) → n < 10 ^ width → decimal 0 (zero_padded width n) ≡ n
unfolding zero_padded
decimal-zero_padded zero n h = omega arith
decimal-zero_padded (suc width) n h =
    rw (decimal-append 0 (zero_padded width (n / 10)) (b'0' + n % 10))
      (omega (arith, decimal-zero_padded width (n / 10) (omega arith)))

-- Below 10 ^ 8 no remainder is lost.
draw_small : (draw : ℕ) → draw % 10 ^ pairing_secret_digits < 10 ^ pairing_secret_digits
draw_small draw = omega arith

-- For every draw the passkey has eight characters, all of them decimal digits, and they spell the number that was drawn, modulo 10 ^ 8.
pub new_passkey-decimal :
    (draw : ℕ)
    → (length (new_passkey draw) ≡ 8)
      × (all is_decimal (new_passkey draw) ≡ true)
      × (decimal 0 (new_passkey draw) ≡ draw % 10 ^ 8)
unfolding new_passkey
new_passkey-decimal draw = (
  length-zero_padded 8 (draw % 10 ^ 8),
  zero_padded_decimal 8 (draw % 10 ^ 8),
  decimal-zero_padded 8 (draw % 10 ^ 8) (draw_small draw),
)

pub strip-new_passkey : (draw : ℕ) → strip (new_passkey draw) ≡ new_passkey draw
strip-new_passkey draw = strip_lem (new_passkey draw) (
    all-weaken is_decimal (λ c. not (is_space c)) (new_passkey draw)
      (λ c h. ground (arith, is_space_ascii c, h)) (new_passkey-decimal draw).1)
