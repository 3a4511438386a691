-- ===== src/Base/Text.antt =====
-- Python's `str` as the list of its code points, and the methods that the program calls on it.
use Prim.Native.Char.{code}
use mathlib.Core.Bool.{false≢true}
use nomothetic.Base.{
  ◌≢◌, sym, ◌∙◌, ℕ, all, not, ◌+◌, String, ◌≡◌, refl, ◌↔◌, Bool, true, false, ◌&&◌, ◌||◌, List, [],
  ◌∷◌, ◌++◌, map, arith, leb, ◌==◌, if◌then◌else◌,
}

abbrev pub Text : Type 0
Text = List ℕ

-- A literal.
abbrev pub text : String → Text
text String.[] = []
text (String.◌∷◌ c s) = code c ∷ text s

-- `s == t`
unfoldable pub text_eq : Text → Text → Bool
text_eq [] [] = true
text_eq (a ∷ s) (b ∷ t) = a == b && text_eq s t
text_eq _ _ = false

pub text_eq_iff : (s t : Text) → (text_eq s t ≡ true) ↔ (s ≡ t)
unfolding text_eq
text_eq_iff [] [] = (λ h. refl, λ h. refl)
text_eq_iff [] (b ∷ t) = (λ h. cc, λ h. cc)
text_eq_iff (a ∷ s) [] = (λ h. cc, λ h. cc)
text_eq_iff (a ∷ s) (b ∷ t) =
    (λ h. ground (arith, text_eq_iff s t), λ h. ground (arith, text_eq_iff s t))

pub text_eq_refl : (s : Text) → text_eq s s ≡ true
text_eq_refl s = (text_eq_iff s s).1 refl

-- `s.startswith(prefix)`
unfoldable pub starts_with : Text → Text → Bool
starts_with s [] = true
starts_with [] (p ∷ prefix) = false
starts_with (c ∷ s) (p ∷ prefix) = c == p && starts_with s prefix

-- `str.lower` of ASCII text; a code point over 127 stays as it is. No other code point lowers to a
-- letter of the settings that are read with it.
unfoldable pub lower_char : ℕ → ℕ
lower_char c = if leb b'A' c && leb c b'Z' then c + 32 else c

unfoldable pub lower : Text → Text
unfolding lower_char
lower s = map lower_char s

-- What `str.strip` takes off: the code points for which `str.isspace` holds.
unfoldable pub is_space : ℕ → Bool
is_space c =
    leb 9 c && leb c 13
    || leb 28 c && leb c 32
    || c == 133
    || c == 160
    || c == 5760
    || leb 8192 c && leb c 8202
    || c == 8232
    || c == 8233
    || c == 8239
    || c == 8287
    || c == 12288

unfoldable pub strip_left : Text → Text
unfolding is_space
strip_left [] = []
strip_left (c ∷ s) = let rest = strip_left s in if is_space c then rest else c ∷ s

-- A space before nothing is dropped too.
drop_space : ℕ → Text → Text
unfolding is_space
drop_space c [] = if is_space c then [] else c ∷ []
drop_space c (d ∷ s) = c ∷ d ∷ s

unfoldable pub strip_right : Text → Text
unfolding drop_space
strip_right [] = []
strip_right (c ∷ s) = drop_space c (strip_right s)

unfoldable pub strip : Text → Text
unfolding strip_left strip_right
strip s = strip_right (strip_left s)

-- `s.split(c)[0]`
unfoldable pub before : ℕ → Text → Text
before c [] = []
before c (d ∷ s) = let rest = d ∷ before c s in if d == c then [] else rest

-- `s.startswith(prefix)` says that the prefix is followed by some rest.
pub starts_with-append : (prefix rest : Text) → starts_with (prefix ++ rest) prefix ≡ true
unfolding starts_with
starts_with-append [] [] = refl
starts_with-append [] (c ∷ rest) = refl
starts_with-append (c ∷ prefix) rest = rw (starts_with-append prefix rest) (ground arith)

pub starts_with-eq_true :
    (s prefix : Text) → starts_with s prefix ≡ true → (rest : Text) × (s ≡ prefix ++ rest)
unfolding starts_with
starts_with-eq_true s [] h = (s, refl)
starts_with-eq_true [] (p ∷ prefix) h = absurd (false≢true h)
starts_with-eq_true (c ∷ s) (p ∷ prefix) h =
    let (rest, e) = starts_with-eq_true s prefix (ground arith) in (rest, ground (arith, e))

pub text_ne : (s t : Text) → text_eq s t ≡ false → s ≢ t
text_ne s t h e = false≢true (sym h ∙ (text_eq_iff s t).1 e)

-- A text with no space is its own stripped form.
pub strip_left_lem : (s : Text) → all (λ c. not (is_space c)) s ≡ true → strip_left s ≡ s
unfolding strip_left
strip_left_lem [] h = refl
strip_left_lem (c ∷ s) h = ground (arith, h)

pub strip_right_lem : (s : Text) → all (λ c. not (is_space c)) s ≡ true → strip_right s ≡ s
unfolding strip_right drop_space
strip_right_lem [] h = refl
strip_right_lem (c ∷ []) h = ground (arith, h)
strip_right_lem (c ∷ d ∷ s) h = rw (strip_right_lem (d ∷ s) (ground (arith, h))) refl

pub strip_lem : (s : Text) → all (λ c. not (is_space c)) s ≡ true → strip s ≡ s
unfolding strip
strip_lem s h = rw (strip_left_lem s h) (strip_right_lem s h)

-- No space has a code point from 33 to 126.
pub is_space_ascii : (c : ℕ) → leb 33 c && leb c 126 ≡ true → is_space c ≡ false
unfolding is_space
is_space_ascii c h = ground (arith, h)

pub all-weaken :
    (p q : ℕ → Bool) (s : Text)
    → ((c : ℕ) → p c ≡ true → q c ≡ true)
    → all p s ≡ true
    → all q s ≡ true
all-weaken p q [] imp h = refl
all-weaken p q (c ∷ s) imp h = ground (arith, imp c, all-weaken p q s imp, h)
