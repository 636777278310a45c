-- ===== src/Crypto/Bytes/Numbers.antt =====
-- The bytes of a number: they are its base 256 digits, and each number has bytes of its own.
use file_market.Base.{
  ℕ, zero, suc, ◌+◌, ◌*◌, ◌/◌, ◌%◌, ◌<◌, ◌≡◌, refl, sym, ap, ◌∙◌, inl, inr, Option, some, [], ◌∷◌,
  arith, ltb, ◌==◌, Bool-cases, or_else, length, All,
}
use file_market.Crypto.Bytes.{
  Bytes, Text, IsBytes, hex_digit, hex_value, from_hex, hex_digits_from, number_to_hex, pad_even,
  number_to_buffer,
}
use file_market.Crypto.Bytes.RoundTrip.{hex_value-hex_digit}

-- The number that a text of digits, or a buffer, spells after `acc`.
pub hex_number : ℕ → Text → ℕ
hex_number acc [] = acc
hex_number acc (c ∷ cs) = hex_number (acc * 16 + or_else (hex_value c) 0) cs

pub be_number : ℕ → Bytes → ℕ
be_number acc [] = acc
be_number acc (b ∷ bs) = be_number (acc * 256 + b) bs

abbrev pub IsHex : Text → Type 0
IsHex = All (λ c. (v : ℕ) × (hex_value c ≡ some v) × (v < 16))

hex_digit-IsHex : (n : ℕ) → n < 16 → (v : ℕ) × (hex_value (hex_digit n) ≡ some v) × (v < 16)
hex_digit-IsHex n h = (n, hex_value-hex_digit n h, h)

pub digits-IsHex : (f n : ℕ) (acc : Text) → IsHex acc → IsHex (hex_digits_from f n acc)
unfolding hex_digits_from
digits-IsHex zero n acc h = h
digits-IsHex (suc f) n acc h = elim (Bool-cases (ltb n 16)) [
  | inl small ↦ rw small (hex_digit-IsHex n (ground arith), h)
  | inr large ↦ rw large (
      digits-IsHex f (n / 16) (hex_digit (n % 16) ∷ acc)
        (hex_digit-IsHex (n % 16) (omega arith), h))
]

hex_number-cons :
    (acc d : ℕ) (s : Text) → d < 16 → hex_number acc (hex_digit d ∷ s) ≡ hex_number (acc * 16 + d) s
unfolding hex_number
hex_number-cons acc d s h =
    ap (λ (o : Option ℕ). hex_number (acc * 16 + or_else o 0) s) (hex_value-hex_digit d h)

hex_number-digits :
    (f n : ℕ) (acc : Text) → n < f → hex_number 0 (hex_digits_from f n acc) ≡ hex_number n acc
unfolding hex_digits_from
hex_number-digits zero n acc h = absurd (omega arith)
hex_number-digits (suc f) n acc h = elim (Bool-cases (ltb n 16)) [
  | inl small ↦
      rw small (hex_number-cons 0 n acc (ground arith) ∙ ap (λ k. hex_number k acc) (omega arith))
  | inr large ↦ rw large (
      hex_number-digits f (n / 16) (hex_digit (n % 16) ∷ acc) (ground arith)
      ∙ hex_number-cons (n / 16) (n % 16) acc (omega arith)
      ∙ ap (λ k. hex_number k acc) (omega arith))
]

pub from_hex-pair :
    (a b x y : ℕ) (s : Text)
    → hex_value a ≡ some x
    → hex_value b ≡ some y
    → from_hex (a ∷ b ∷ s) ≡ (x * 16 + y) ∷ from_hex s
unfolding from_hex
from_hex-pair a b x y s p q = rw (p, from_hex) (rw q)

hex_number-pair :
    (acc a b x y : ℕ) (s : Text)
    → hex_value a ≡ some x
    → hex_value b ≡ some y
    → hex_number acc (a ∷ b ∷ s) ≡ hex_number ((acc * 16 + x) * 16 + y) s
unfolding hex_number
hex_number-pair acc a b x y s p q =
    ap (λ (o : Option ℕ). hex_number ((acc * 16 + or_else o 0) * 16 + or_else (hex_value b) 0) s) p
    ∙ ap (λ (o : Option ℕ). hex_number ((acc * 16 + x) * 16 + or_else o 0) s) q

-- Two digits make one byte.
be_number-from_hex :
    (acc : ℕ) (s : Text)
    → IsHex s
    → length s % 2 ≡ 0
    → be_number acc (from_hex s) ≡ hex_number acc s
unfolding be_number
be_number-from_hex acc [] h e = unfold be_number hex_number from_hex in refl
be_number-from_hex acc (a ∷ []) h e = absurd (omega arith)
be_number-from_hex acc (a ∷ b ∷ s) ((x, ex, lx), ((y, ey, ly), h)) e =
    ap (be_number acc) (from_hex-pair a b x y s ex ey)
    ∙ ap (λ k. be_number k (from_hex s)) (omega arith)
    ∙ be_number-from_hex ((acc * 16 + x) * 16 + y) s h (omega arith)
    ∙ sym (hex_number-pair acc a b x y s ex ey)

from_hex-IsBytes : (s : Text) → IsHex s → IsBytes (from_hex s)
from_hex-IsBytes [] h = unfold from_hex in tt
from_hex-IsBytes (a ∷ []) h = unfold from_hex in tt
from_hex-IsBytes (a ∷ b ∷ s) ((x, ex, lx), ((y, ey, ly), h)) =
    rw (from_hex-pair a b x y s ex ey) (omega arith, from_hex-IsBytes s h)

pub pad_even-IsHex : (s : Text) → IsHex s → IsHex (pad_even s)
pad_even-IsHex s h = elim (Bool-cases ((length s % 2) == 0)) [
  | inl e ↦ rw e h
  | inr o ↦ rw o ((0, refl, omega arith), h)
]

pub pad_even-even : (s : Text) → length (pad_even s) % 2 ≡ 0
pad_even-even s = ground arith

hex_number-pad_even : (s : Text) → hex_number 0 (pad_even s) ≡ hex_number 0 s
unfolding hex_number
hex_number-pad_even s = ground arith

-- `numberToBuffer` writes bytes, and read from the most significant one on they spell the number.
number_to_buffer-spells :
    (n : ℕ) → IsBytes (number_to_buffer n) × (be_number 0 (number_to_buffer n) ≡ n)
unfolding number_to_buffer number_to_hex
number_to_buffer-spells n =
    let s = hex_digits_from (suc n) n [] in
    let hs : IsHex s = digits-IsHex (suc n) n [] tt in
    (
      from_hex-IsBytes (pad_even s) (pad_even-IsHex s hs),
      be_number-from_hex 0 (pad_even s) (pad_even-IsHex s hs) (pad_even-even s)
          ∙ hex_number-pad_even s
          ∙ hex_number-digits (suc n) n [] (omega arith)
          ∙ unfold hex_number in refl,
    )

pub number_to_buffer-injective : (m n : ℕ) → number_to_buffer m ≡ number_to_buffer n → m ≡ n
number_to_buffer-injective m n e =
    sym (number_to_buffer-spells m).1 ∙ ap (be_number 0) e ∙ (number_to_buffer-spells n).1
