-- ===== src/Crypto/Bytes/Digits.antt =====
-- A number's bytes one at a time: a byte is its own buffer, and a byte after a number is one more
-- byte at the end.
use file_market.Base.{
  ℕ, zero, suc, ◌+◌, ◌*◌, ◌/◌, ◌%◌, ◌≤◌, ◌<◌, ◌≡◌, refl, sym, ap, ◌∙◌, inl, inr, true, false, some,
  [], ◌∷◌, ◌++◌, arith, ltb, ◌==◌, Bool-cases, length, length-append,
}
use mathlib.Core.List.{append_assoc}
use file_market.Crypto.Bytes.{Text, hex_digit, hex_value, from_hex, number_to_hex, number_to_buffer}
use file_market.Crypto.Bytes.{pad_even, hex_digits_from}
use file_market.Crypto.Bytes.RoundTrip.{hex_value-hex_digit}
use file_market.Crypto.Bytes.Numbers.{
  IsHex, digits-IsHex, from_hex-pair, pad_even-IsHex, pad_even-even,
}

digits-acc : (f n : ℕ) (acc : Text) → hex_digits_from f n acc ≡ hex_digits_from f n [] ++ acc
unfolding hex_digits_from
digits-acc zero n acc = refl
digits-acc (suc f) n acc =
    let d = hex_digit (n % 16) in
    elim (Bool-cases (ltb n 16)) [
      | inl small ↦ rw small
      | inr large ↦ rw large (
          digits-acc f (n / 16) (d ∷ acc)
          ∙ sym (append_assoc (hex_digits_from f (n / 16) []) (d ∷ []) acc)
          ∙ ap (λ r. r ++ acc) (sym (digits-acc f (n / 16) (d ∷ []))))
    ]

digits-fuel :
    (f g n : ℕ) (acc : Text) → n < f → n < g → hex_digits_from f n acc ≡ hex_digits_from g n acc
unfolding hex_digits_from
digits-fuel zero g n acc h k = absurd (omega arith)
digits-fuel (suc f) zero n acc h k = absurd (omega arith)
digits-fuel (suc f) (suc g) n acc h k = elim (Bool-cases (ltb n 16)) [
  | inl small ↦ rw small
  | inr large ↦
      rw large (digits-fuel f g (n / 16) (hex_digit (n % 16) ∷ acc) (ground arith) (ground arith))
]

hex-small : (n : ℕ) → n < 16 → number_to_hex n ≡ hex_digit n ∷ []
unfolding number_to_hex
hex-small n h = ground arith

hex-large : (n : ℕ) → 16 ≤ n → number_to_hex n ≡ number_to_hex (n / 16) ++ hex_digit (n % 16) ∷ []
unfolding number_to_hex
hex-large n h =
    let large : ltb n 16 ≡ false = ground arith in
    let d = hex_digit (n % 16) in
    rw large (
      digits-fuel n (suc (n / 16)) (n / 16) (d ∷ []) (omega arith) (omega arith)
      ∙ digits-acc (suc (n / 16)) (n / 16) (d ∷ []))

-- A number below 256 is one byte.
pub number_to_buffer-byte : (n : ℕ) → n < 256 → number_to_buffer n ≡ n ∷ []
unfolding number_to_buffer
number_to_buffer-byte n h = elim (Bool-cases (ltb n 16)) [
  | inl small ↦
      let lt : n < 16 = ground arith in
      ap (λ s. from_hex (pad_even s)) (hex-small n lt)
      ∙ from_hex-pair b'0' (hex_digit n) 0 n [] refl (hex_value-hex_digit n lt)
      ∙ ap (λ k. k ∷ []) (omega arith)
  | inr large ↦
      let ge : 16 ≤ n = ground arith in
      let hi = n / 16 in
      let lo = n % 16 in
      ap (λ s. from_hex (pad_even s))
        (hex-large n ge ∙ ap (λ s. s ++ hex_digit lo ∷ []) (hex-small hi (omega arith)))
      ∙ from_hex-pair (hex_digit hi) (hex_digit lo) hi lo [] (hex_value-hex_digit hi (omega arith))
          (hex_value-hex_digit lo (omega arith))
      ∙ ap (λ k. k ∷ []) (omega arith)
]

hex-push :
    (m k : ℕ)
    → 0 < m
    → k < 256
    → number_to_hex (256 * m + k) ≡ number_to_hex m ++ hex_digit (k / 16) ∷ hex_digit (k % 16) ∷ []
hex-push m k h l =
    let n = 256 * m + k in
    let d = hex_digit (k / 16) in
    let e = hex_digit (k % 16) in
    hex-large n (omega arith)
    ∙ ap (λ s. s ++ hex_digit (n % 16) ∷ []) (hex-large (n / 16) (omega arith))
    ∙ append_assoc (number_to_hex (n / 16 / 16)) (hex_digit (n / 16 % 16) ∷ [])
        (hex_digit (n % 16) ∷ [])
    ∙ ap (λ j. number_to_hex j ++ hex_digit (n / 16 % 16) ∷ hex_digit (n % 16) ∷ []) (omega arith)
    ∙ ap (λ j. number_to_hex m ++ hex_digit j ∷ hex_digit (n % 16) ∷ []) (omega arith)
    ∙ ap (λ j. number_to_hex m ++ d ∷ hex_digit j ∷ []) (omega arith)

pad_even-push : (a b : ℕ) (s : Text) → pad_even (s ++ a ∷ b ∷ []) ≡ pad_even s ++ a ∷ b ∷ []
pad_even-push a b s =
    let len : length (s ++ a ∷ b ∷ []) ≡ length s + 2 = length-append s (a ∷ b ∷ []) in
    elim (Bool-cases ((length s % 2) == 0)) [
      | inl even ↦
          let e : ((length (s ++ a ∷ b ∷ []) % 2) == 0) ≡ true = rw len (ground arith) in
          rw (e, even) refl
      | inr odd ↦
          let e : ((length (s ++ a ∷ b ∷ []) % 2) == 0) ≡ false = rw len (ground arith) in
          rw (e, odd) refl
    ]

from_hex-push :
    (a b x y : ℕ) (s : Text)
    → IsHex s
    → length s % 2 ≡ 0
    → hex_value a ≡ some x
    → hex_value b ≡ some y
    → from_hex (s ++ a ∷ b ∷ []) ≡ from_hex s ++ (x * 16 + y) ∷ []
from_hex-push a b x y [] h e p q = from_hex-pair a b x y [] p q ∙ unfold from_hex in refl
from_hex-push a b x y (c ∷ []) h e p q = absurd (omega arith)
from_hex-push a b x y (c ∷ d ∷ s) ((u, eu, lu), ((v, ev, lv), h)) e p q =
    from_hex-pair c d u v (s ++ a ∷ b ∷ []) eu ev
    ∙ ap (λ r. (u * 16 + v) ∷ r) (from_hex-push a b x y s h (omega arith) p q)
    ∙ ap (λ r. r ++ (x * 16 + y) ∷ []) (sym (from_hex-pair c d u v s eu ev))

-- `256 * m + k` is written as `m` followed by the byte `k`.
pub number_to_buffer-push :
    (m k : ℕ) → 0 < m → k < 256 → number_to_buffer (256 * m + k) ≡ number_to_buffer m ++ k ∷ []
unfolding number_to_buffer
number_to_buffer-push m k h l =
    let s = number_to_hex m in
    let hs : IsHex s = unfold number_to_hex in digits-IsHex (suc m) m [] tt in
    ap (λ r. from_hex (pad_even r)) (hex-push m k h l)
    ∙ ap from_hex (pad_even-push (hex_digit (k / 16)) (hex_digit (k % 16)) s)
    ∙ from_hex-push (hex_digit (k / 16)) (hex_digit (k % 16)) (k / 16) (k % 16) (pad_even s)
        (pad_even-IsHex s hs) (pad_even-even s) (hex_value-hex_digit (k / 16) (omega arith))
        (hex_value-hex_digit (k % 16) (omega arith))
    ∙ ap (λ j. from_hex (pad_even s) ++ j ∷ []) (omega arith)
