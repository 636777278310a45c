-- ===== src/Crypto/Bytes/RoundTrip.antt =====
-- Hexadecimal text decodes to the buffer it was printed from.
use file_market.Base.{ℕ, ◌/◌, ◌%◌, ◌<◌, ◌≡◌, refl, ap, ◌∙◌, ◌≢◌, ◌↔◌, true, some, [], ◌∷◌, arith}
use file_market.Crypto.Bytes.{
  Bytes, Text, IsBytes, text_eq, hex_digit, hex_value, to_hex, from_hex, buffer_to_hex, strip_0x,
  hex_to_buffer, buffer_to_ether_hex,
}

-- The digit that is printed is read back.
pub hex_value-hex_digit : (n : ℕ) → n < 16 → hex_value (hex_digit n) ≡ some n
hex_value-hex_digit n h = ground arith

from_hex-cons :
    (b : ℕ) (cs : Text)
    → b < 256
    → from_hex (hex_digit (b / 16) ∷ hex_digit (b % 16) ∷ cs) ≡ b ∷ from_hex cs
unfolding from_hex
from_hex-cons b cs h =
    ground (
      arith,
      hex_value-hex_digit (b / 16) (omega arith),
      hex_value-hex_digit (b % 16) (omega arith),
    )

pub from_hex-to_hex : (bs : Bytes) → IsBytes bs → from_hex (to_hex bs) ≡ bs
unfolding to_hex
from_hex-to_hex [] h = unfold from_hex in refl
from_hex-to_hex (b ∷ bs) h =
    from_hex-cons b (to_hex bs) h.0 ∙ ap (λ r. b ∷ r) (from_hex-to_hex bs h.1)

-- A printed text never begins with `0x`: no digit is an `x`.
hex_digit-ne-x : (n : ℕ) → n < 16 → hex_digit n ≢ b'x'
hex_digit-ne-x n h = ground arith

strip_0x-to_hex : (bs : Bytes) → IsBytes bs → strip_0x (to_hex bs) ≡ to_hex bs
unfolding to_hex
strip_0x-to_hex [] h = refl
strip_0x-to_hex (b ∷ bs) h = ground (arith, hex_digit-ne-x (b % 16) (omega arith))

-- Reading a buffer's text back gives the buffer, with the `0x` prefix and without it.
pub hex_to_buffer-inverts :
    (bs : Bytes)
    → IsBytes bs
    → (hex_to_buffer (buffer_to_ether_hex bs) ≡ bs) × (hex_to_buffer (buffer_to_hex bs) ≡ bs)
unfolding hex_to_buffer buffer_to_ether_hex buffer_to_hex
hex_to_buffer-inverts bs h =
    (from_hex-to_hex bs h, ap from_hex (strip_0x-to_hex bs h) ∙ from_hex-to_hex bs h)

pub text_eq_iff : (s t : Text) → (text_eq s t ≡ true) ↔ (s ≡ t)
text_eq_iff [] [] = (λ _. refl, λ _. refl)
text_eq_iff [] (b ∷ t) = (λ e. cc, λ e. cc)
text_eq_iff (a ∷ s) [] = (λ e. cc, λ e. cc)
text_eq_iff (a ∷ s) (b ∷ t) =
    let (to, from) = text_eq_iff s t in (λ e. ground (arith, to), λ e. ground (arith, from))
