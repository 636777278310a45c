-- ===== src/Crypto/Bytes.antt =====
-- Buffers and hexadecimal text: packages/crypto/src/lib/utils.ts and
-- packages/frontend/src/app/processing/utils/buffer.ts. A buffer is the list of its bytes, a
-- walked text the list of its character codes; JavaScript numbers here are natural numbers.
pub mod RoundTrip
pub mod Numbers
pub mod Digits
use file_market.Base.{
  ℕ, zero, suc, ◌+◌, ◌-◌, ◌*◌, ◌/◌, ◌%◌, ◌<◌, Bool, true, false, ◌&&◌, Option, none, some, List, [],
  ◌∷◌, ltb, leb, ◌==◌, if◌then◌else◌, length, All,
}

abbrev pub Bytes : Type 0
Bytes = List ℕ

abbrev pub Text : Type 0
Text = List ℕ

-- The elements of a buffer are bytes.
abbrev pub IsBytes : Bytes → Type 0
IsBytes = All (λ b. b < 256)

-- One lower-case hexadecimal digit, and the value of a digit of either case.
abbrev pub hex_digit : ℕ → ℕ
hex_digit n = if ltb n 10 then n + 48 else n + 87

abbrev pub hex_value : ℕ → Option ℕ
hex_value c =
    if leb b'0' c && leb c b'9'
    then some (c - 48)
    else if leb b'a' c && leb c b'f'
    then some (c - 87)
    else if leb b'A' c && leb c b'F'
    then some (c - 55)
    else none

-- `Buffer.toString('hex')`
unfoldable pub to_hex : Bytes → Text
to_hex [] = []
to_hex (b ∷ bs) = hex_digit (b / 16) ∷ hex_digit (b % 16) ∷ to_hex bs

-- `Buffer.from(text, 'hex')` stops at the first pair that is no byte and drops an odd last digit.
pub from_hex : Text → Bytes
from_hex [] = []
from_hex (a ∷ []) = []
from_hex (a ∷ b ∷ cs) = elim (hex_value a) [
  | none ↦ []
  | some x ↦ elim (hex_value b) [ none ↦ [] | some y ↦ (x * 16 + y) ∷ from_hex cs ]
]

-- `Number.prototype.toString(16)`, from the last digit; the fuel is more than the number.
pub hex_digits_from : ℕ → ℕ → Text → Text
hex_digits_from zero n acc = acc
hex_digits_from (suc f) n acc =
    let rest = hex_digits_from f (n / 16) (hex_digit (n % 16) ∷ acc) in
    if ltb n 16 then hex_digit n ∷ acc else rest

pub number_to_hex : ℕ → Text
unfolding hex_digits_from
number_to_hex n = hex_digits_from (suc n) n []

-- `'0' + numberHex` if the number of digits is odd
abbrev pub pad_even : Text → Text
pad_even s = if (length s % 2) == 0 then s else b'0' ∷ s

-- `===` of two walked texts
abbrev pub text_eq : Text → Text → Bool
text_eq [] [] = true
text_eq [] (b ∷ bs) = false
text_eq (a ∷ as') [] = false
text_eq (a ∷ as') (b ∷ bs) = a == b && text_eq as' bs

unfoldable pub number_to_buffer : ℕ → Bytes
unfolding number_to_hex from_hex
number_to_buffer n = from_hex (pad_even (number_to_hex n))

unfoldable pub buffer_to_hex : Bytes → Text
unfolding to_hex
buffer_to_hex = to_hex

-- `stringToBuffer` writes each character code into a `Uint8Array`, which keeps its low byte.
unfoldable pub string_to_buffer : Text → Bytes
string_to_buffer [] = []
string_to_buffer (c ∷ cs) = (c % 256) ∷ string_to_buffer cs

-- the prefix `0x` is cut off if it is there
abbrev pub strip_0x : Text → Text
strip_0x [] = []
strip_0x (a ∷ []) = a ∷ []
strip_0x (a ∷ b ∷ cs) = if a == b'0' && b == b'x' then cs else a ∷ b ∷ cs

unfoldable pub hex_to_buffer : Text → Bytes
unfolding from_hex
hex_to_buffer s = from_hex (strip_0x s)

unfoldable pub buffer_to_ether_hex : Bytes → Text
unfolding buffer_to_hex
buffer_to_ether_hex bs = b'0' ∷ b'x' ∷ buffer_to_hex bs
