-- ===== src/Encoding/Hex.antt =====
-- `bytes.fromhex`, with the ASCII white space that it skips between bytes, and `bytes.hex`.
use pqcbridge_legacy_edge_cl.Base.{
  ℕ, ◌+◌, ◌-◌, ◌*◌, ◌/◌, ◌%◌, ◌<◌, ◌≡◌, refl, Bool, false, ◌&&◌, ◌||◌, Option, none, some, [], ◌∷◌,
  arith, leb, ltb, if◌then◌else◌, ◌==◌, Eq_nat, Bytes, Text, AreBytes,
}

unfoldable pub hex_digit : ℕ → ℕ
hex_digit n = if ltb n 10 then n + b'0' else n - 10 + b'a'

unfoldable pub hex_value : ℕ → Option ℕ
hex_value c =
    if leb b'0' c && leb c b'9'
    then some (c - b'0')
    else if leb b'a' c && leb c b'f'
    then some (c - b'a' + 10)
    else if leb b'A' c && leb c b'F'
    then some (c - b'A' + 10)
    else none

abbrev is_space : ℕ → Bool
is_space c = (leb 9 c && leb c 13) || c == 32

-- The byte of two digits, before the bytes of the rest.
pair_byte : Option ℕ → Option ℕ → Option Bytes → Option Bytes
pair_byte (some x) (some y) (some bytes) = some ((x * 16 + y) ∷ bytes)
pair_byte _ _ _ = none

unfoldable pub from_hex : Text → Option Bytes
unfolding hex_value pair_byte
from_hex [] = some []
from_hex (c ∷ []) = if is_space c then some [] else none
from_hex (c ∷ d ∷ rest) =
    let skipped = from_hex (d ∷ rest) in
    let bytes = from_hex rest in
    if is_space c then skipped else pair_byte (hex_value c) (hex_value d) bytes

unfoldable pub hex : Bytes → Text
unfolding hex_digit
hex [] = []
hex (b ∷ bs) = hex_digit (b / 16) ∷ hex_digit (b % 16) ∷ hex bs

pub hex_value-hex_digit : (n : ℕ) → n < 16 → hex_value (hex_digit n) ≡ some n
unfolding hex_value hex_digit
hex_value-hex_digit n h = ground arith

digit_is_no_space : (n : ℕ) → n < 16 → is_space (hex_digit n) ≡ false
unfolding hex_digit
digit_is_no_space n h = ground arith

byte_of_halves : (b : ℕ) → b / 16 * 16 + b % 16 ≡ b
byte_of_halves b = omega arith

-- Reading the hexadecimal text of a list of bytes gives the bytes back.
pub from_hex-hex : (bs : Bytes) → AreBytes bs → from_hex (hex bs) ≡ some bs
unfolding hex from_hex
from_hex-hex [] h = refl
from_hex-hex (b ∷ bs) h = ground (
  arith,
  digit_is_no_space (b / 16),
  from_hex-hex bs h.1,
  hex_value-hex_digit (b / 16),
  hex_value-hex_digit (b % 16),
  byte_of_halves b,
)
