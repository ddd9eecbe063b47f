-- ===== src/Encoding/Base64/RoundTrip.antt =====
-- Decoding undoes encoding.
use pqcbridge_legacy_edge_cl.Base.{
  ℕ, ◌+◌, ◌*◌, ◌/◌, ◌%◌, ◌<◌, ◌≡◌, refl, some, [], ◌∷◌, arith, Bytes, AreBytes,
}
use pqcbridge_legacy_edge_cl.Encoding.Base64.{
  digit, b64encode, b64decode, padded_group, full_group, first_byte, second_byte, third_byte,
}
use pqcbridge_legacy_edge_cl.Encoding.Base64.Digits.{value-digit, digit-ne-pad}

first_byte_lem : (a b : ℕ) → b < 256 → first_byte (a / 4) (a % 4 * 16 + b / 16) ≡ a
unfolding first_byte
first_byte_lem a b h = omega arith

first_byte_alone : (a : ℕ) → first_byte (a / 4) (a % 4 * 16) ≡ a
unfolding first_byte
first_byte_alone a = omega arith

second_byte_lem :
    (a b c : ℕ) → b < 256 → c < 256 → second_byte (a % 4 * 16 + b / 16) (b % 16 * 4 + c / 64) ≡ b
unfolding second_byte
second_byte_lem a b c h k = omega arith

second_byte_alone : (a b : ℕ) → b < 256 → second_byte (a % 4 * 16 + b / 16) (b % 16 * 4) ≡ b
unfolding second_byte
second_byte_alone a b h = omega arith

third_byte_lem : (b c : ℕ) → c < 256 → third_byte (b % 16 * 4 + c / 64) (c % 64) ≡ c
unfolding third_byte
third_byte_lem b c h = omega arith

one_byte :
    (a : ℕ) → a < 256 → padded_group (digit (a / 4)) (digit (a % 4 * 16)) b'=' ≡ some (a ∷ [])
unfolding padded_group
one_byte a h = ground (arith, value-digit (a / 4), value-digit (a % 4 * 16), first_byte_alone a)

two_bytes :
    (a b : ℕ)
    → a < 256
    → b < 256
    → padded_group (digit (a / 4)) (digit (a % 4 * 16 + b / 16)) (digit (b % 16 * 4))
      ≡ some (a ∷ b ∷ [])
unfolding padded_group
two_bytes a b h k = ground (
  arith,
  value-digit (a / 4),
  value-digit (a % 4 * 16 + b / 16),
  value-digit (b % 16 * 4),
  digit-ne-pad (b % 16 * 4),
  first_byte_lem a b,
  second_byte_alone a b,
)

three_bytes :
    (a b c : ℕ) (rest : Bytes)
    → a < 256
    → b < 256
    → c < 256
    → full_group
        (digit (a / 4))
        (digit (a % 4 * 16 + b / 16))
        (digit (b % 16 * 4 + c / 64))
        (digit (c % 64))
        (some rest)
      ≡ some (a ∷ b ∷ c ∷ rest)
unfolding full_group
three_bytes a b c rest h k l = ground (
  arith,
  value-digit (a / 4),
  value-digit (a % 4 * 16 + b / 16),
  value-digit (b % 16 * 4 + c / 64),
  value-digit (c % 64),
  first_byte_lem a b,
  second_byte_lem a b c,
  third_byte_lem b c,
)

-- Decoding the text that a list of bytes was encoded as gives the bytes back.
pub b64decode-b64encode : (bs : Bytes) → AreBytes bs → b64decode (b64encode bs) ≡ some bs
unfolding b64encode b64decode
b64decode-b64encode [] h = refl
b64decode-b64encode (a ∷ []) h = one_byte a h.0
b64decode-b64encode (a ∷ b ∷ []) h = two_bytes a b h.0 h.1.0
b64decode-b64encode (a ∷ b ∷ c ∷ rest) h =
    rw (digit-ne-pad (c % 64) (omega arith), b64decode-b64encode rest h.1.1.1)
      (three_bytes a b c rest h.0 h.1.0 h.1.1.0)
