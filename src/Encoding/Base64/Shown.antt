-- ===== src/Encoding/Base64/Shown.antt =====
-- Base64 is ASCII without control characters, whatever the bytes.
use pqcbridge_legacy_edge_cl.Base.{
  ℕ, ◌+◌, ◌*◌, ◌/◌, ◌%◌, ◌≡◌, refl, arith, true, [], ◌∷◌, all, Eq_nat, Bytes,
}
use pqcbridge_legacy_edge_cl.Encoding.Utf8.Ascii.{is_shown}
use pqcbridge_legacy_edge_cl.Encoding.Base64.{digit, b64encode}

digit_shown : (n : ℕ) → is_shown (digit n) ≡ true
unfolding digit
digit_shown n = ground arith

pub b64encode_shown : (bs : Bytes) → all is_shown (b64encode bs) ≡ true
unfolding b64encode
b64encode_shown [] = refl
b64encode_shown (a ∷ []) = rw (digit_shown (a / 4), digit_shown (a % 4 * 16))
b64encode_shown (a ∷ b ∷ []) =
    rw (digit_shown (a / 4), digit_shown (a % 4 * 16 + b / 16), digit_shown (b % 16 * 4))
b64encode_shown (a ∷ b ∷ c ∷ rest) = rw (
  digit_shown (a / 4),
  digit_shown (a % 4 * 16 + b / 16),
  digit_shown (b % 16 * 4 + c / 64),
  digit_shown (c % 64),
  b64encode_shown rest,
)
