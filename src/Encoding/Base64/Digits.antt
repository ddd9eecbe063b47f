-- ===== src/Encoding/Base64/Digits.antt =====
-- The alphabet of base64: a value's character has that value, and is no padding.
use pqcbridge_legacy_edge_cl.Base.{ℕ, ◌<◌, ◌≡◌, false, some, arith, ◌==◌, Eq_nat}
use pqcbridge_legacy_edge_cl.Encoding.Base64.{digit, value}

pub value-digit : (n : ℕ) → n < 64 → value (digit n) ≡ some n
unfolding digit value
value-digit n h = ground arith

pub digit-ne-pad : (n : ℕ) → n < 64 → (digit n == b'=') ≡ false
unfolding digit
digit-ne-pad n h = ground arith
