-- ===== src/Encoding/Decimal.antt =====
-- `str(n)` and the digits that `int(text)` and JSON read.
pub mod Digits
use pqcbridge_legacy_edge_cl.Base.{
  ℕ, zero, suc, ◌+◌, ◌-◌, ◌*◌, ◌/◌, ◌%◌, Bool, ◌&&◌, [], ◌∷◌, leb, ltb, if◌then◌else◌, Text, ℤ, pos,
  negsuc,
}

-- The digits of `n`, the last one first. The fuel is `n + 1`, which is more than the rounds.
unfoldable pub low_digits : ℕ → ℕ → Text
low_digits zero n = []
low_digits (suc f) n =
    let rest = low_digits f (n / 10) in (n % 10 + b'0') ∷ (if ltb n 10 then [] else rest)

unfoldable pub reversed_onto : Text → Text → Text
reversed_onto [] out = out
reversed_onto (c ∷ s) out = reversed_onto s (c ∷ out)

unfoldable pub show_nat : ℕ → Text
unfolding low_digits reversed_onto
show_nat n = reversed_onto (low_digits (suc n) n) []

unfoldable pub show_int : ℤ → Text
unfolding show_nat
show_int (pos n) = show_nat n
show_int (negsuc n) = b'-' ∷ show_nat (suc n)

abbrev pub is_digit : ℕ → Bool
is_digit c = leb b'0' c && leb c b'9'

-- The value of a run of digits after a prefix of value `acc`, and what follows the run.
unfoldable pub read_digits : ℕ → Text → ℕ × Text
read_digits acc [] = (acc, [])
read_digits acc (c ∷ s) =
    let more = read_digits (acc * 10 + (c - b'0')) s in if is_digit c then more else (acc, c ∷ s)
