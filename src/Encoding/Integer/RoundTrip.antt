-- ===== src/Encoding/Integer/RoundTrip.antt =====
-- What `str` shows of a natural number is what `int` reads.
use pqcbridge_legacy_edge_cl.Base.{
  ℕ, ◌<◌, ◌≤◌, ◌≡◌, refl, arith, true, false, ◌==◌, Eq_nat, ltb, some, [], ◌∷◌, all, length, Text,
  pos,
}
use pqcbridge_legacy_edge_cl.Encoding.Decimal.{show_nat, is_digit, read_digits}
use pqcbridge_legacy_edge_cl.Encoding.Decimal.Digits.{
  show_nat-digits, show_nat-nonempty, read-show_nat,
}
use pqcbridge_legacy_edge_cl.Encoding.Integer.{
  is_space, strip_left, strip_right, join_stripped, without_underscores, value_of, max_digits,
  parse_int, strip, int_of_text,
}

digit_parts :
    (c : ℕ) (s : Text) → all is_digit (c ∷ s) ≡ true → (is_digit c ≡ true) × (all is_digit s ≡ true)
digit_parts c s h = ground arith

digit_not_space : (c : ℕ) → is_digit c ≡ true → is_space c ≡ false
digit_not_space c h = ground arith

strip_left-digits : (s : Text) → all is_digit s ≡ true → strip_left s ≡ s
unfolding strip_left
strip_left-digits [] h = refl
strip_left-digits (c ∷ s) h = rw (digit_not_space c (digit_parts c s h).0)

joined : (c : ℕ) (s : Text) → is_digit c ≡ true → join_stripped c s ≡ c ∷ s
joined c [] h = rw (digit_not_space c h)
joined c (d ∷ s) h = refl

strip_right-digits : (s : Text) → all is_digit s ≡ true → strip_right s ≡ s
unfolding strip_right
strip_right-digits [] h = refl
strip_right-digits (c ∷ s) h =
    let (one, more) = digit_parts c s h in rw (strip_right-digits s more) (joined c s one)

without_underscores-digits :
    (c : ℕ) (s : Text) → all is_digit (c ∷ s) ≡ true → without_underscores (c ∷ s) ≡ some (c ∷ s)
unfolding without_underscores
without_underscores-digits c [] h = rw (digit_parts c [] h).0
without_underscores-digits c (d ∷ s) h =
    let (one, more) = digit_parts c (d ∷ s) h in
    let plain : (d == b'_') ≡ false = ground arith in
    rw (one, plain, without_underscores-digits d s more)

parse_int-digits :
    (s : Text) (n : ℕ)
    → all is_digit s ≡ true
    → 0 < length s
    → length s ≤ max_digits
    → read_digits 0 s ≡ (n, [])
    → parse_int s ≡ some (pos n)
unfolding parse_int value_of
parse_int-digits [] n h k m e = absurd (omega arith)
parse_int-digits (c ∷ s) n h k m e =
    let (one, more) = digit_parts c s h in
    let no_minus : (c == b'-') ≡ false = ground arith in
    let no_plus : (c == b'+') ≡ false = ground arith in
    let fits : ltb max_digits (length (c ∷ s)) ≡ false = ground arith in
    rw (no_minus, no_plus, without_underscores-digits c s h, value_of, fits, e)

pub int_of_text-show_nat :
    (n : ℕ) → length (show_nat n) ≤ max_digits → int_of_text (show_nat n) ≡ some (pos n)
unfolding int_of_text strip
int_of_text-show_nat n h =
    let digits = show_nat-digits n in
    rw (strip_left-digits (show_nat n) digits, strip_right-digits (show_nat n) digits)
      (parse_int-digits (show_nat n) n digits (show_nat-nonempty n) h (read-show_nat n))
