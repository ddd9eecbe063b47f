-- ===== src/Json/RoundTrip/Numbers.antt =====
-- The numbers that `json.dumps` writes are the numbers that `json.loads` reads.
use pqcbridge_legacy_edge_cl.Base.{
  ℕ, zero, suc, ◌<◌, ◌≤◌, ◌≡◌, refl, arith, Bool, true, false, not, ◌&&◌, ◌||◌, some, [], ◌∷◌, ◌++◌,
  append_assoc, append-nil, all, ltb, ◌==◌, Eq_nat, if◌then◌else◌, length, Text, codes, ℤ, pos,
  negsuc, Bool-cases, inl, inr,
}
use pqcbridge_legacy_edge_cl.Result.{Result, ok}
use pqcbridge_legacy_edge_cl.Encoding.Decimal.{show_nat, is_digit}
use pqcbridge_legacy_edge_cl.Encoding.Decimal.Digits.{
  show_nat-digits, show_nat-nonempty, show_nat-head, read-show_nat,
}
use pqcbridge_legacy_edge_cl.Json.{Json, null, bool, int, float}
use pqcbridge_legacy_edge_cl.Json.Loads.{
  digit_run, fraction, exponent, whole_part, number_of, scan_number, word, after_word, scan_atom,
}

-- What follows does not go on with the number.
unfoldable pub ends_number : Text → Bool
ends_number [] = true
ends_number (c ∷ s) = not (is_digit c) && not (c == b'.') && not (c == b'e') && not (c == b'E')

abbrev begins_digit : Text → Bool
begins_digit [] = false
begins_digit (c ∷ s) = is_digit c

ends_number-digit : (s : Text) → ends_number s ≡ true → begins_digit s ≡ false
unfolding ends_number
ends_number-digit [] h = refl
ends_number-digit (c ∷ s) h = ground arith

digit_run-stop : (s : Text) → begins_digit s ≡ false → digit_run s ≡ ([], s)
unfolding digit_run
digit_run-stop [] h = refl
digit_run-stop (c ∷ s) h = rw h

pub digit_run-digits :
    (digits s : Text)
    → all is_digit digits ≡ true
    → begins_digit s ≡ false
    → digit_run (digits ++ s) ≡ (digits, s)
unfolding digit_run
digit_run-digits [] s h k = digit_run-stop s k
digit_run-digits (c ∷ digits) s h k = elim (Bool-cases (is_digit c)) [
  | inl one ↦ rw (digit_run-digits digits s (rw one at h) k, one)
  | inr other ↦ absurd (cc (rw other at h))
]

digit_run-cons :
    (c : ℕ) (digits s : Text)
    → all is_digit (c ∷ digits) ≡ true
    → begins_digit s ≡ false
    → digit_run (c ∷ (digits ++ s)) ≡ (c ∷ digits, s)
digit_run-cons c digits s h k = digit_run-digits (c ∷ digits) s h k

whole_part-nonzero :
    (c : ℕ) (digits s : Text)
    → all is_digit (c ∷ digits) ≡ true
    → (c == b'0') ≡ false
    → begins_digit s ≡ false
    → whole_part (c ∷ (digits ++ s)) ≡ some (c ∷ digits, s)
unfolding whole_part
whole_part-nonzero c digits s h k l =
    let one : is_digit c ≡ true = ground arith in rw (digit_run-cons c digits s h l, k, one)

pub whole_part-show_nat :
    (n : ℕ) (s : Text)
    → begins_digit s ≡ false
    → whole_part (show_nat n ++ s) ≡ some (show_nat n, s)
unfolding show_nat
whole_part-show_nat zero s h = unfold whole_part in refl
whole_part-show_nat (suc n) s h =
    let (c, digits, e, nonzero) = show_nat-head (suc n) (omega arith) in
    rw e (whole_part-nonzero c digits s (rw e at (show_nat-digits (suc n))) nonzero h)

fraction-stop : (s : Text) → ends_number s ≡ true → fraction s ≡ ([], s)
unfolding fraction ends_number
fraction-stop [] h = refl
fraction-stop (c ∷ s) h = let dot : (c == b'.') ≡ false = ground arith in rw dot

exponent-stop : (s : Text) → ends_number s ≡ true → exponent s ≡ ([], s)
unfolding exponent ends_number
exponent-stop [] h = refl
exponent-stop (c ∷ s) h = let letter : (c == b'e' || c == b'E') ≡ false = ground arith in rw letter

abbrev signed : Bool → ℕ → ℤ
signed false n = pos n
signed true zero = pos 0
signed true (suc n) = negsuc n

-- A whole number with no more digits than `int` reads.
pub scan_number-show_nat :
    (minus : Bool) (n : ℕ) (s : Text)
    → length (show_nat n) ≤ 4300
    → ends_number s ≡ true
    → scan_number minus (show_nat n ++ s) ≡ ok (int (signed minus n), s)
unfolding scan_number number_of
scan_number-show_nat minus n s h k =
    let fits : ltb 4300 (length (show_nat n)) ≡ false = ground arith in
    rw (
      whole_part-show_nat n s (ends_number-digit s k),
      fraction-stop s k,
      exponent-stop s k,
      number_of,
      fits,
      read-show_nat n,
    )

-- The text of a number with a fraction.
abbrev pub decimal : ℕ → Text → Text
decimal n digits = show_nat n ++ b'.' ∷ digits

fraction-digits :
    (digits s : Text)
    → all is_digit digits ≡ true
    → 0 < length digits
    → ends_number s ≡ true
    → fraction (b'.' ∷ (digits ++ s)) ≡ (b'.' ∷ digits, s)
unfolding fraction
fraction-digits digits s h k l =
    let some_digit : ltb 0 (length digits) ≡ true = ground arith in
    rw (digit_run-digits digits s h (ends_number-digit s l), some_digit)

pub scan_number-decimal :
    (minus : Bool) (n : ℕ) (digits s : Text)
    → all is_digit digits ≡ true
    → 0 < length digits
    → ends_number s ≡ true
    → scan_number minus (decimal n digits ++ s)
      ≡ ok (float (if minus then b'-' ∷ decimal n digits else decimal n digits), s)
unfolding scan_number number_of
scan_number-decimal minus n digits s h k l = rw (
  append_assoc (show_nat n) (b'.' ∷ digits) s,
  whole_part-show_nat n (b'.' ∷ (digits ++ s)) refl,
  fraction-digits digits s h k l,
  exponent-stop s l,
  number_of,
  append-nil digits,
)

-- A text that begins with a digit, or with a minus before a digit, is a number.
word-other :
    (d : ℕ) (w : Text) (v : Json) (c : ℕ) (s : Text) (o : Result (Json × Text))
    → (d == c) ≡ false
    → word (d ∷ w) v (c ∷ s) o ≡ o
unfolding after_word
word-other d w v c s o h = rw (word, h)

scan_atom-digit :
    (c : ℕ) (s : Text) → is_digit c ≡ true → scan_atom (c ∷ s) ≡ scan_number false (c ∷ s)
unfolding scan_atom
scan_atom-digit c s h =
    let plain : (c == b'-') ≡ false = ground arith in
    rw (
      word-other b'n' (codes "ull") null c s _ (ground arith),
      word-other b't' (codes "rue") (bool true) c s _ (ground arith),
      word-other b'f' (codes "alse") (bool false) c s _ (ground arith),
      word-other b'N' (codes "aN") (float (codes "NaN")) c s _ (ground arith),
      word-other b'I' (codes "nfinity") (float (codes "Infinity")) c s _ (ground arith),
      word-other b'-' (codes "Infinity") (float (codes "-Infinity")) c s _ (ground arith),
      plain,
    )

scan_atom-minus :
    (c : ℕ) (s : Text) → is_digit c ≡ true → scan_atom (b'-' ∷ c ∷ s) ≡ scan_number true (c ∷ s)
unfolding scan_atom after_word
scan_atom-minus c s h =
    word-other b'I' (codes "nfinity") (float (codes "-Infinity")) c s (scan_number true (c ∷ s))
      (ground arith)

pub show_nat-first : (n : ℕ) → (c : ℕ) × (s : Text) × (show_nat n ≡ c ∷ s) × (is_digit c ≡ true)
show_nat-first n = go (show_nat n) (show_nat-digits n) (show_nat-nonempty n)
  where
    go :
        (t : Text)
        → all is_digit t ≡ true
        → 0 < length t
        → (c : ℕ) × (s : Text) × (t ≡ c ∷ s) × (is_digit c ≡ true)
    go [] h k = absurd (omega arith)
    go (c ∷ s) h k = (c, s, refl, ground arith)

pub scan_atom-show_nat :
    (n : ℕ) (s : Text) → scan_atom (show_nat n ++ s) ≡ scan_number false (show_nat n ++ s)
scan_atom-show_nat n s =
    let (c, t, e, one) = show_nat-first n in rw e (scan_atom-digit c (t ++ s) one)

pub scan_atom-negative :
    (n : ℕ) (s : Text) → scan_atom (b'-' ∷ (show_nat n ++ s)) ≡ scan_number true (show_nat n ++ s)
scan_atom-negative n s =
    let (c, t, e, one) = show_nat-first n in rw e (scan_atom-minus c (t ++ s) one)
