-- ===== src/Encoding/Decimal/Digits.antt =====
-- The digits that `show_nat` writes: digits only, at least one, and they are read as the number.
use pqcbridge_legacy_edge_cl.Base.{
  ℕ, zero, suc, ◌+◌, ◌-◌, ◌*◌, ◌/◌, ◌%◌, ◌<◌, ◌≡◌, refl, ◌∙◌, ap, arith, Bool, true, false, ◌&&◌,
  ◌==◌, Eq_nat, ltb, [], ◌∷◌, all, length, Text, Bool-cases, inl, inr,
}
use pqcbridge_legacy_edge_cl.Encoding.Decimal.{
  low_digits, reversed_onto, show_nat, is_digit, read_digits,
}

low_digit : (n : ℕ) → is_digit (n % 10 + b'0') ≡ true
low_digit n = ground arith

low_digits-digits : (f n : ℕ) → all is_digit (low_digits f n) ≡ true
unfolding low_digits
low_digits-digits zero n = refl
low_digits-digits (suc f) n = elim (Bool-cases (ltb n 10)) [
  | inl last ↦ rw (low_digit n, last)
  | inr more ↦ rw (low_digit n, more) (low_digits-digits f (n / 10))
]

-- The value of digits, the last one first.
value : Text → ℕ
value [] = 0
value (c ∷ s) = (c - b'0') + 10 * value s

low_digits-value : (f n : ℕ) → n < f → value (low_digits f n) ≡ n
unfolding low_digits value
low_digits-value zero n h = omega arith
low_digits-value (suc f) n h = elim (Bool-cases (ltb n 10)) [
  | inl last ↦ rw last (ground arith)
  | inr more ↦ rw more (ground (arith, low_digits-value f (n / 10)))
]

and_true : {a b : Bool} → a ≡ true → b ≡ true → (a && b) ≡ true
and_true h k = rw (h, k)

-- A run of digits that was turned around is read as its value.
read_reversed :
    (digits out : Text)
    → all is_digit digits ≡ true
    → read_digits 0 (reversed_onto digits out) ≡ read_digits (value digits) out
unfolding read_digits reversed_onto value
read_reversed [] out h = refl
read_reversed (c ∷ digits) out h = elim (Bool-cases (is_digit c)) [
  | inl is_one ↦
      let e : value digits * 10 + (c - b'0') ≡ (c - b'0') + 10 * value digits = omega arith in
      read_reversed digits (c ∷ out) (rw is_one at h) ∙ rw (is_one, e)
  | inr none ↦ absurd (cc (rw none at h))
]

reversed-digits :
    (digits out : Text)
    → all is_digit digits ≡ true
    → all is_digit out ≡ true
    → all is_digit (reversed_onto digits out) ≡ true
unfolding reversed_onto
reversed-digits [] out h k = k
reversed-digits (c ∷ digits) out h k = elim (Bool-cases (is_digit c)) [
  | inl is_one ↦ reversed-digits digits (c ∷ out) (rw is_one at h) (and_true is_one k)
  | inr none ↦ absurd (cc (rw none at h))
]

length-reversed :
    (digits out : Text) → length (reversed_onto digits out) ≡ length digits + length out
unfolding reversed_onto
length-reversed [] out = omega arith
length-reversed (c ∷ digits) out = omega (arith, length-reversed digits (c ∷ out))

pub show_nat-digits : (n : ℕ) → all is_digit (show_nat n) ≡ true
unfolding show_nat
show_nat-digits n = reversed-digits (low_digits (suc n) n) [] (low_digits-digits (suc n) n) refl

pub show_nat-nonempty : (n : ℕ) → 0 < length (show_nat n)
unfolding show_nat low_digits
show_nat-nonempty n = omega (arith, length-reversed (low_digits (suc n) n) [])

pub read-show_nat : (n : ℕ) → read_digits 0 (show_nat n) ≡ (n, [])
unfolding show_nat read_digits
read-show_nat n =
    read_reversed (low_digits (suc n) n) [] (low_digits-digits (suc n) n)
    ∙ ap (λ (k : ℕ). (k, [])) (low_digits-value (suc n) n (omega arith))

reversed-head :
    (f n : ℕ) (out : Text)
    → 0 < n
    → n < f
    → (c : ℕ) × (s : Text) × (reversed_onto (low_digits f n) out ≡ c ∷ s) × ((c == b'0') ≡ false)
unfolding low_digits reversed_onto
reversed-head zero n out k h = absurd (omega arith)
reversed-head (suc f) n out k h = elim (Bool-cases (ltb n 10)) [
  | inl last ↦ (n % 10 + b'0', out, rw last, ground arith)
  | inr more ↦
      rw more (reversed-head f (n / 10) ((n % 10 + b'0') ∷ out) (ground arith) (ground arith))
]

-- A positive number has no leading zero.
pub show_nat-head :
    (n : ℕ) → 0 < n → (c : ℕ) × (s : Text) × (show_nat n ≡ c ∷ s) × ((c == b'0') ≡ false)
unfolding show_nat
show_nat-head n h = reversed-head (suc n) n [] h (omega arith)
