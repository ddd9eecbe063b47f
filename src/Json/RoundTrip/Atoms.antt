-- ===== src/Json/RoundTrip/Atoms.antt =====
-- A number that `json.dumps` wrote is read as a value.
use pqcbridge_legacy_edge_cl.Base.{
  ℕ, suc, ◌≡◌, refl, ◌∙◌, arith, Bool, true, false, ◌∷◌, ◌++◌, append_assoc, ◌==◌, Eq_nat, Text,
  codes, ℤ, pos, negsuc,
}
use pqcbridge_legacy_edge_cl.Result.{ok}
use pqcbridge_legacy_edge_cl.Encoding.Decimal.{show_nat, show_int, is_digit}
use pqcbridge_legacy_edge_cl.Json.{null, bool, int, float}
use pqcbridge_legacy_edge_cl.Json.Dumps.{bool_text}
use pqcbridge_legacy_edge_cl.Json.Loads.{scan_number, scan_atom, scan_value}
use pqcbridge_legacy_edge_cl.Json.RoundTrip.Numbers.{
  ends_number, decimal, scan_number-show_nat, scan_number-decimal, scan_atom-show_nat,
  scan_atom-negative, show_nat-first,
}
use pqcbridge_legacy_edge_cl.Json.RoundTrip.Printable.{IsShort, IsDecimal}

atom_first :
    (f depth c : ℕ) (s : Text)
    → is_digit c ≡ true
    → scan_value (suc f) depth (c ∷ s) ≡ scan_atom (c ∷ s)
unfolding scan_value
atom_first f depth c s h =
    let quotes : (c == b'"') ≡ false = ground arith in
    let bracket : (c == b'[') ≡ false = ground arith in
    let brace : (c == b'{') ≡ false = ground arith in rw (quotes, bracket, brace)

atom_digit :
    (f depth n : ℕ) (s : Text)
    → scan_value (suc f) depth (show_nat n ++ s) ≡ scan_number false (show_nat n ++ s)
atom_digit f depth n s =
    let (c, t, e, digit) = show_nat-first n in
    rw e (atom_first f depth c (t ++ s) digit) ∙ scan_atom-show_nat n s

atom_minus :
    (f depth n : ℕ) (s : Text)
    → scan_value (suc f) depth (b'-' ∷ (show_nat n ++ s)) ≡ scan_number true (show_nat n ++ s)
unfolding scan_value
atom_minus f depth n s = scan_atom-negative n s

pub scan_value-int :
    (f depth : ℕ) (n : ℤ) (s : Text)
    → IsShort n
    → ends_number s ≡ true
    → scan_value (suc f) depth (show_int n ++ s) ≡ ok (int n, s)
unfolding show_int
scan_value-int f depth (pos n) s h k = atom_digit f depth n s ∙ scan_number-show_nat false n s h k
scan_value-int f depth (negsuc n) s h k =
    atom_minus f depth (suc n) s ∙ scan_number-show_nat true (suc n) s h k

pub scan_value-float :
    (f depth : ℕ) (t s : Text)
    → IsDecimal t
    → ends_number s ≡ true
    → scan_value (suc f) depth (t ++ s) ≡ ok (float t, s)
scan_value-float f depth t s (true, n, digits, e, h, l) k =
    let split : decimal n digits ++ s ≡ show_nat n ++ b'.' ∷ (digits ++ s) =
      append_assoc (show_nat n) (b'.' ∷ digits) s in
    let read = scan_number-decimal true n digits s h l k in
    rw e (rw split (atom_minus f depth n (b'.' ∷ (digits ++ s))) ∙ (rw split at read))
scan_value-float f depth t s (false, n, digits, e, h, l) k =
    let split : decimal n digits ++ s ≡ show_nat n ++ b'.' ∷ (digits ++ s) =
      append_assoc (show_nat n) (b'.' ∷ digits) s in
    let read = scan_number-decimal false n digits s h l k in
    rw e (rw split (atom_digit f depth n (b'.' ∷ (digits ++ s))) ∙ (rw split at read))

pub scan_value-null :
    (f depth : ℕ) (s : Text) → scan_value (suc f) depth (codes "null" ++ s) ≡ ok (null, s)
unfolding scan_value scan_atom
scan_value-null f depth s = refl

pub scan_value-bool :
    (f depth : ℕ) (b : Bool) (s : Text)
    → scan_value (suc f) depth (bool_text b ++ s) ≡ ok (bool b, s)
unfolding scan_value scan_atom
scan_value-bool f depth true s = refl
scan_value-bool f depth false s = refl
