-- ===== src/Json/RoundTrip/Starts.antt =====
-- The first character of a value that `json.dumps` wrote is no blank and no bracket that closes.
use pqcbridge_legacy_edge_cl.Base.{
  ℕ, suc, ◌≡◌, refl, arith, true, false, ◌∷◌, ◌++◌, ◌==◌, Eq_nat, Text, ℤ, pos, negsuc, ◌++◌,
}
use pqcbridge_legacy_edge_cl.Encoding.Decimal.{show_nat, show_int}
use pqcbridge_legacy_edge_cl.Json.{
  Json, null, bool, int, float, str, arr, obj, nil, cons, end, field,
}
use pqcbridge_legacy_edge_cl.Json.Dumps.{quote, dumps}
use pqcbridge_legacy_edge_cl.Json.Loads.{is_blank, skip_blanks, begins}
use pqcbridge_legacy_edge_cl.Json.RoundTrip.Numbers.{show_nat-first, decimal}
use pqcbridge_legacy_edge_cl.Json.RoundTrip.Printable.{IsPrintable, IsDecimal}

abbrev IsStart : Text → Type 0
IsStart t = (c : ℕ) × (s : Text) × (t ≡ c ∷ s) × (is_blank c ≡ false) × ((b']' == c) ≡ false)

digits-IsStart : (n : ℕ) (rest : Text) → IsStart (show_nat n ++ rest)
digits-IsStart n rest =
    let (c, s, e, digit) = show_nat-first n in (c, s ++ rest, rw e, ground arith, ground arith)

int-IsStart : (n : ℤ) → IsStart (show_int n)
unfolding show_int
int-IsStart (pos n) =
    let (c, s, e, digit) = show_nat-first n in (c, s, e, ground arith, ground arith)
int-IsStart (negsuc n) = (b'-', show_nat (suc n), refl, refl, refl)

decimal-IsStart : (t : Text) → IsDecimal t → IsStart t
decimal-IsStart t (true, n, digits, e, h, k) = (b'-', decimal n digits, e, refl, refl)
decimal-IsStart t (false, n, digits, e, h, k) = rw e (digits-IsStart n (b'.' ∷ digits))

value-IsStart : (depth : ℕ) (v : Json) → IsPrintable depth v → IsStart (dumps v)
unfolding dumps quote IsPrintable
value-IsStart depth null h = (_, _, refl, refl, refl)
value-IsStart depth (bool true) h = (_, _, refl, refl, refl)
value-IsStart depth (bool false) h = (_, _, refl, refl, refl)
value-IsStart depth (int n) h = int-IsStart n
value-IsStart depth (float t) h = decimal-IsStart t h
value-IsStart depth (str s) h = (_, _, refl, refl, refl)
value-IsStart depth (arr nil) h = (_, _, refl, refl, refl)
value-IsStart depth (arr (cons v vs)) h = (_, _, refl, refl, refl)
value-IsStart depth (obj end) h = (_, _, refl, refl, refl)
value-IsStart depth (obj (field k v fs)) h = (_, _, refl, refl, refl)

module _ (depth : ℕ) (v : Json) (h : IsPrintable depth v) (rest : Text) where
  pub skip_blanks-dumps : skip_blanks (dumps v ++ rest) ≡ dumps v ++ rest
  unfolding skip_blanks
  skip_blanks-dumps = let (c, s, e, shown, other) = value-IsStart depth v h in rw (e, shown)

  pub begins-dumps : begins b']' (dumps v ++ rest) ≡ false
  begins-dumps = let (c, s, e, shown, other) = value-IsStart depth v h in rw e other
