-- ===== src/Encoding/Integer.antt =====
-- `str.strip` and `int(text)`, over ASCII digits.
pub mod RoundTrip
use pqcbridge_legacy_edge_cl.Base.{
  ℕ, zero, suc, Bool, true, false, ◌&&◌, ◌||◌, Option, none, some, [], ◌∷◌, ◌==◌, Eq_nat, ltb, leb,
  if◌then◌else◌, length, Text, ℤ, pos, negsuc,
}
use pqcbridge_legacy_edge_cl.Result.{Result, ok, err, value_error}
use pqcbridge_legacy_edge_cl.Encoding.Decimal.{read_digits, is_digit, show_nat, show_int}

abbrev pub is_space : ℕ → Bool
is_space c = (leb 9 c && leb c 13) || (leb 28 c && leb c 32)

unfoldable pub strip_left : Text → Text
strip_left [] = []
strip_left (c ∷ s) = let rest = strip_left s in if is_space c then rest else c ∷ s

abbrev join_stripped : ℕ → Text → Text
join_stripped c [] = if is_space c then [] else c ∷ []
join_stripped c (d ∷ s) = c ∷ d ∷ s

unfoldable pub strip_right : Text → Text
strip_right [] = []
strip_right (c ∷ s) = join_stripped c (strip_right s)

-- The digits without the single underscores that may stand between two of them.
unfoldable pub without_underscores : Text → Option Text
without_underscores [] = none
without_underscores (c ∷ []) = if is_digit c then some (c ∷ []) else none
without_underscores (c ∷ d ∷ s) =
    let after_one = without_underscores (d ∷ s) in
    let after_two = without_underscores s in
    let rest = if d == b'_' then after_two else after_one in
    if is_digit c then elim rest [ none ↦ none | some t ↦ some (c ∷ t) ] else none

abbrev signed : Bool → ℕ → ℤ
signed false n = pos n
signed true zero = pos 0
signed true (suc n) = negsuc n

-- sys.get_int_max_str_digits()
abbrev pub max_digits : ℕ
max_digits = 4300

-- str(n)
unfoldable pub str_int : ℤ → Result Text
unfolding show_int
str_int (pos n) =
    if ltb max_digits (length (show_nat n)) then err value_error else ok (show_int (pos n))
str_int (negsuc n) =
    if ltb max_digits (length (show_nat (suc n))) then err value_error else ok (show_int (negsuc n))

unfoldable pub value_of : Bool → Option Text → Option ℤ
unfolding read_digits
value_of minus none = none
value_of minus (some digits) =
    if ltb max_digits (length digits) then none else some (signed minus (read_digits 0 digits).0)

-- int(text); None is a ValueError
unfoldable pub parse_int : Text → Option ℤ
unfolding without_underscores value_of
parse_int [] = none
parse_int (c ∷ s) =
    if c == b'-'
    then value_of true (without_underscores s)
    else if c == b'+'
    then value_of false (without_underscores s)
    else value_of false (without_underscores (c ∷ s))

unfoldable pub strip : Text → Text
unfolding strip_left strip_right
strip s = strip_right (strip_left s)

-- int(text), which strips it first; None is a ValueError
unfoldable pub int_of_text : Text → Option ℤ
unfolding strip parse_int
int_of_text s = parse_int (strip s)
