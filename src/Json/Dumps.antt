-- ===== src/Json/Dumps.antt =====
-- `json.dumps(value, separators=(",", ":"))`: ASCII only, with escapes for all else.
use pqcbridge_legacy_edge_cl.Base.{
  ℕ, ◌+◌, ◌-◌, ◌/◌, ◌%◌, Bool, true, false, ◌&&◌, [], ◌∷◌, ◌++◌, leb, ltb, ◌==◌, Eq_nat,
  if◌then◌else◌, Text, codes,
}
use pqcbridge_legacy_edge_cl.Encoding.Hex.{hex_digit}
use pqcbridge_legacy_edge_cl.Encoding.Decimal.{show_int}
use pqcbridge_legacy_edge_cl.Json.{
  Json, null, bool, int, float, str, arr, obj, Items, nil, cons, Fields, end, field,
}

-- \uXXXX
unfoldable pub unicode_escape : ℕ → Text
unfolding hex_digit
unicode_escape c =
    b'\\'
    ∷ b'u'
    ∷ hex_digit (c / 4096)
    ∷ hex_digit (c / 256 % 16)
    ∷ hex_digit (c / 16 % 16)
    ∷ hex_digit (c % 16)
    ∷ []

unfoldable pub escape_char : ℕ → Text
unfolding unicode_escape
escape_char c =
    if c == b'"'
    then b'\\' ∷ b'"' ∷ []
    else if c == b'\\'
    then b'\\' ∷ b'\\' ∷ []
    else if c == 8
    then b'\\' ∷ b'b' ∷ []
    else if c == 9
    then b'\\' ∷ b't' ∷ []
    else if c == 10
    then b'\\' ∷ b'n' ∷ []
    else if c == 12
    then b'\\' ∷ b'f' ∷ []
    else if c == 13
    then b'\\' ∷ b'r' ∷ []
    else if leb 32 c && leb c 126
    then c ∷ []
    else if ltb c 0x10000
    then unicode_escape c
    else unicode_escape (0xd800 + (c - 0x10000) / 1024)
      ++ unicode_escape (0xdc00 + (c - 0x10000) % 1024)

unfoldable pub escape : Text → Text
unfolding escape_char
escape [] = []
escape (c ∷ s) = escape_char c ++ escape s

unfoldable pub quote : Text → Text
unfolding escape
quote s = b'"' ∷ (escape s ++ b'"' ∷ [])

abbrev pub bool_text : Bool → Text
bool_text true = codes "true"
bool_text false = codes "false"

unfoldable mutual
  unfolding quote show_int

  pub dumps : Json → Text
  dumps null = codes "null"
  dumps (bool b) = bool_text b
  dumps (int n) = show_int n
  dumps (float t) = t
  dumps (str s) = quote s
  dumps (arr nil) = b'[' ∷ b']' ∷ []
  dumps (arr (cons v vs)) = b'[' ∷ (dumps v ++ dumps_items vs)
  dumps (obj end) = b'{' ∷ b'}' ∷ []
  dumps (obj (field k v fs)) = b'{' ∷ (quote k ++ b':' ∷ (dumps v ++ dumps_fields fs))

  -- the items after the first one, and the bracket
  pub dumps_items : Items → Text
  dumps_items nil = b']' ∷ []
  dumps_items (cons v vs) = b',' ∷ (dumps v ++ dumps_items vs)

  pub dumps_fields : Fields → Text
  dumps_fields end = b'}' ∷ []
  dumps_fields (field k v fs) = b',' ∷ (quote k ++ b':' ∷ (dumps v ++ dumps_fields fs))
