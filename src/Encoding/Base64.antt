-- ===== src/Encoding/Base64.antt =====
-- `base64.b64encode`, and `base64.b64decode` with `validate=True`: groups of four characters of the
-- alphabet, with padding at the end of the last group only. Bits that the padding leaves over are
-- not looked at, as in Python.
pub mod Digits
pub mod RoundTrip
pub mod Shown
use pqcbridge_legacy_edge_cl.Base.{
  ℕ, ◌+◌, ◌-◌, ◌*◌, ◌/◌, ◌%◌, Bool, true, false, ◌&&◌, Option, none, some, List, [], ◌∷◌, leb, ltb,
  ◌==◌, Eq_nat, if◌then◌else◌, Bytes, Text,
}

-- The character for a value below 64.
unfoldable pub digit : ℕ → ℕ
digit n =
    if ltb n 26
    then n + b'A'
    else if ltb n 52
    then n - 26 + b'a'
    else if ltb n 62
    then n - 52 + b'0'
    else if n == 62
    then b'+'
    else b'/'

-- The value of a character of the alphabet.
unfoldable pub value : ℕ → Option ℕ
value c =
    if leb b'A' c && leb c b'Z'
    then some (c - b'A')
    else if leb b'a' c && leb c b'z'
    then some (c - b'a' + 26)
    else if leb b'0' c && leb c b'9'
    then some (c - b'0' + 52)
    else if c == b'+'
    then some 62
    else if c == b'/'
    then some 63
    else none

unfoldable pub b64encode : Bytes → Text
unfolding digit
b64encode [] = []
b64encode (a ∷ []) = digit (a / 4) ∷ digit (a % 4 * 16) ∷ b'=' ∷ b'=' ∷ []
b64encode (a ∷ b ∷ []) =
    digit (a / 4) ∷ digit (a % 4 * 16 + b / 16) ∷ digit (b % 16 * 4) ∷ b'=' ∷ []
b64encode (a ∷ b ∷ c ∷ rest) =
    digit (a / 4)
    ∷ digit (a % 4 * 16 + b / 16)
    ∷ digit (b % 16 * 4 + c / 64)
    ∷ digit (c % 64)
    ∷ b64encode rest

infixl 5 ◌>>=◌
abbrev ◌>>=◌ : {A B : Type 0} → Option A → (A → Option B) → Option B
none >>= f = none
some a >>= f = f a

pub first_byte : ℕ → ℕ → ℕ
first_byte x y = x * 4 + y / 16

pub second_byte : ℕ → ℕ → ℕ
second_byte y z = y % 16 * 16 + z / 4

pub third_byte : ℕ → ℕ → ℕ
third_byte z w = z % 4 * 64 + w

-- A last group with one or two characters of padding.
pub padded_group : ℕ → ℕ → ℕ → Option Bytes
unfolding value first_byte second_byte
padded_group p q r = do
  x ← value p
  y ← value q
  if r == b'='
      then some (first_byte x y ∷ [])
      else do z ← value r; some (first_byte x y ∷ second_byte y z ∷ [])

pub full_group : ℕ → ℕ → ℕ → ℕ → Option Bytes → Option Bytes
unfolding value first_byte second_byte third_byte
full_group p q r s rest = do
  x ← value p
  y ← value q
  z ← value r
  w ← value s
  bytes ← rest
  some (first_byte x y ∷ second_byte y z ∷ third_byte z w ∷ bytes)

is_empty : Text → Bool
is_empty [] = true
is_empty (_ ∷ _) = false

unfoldable pub b64decode : Text → Option Bytes
unfolding padded_group full_group is_empty
b64decode [] = some []
b64decode (p ∷ q ∷ r ∷ s ∷ rest) =
    let more = b64decode rest in
    if s == b'='
    then (if is_empty rest then padded_group p q r else none)
    else full_group p q r s more
b64decode _ = none
