-- ===== src/Encoding/Utf8.antt =====
-- `str.encode("utf-8")`, which refuses a lone surrogate, and `bytes.decode("utf-8")`, which refuses
-- overlong forms, surrogates, numbers past 0x10ffff and broken sequences.
pub mod Ascii
use pqcbridge_legacy_edge_cl.Base.{
  ℕ, ◌+◌, ◌*◌, ◌/◌, ◌%◌, Bool, ◌&&◌, Option, none, some, [], ◌∷◌, ◌++◌, leb, ltb, if◌then◌else◌,
  Bytes, Text,
}

abbrev pub is_surrogate : ℕ → Bool
is_surrogate c = leb 0xd800 c && leb c 0xdfff

unfoldable pub encode_char : ℕ → Bytes
encode_char c =
    if ltb c 0x80
    then c ∷ []
    else if ltb c 0x800
    then (0xc0 + c / 64) ∷ (0x80 + c % 64) ∷ []
    else if ltb c 0x10000
    then (0xe0 + c / 4096) ∷ (0x80 + c / 64 % 64) ∷ (0x80 + c % 64) ∷ []
    else (0xf0 + c / 262144) ∷ (0x80 + c / 4096 % 64) ∷ (0x80 + c / 64 % 64) ∷ (0x80 + c % 64) ∷ []

before : Bytes → Option Bytes → Option Bytes
before bs none = none
before bs (some rest) = some (bs ++ rest)

unfoldable pub utf8_encode : Text → Option Bytes
unfolding encode_char before
utf8_encode [] = some []
utf8_encode (c ∷ s) =
    let rest = utf8_encode s in if is_surrogate c then none else before (encode_char c) rest

abbrev is_tail : ℕ → Bool
is_tail b = leb 0x80 b && leb b 0xbf

char_before : ℕ → Option Text → Option Text
char_before c none = none
char_before c (some s) = some (c ∷ s)

unfoldable pub utf8_decode : Bytes → Option Text
unfolding char_before
utf8_decode [] = some []
utf8_decode (a ∷ []) = if ltb a 0x80 then some (a ∷ []) else none
utf8_decode (a ∷ b ∷ []) =
    let one = utf8_decode (b ∷ []) in
    if ltb a 0x80
    then char_before a one
    else if leb 0xc2 a && leb a 0xdf && is_tail b
    then some ((a % 32 * 64 + b % 64) ∷ [])
    else none
utf8_decode (a ∷ b ∷ c ∷ []) =
    let one = utf8_decode (b ∷ c ∷ []) in
    let two = utf8_decode (c ∷ []) in
    let code = a % 16 * 4096 + b % 64 * 64 + c % 64 in
    if ltb a 0x80
    then char_before a one
    else if leb 0xc2 a && leb a 0xdf && is_tail b
    then char_before (a % 32 * 64 + b % 64) two
    else if leb 0xe0 a && leb a 0xef && is_tail b && is_tail c && leb 0x800 code
    then (if is_surrogate code then none else some (code ∷ []))
    else none
utf8_decode (a ∷ b ∷ c ∷ d ∷ rest) =
    let one = utf8_decode (b ∷ c ∷ d ∷ rest) in
    let two = utf8_decode (c ∷ d ∷ rest) in
    let three = utf8_decode (d ∷ rest) in
    let four = utf8_decode rest in
    let code = a % 16 * 4096 + b % 64 * 64 + c % 64 in
    let wide = a % 8 * 262144 + b % 64 * 4096 + c % 64 * 64 + d % 64 in
    if ltb a 0x80
    then char_before a one
    else if leb 0xc2 a && leb a 0xdf && is_tail b
    then char_before (a % 32 * 64 + b % 64) two
    else if leb 0xe0 a && leb a 0xef && is_tail b && is_tail c && leb 0x800 code
    then (if is_surrogate code then none else char_before code three)
    else if leb 0xf0 a && leb a 0xf4 && is_tail b && is_tail c && is_tail d
    then (if leb 0x10000 wide && leb wide 0x10ffff then char_before wide four else none)
    else none
