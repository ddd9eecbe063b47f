-- ===== src/Json/Loads.antt =====
-- `json.loads`. What is no JSON raises ValueError; arrays and objects nested deeper than the
-- interpreter's limit raise RecursionError, which is no ValueError. The fuel is three times
-- the length of the text and one more: of three calls in a row one consumes a character.
pub mod Errors
use pqcbridge_legacy_edge_cl.Base.{
  ℕ, zero, suc, ◌+◌, ◌-◌, ◌*◌, Bool, true, false, ◌&&◌, ◌||◌, Option, none, some, List, [], ◌∷◌,
  ◌++◌, leb, ltb, ◌==◌, Eq_nat, Eq_text, if◌then◌else◌, length, Text, text_eq, codes, ℤ, pos,
  negsuc,
}
use pqcbridge_legacy_edge_cl.Result.{
  Exn, Result, ok, err, value_error, recursion_error, ◌>>=◌, or_raise,
}
use pqcbridge_legacy_edge_cl.Dict.{put}
use pqcbridge_legacy_edge_cl.Encoding.Hex.{hex_value}
use pqcbridge_legacy_edge_cl.Encoding.Decimal.{read_digits, is_digit}
use pqcbridge_legacy_edge_cl.Json.{
  Json, null, bool, int, float, str, arr, obj, Items, nil, cons, Message, of_entries,
}

abbrev pub is_blank : ℕ → Bool
is_blank c = c == 32 || c == 9 || c == 10 || c == 13

unfoldable pub skip_blanks : Text → Text
skip_blanks [] = []
skip_blanks (c ∷ s) = let rest = skip_blanks s in if is_blank c then rest else c ∷ s

-- what follows the word, if the text begins with it
unfoldable pub after_word : Text → Text → Option Text
after_word [] s = some s
after_word (c ∷ w) [] = none
after_word (c ∷ w) (d ∷ s) = if c == d then after_word w s else none

unfoldable pub hex4 : Text → Option (ℕ × Text)
unfolding hex_value
hex4 (a ∷ b ∷ c ∷ d ∷ s) = elim (hex_value a) [
  | none ↦ none
  | some w ↦ elim (hex_value b) [
    | none ↦ none
    | some x ↦ elim (hex_value c) [
      | none ↦ none
      | some y ↦ elim (hex_value d) [
        | none ↦ none
        | some z ↦ some (w * 4096 + x * 256 + y * 16 + z, s)
      ]
    ]
  ]
]
hex4 _ = none

-- the character that a backslash and this one stand for
unfoldable pub unescape_char : ℕ → Option ℕ
unescape_char c =
    if c == b'"' || c == b'\\' || c == b'/'
    then some c
    else if c == b'b'
    then some 8
    else if c == b'f'
    then some 12
    else if c == b'n'
    then some 10
    else if c == b'r'
    then some 13
    else if c == b't'
    then some 9
    else none

-- one character of a string, or the end of the string
pub data Piece : Type 0 where
  char : ℕ → Text → Piece
  close : Text → Piece
  broken : Piece

abbrev escaped : Option (ℕ × Text) → Piece
escaped none = broken
escaped (some (c, s)) = char c s

abbrev short_escape : Option ℕ → Text → Piece
short_escape none s = broken
short_escape (some c) s = char c s

unfoldable pub next_piece : Text → Piece
unfolding hex4 unescape_char
next_piece [] = broken
next_piece (c ∷ []) =
    if c == b'"' then close [] else if c == b'\\' || ltb c 32 then broken else char c []
next_piece (c ∷ d ∷ s) =
    if c == b'"'
    then close (d ∷ s)
    else if c == b'\\'
    then (if d == b'u' then escaped (hex4 s) else short_escape (unescape_char d) s)
    else if ltb c 32
    then broken
    else char c (d ∷ s)

unfoldable pub scan_string : ℕ → Text → Option (Text × Text)
unfolding next_piece
scan_string zero s = none
scan_string (suc f) s = elim (next_piece s) [
  | broken ↦ none
  | close rest ↦ some ([], rest)
  | char c rest ↦ elim (scan_string f rest) [ none ↦ none | some (t, after) ↦ some (c ∷ t, after) ]
]

-- A high surrogate escape before a low one is one character.
unfoldable pub join_surrogates : Text → Text
join_surrogates [] = []
join_surrogates (c ∷ []) = c ∷ []
join_surrogates (c ∷ d ∷ s) =
    let apart = join_surrogates (d ∷ s) in
    let joined = join_surrogates s in
    if leb 0xd800 c && leb c 0xdbff && leb 0xdc00 d && leb d 0xdfff
    then (0x10000 + (c - 0xd800) * 1024 + (d - 0xdc00)) ∷ joined
    else c ∷ apart

unfoldable pub scan_text : Text → Result (Text × Text)
unfolding scan_string join_surrogates
scan_text s = elim (scan_string (suc (length s)) s) [
  | none ↦ err value_error
  | some (t, rest) ↦ ok (join_surrogates t, rest)
]

-- the digits at the head of the text, and what follows
unfoldable pub digit_run : Text → Text × Text
digit_run [] = ([], [])
digit_run (c ∷ s) =
    let (run, rest) = digit_run s in if is_digit c then (c ∷ run, rest) else ([], c ∷ s)

-- `.` and digits, if both are there
unfoldable pub fraction : Text → Text × Text
unfolding digit_run
fraction [] = ([], [])
fraction (c ∷ s) =
    let (run, rest) = digit_run s in
    if c == b'.' && ltb 0 (length run) then (c ∷ run, rest) else ([], c ∷ s)

signed_run : ℕ → Text → Text → Text × Text
unfolding digit_run
signed_run e s [] = ([], e ∷ s)
signed_run e s (c ∷ t) =
    let (run, rest) = digit_run t in
    let (bare, left) = digit_run (c ∷ t) in
    if c == b'+' || c == b'-'
    then (if ltb 0 (length run) then (e ∷ c ∷ run, rest) else ([], e ∷ s))
    else if ltb 0 (length bare)
    then (e ∷ bare, left)
    else ([], e ∷ s)

-- an exponent with its digits, if it is there
unfoldable pub exponent : Text → Text × Text
unfolding signed_run
exponent [] = ([], [])
exponent (c ∷ s) = if c == b'e' || c == b'E' then signed_run c s s else ([], c ∷ s)

abbrev signed : Bool → ℕ → ℤ
signed false n = pos n
signed true zero = pos 0
signed true (suc n) = negsuc n

-- The whole part is `0`, or starts with another digit; an `int` has at most 4300 digits.
unfoldable pub whole_part : Text → Option (Text × Text)
unfolding digit_run
whole_part [] = none
whole_part (c ∷ s) =
    let (run, rest) = digit_run (c ∷ s) in
    if c == b'0' then some (c ∷ [], s) else if is_digit c then some (run, rest) else none

unfoldable pub number_of : Bool → Text → Text → Text → Result Json
unfolding read_digits
number_of minus whole [] [] =
    if ltb 4300 (length whole)
    then err value_error
    else ok (int (signed minus (read_digits 0 whole).0))
number_of minus whole frac exp =
    let token = whole ++ (frac ++ exp) in ok (float (if minus then b'-' ∷ token else token))

unfoldable pub scan_number : Bool → Text → Result (Json × Text)
unfolding whole_part fraction exponent number_of
scan_number minus s = do
  (whole, after_whole) ← or_raise (whole_part s) value_error
  let (frac, after_frac) = fraction after_whole
  let (exp, rest) = exponent after_frac
  value ← number_of minus whole frac exp
  ok (value, rest)

abbrev pub word : Text → Json → Text → Result (Json × Text) → Result (Json × Text)
word w v s otherwise = elim (after_word w s) [ none ↦ otherwise | some rest ↦ ok (v, rest) ]

-- A value that is no string, array or object.
unfoldable pub scan_atom : Text → Result (Json × Text)
unfolding scan_number after_word
scan_atom [] = err value_error
scan_atom (c ∷ s) = word (codes "null") null (c ∷ s) (
    word (codes "true") (bool true) (c ∷ s) (
      word (codes "false") (bool false) (c ∷ s) (
        word (codes "NaN") (float (codes "NaN")) (c ∷ s) (
          word (codes "Infinity") (float (codes "Infinity")) (c ∷ s) (
            word (codes "-Infinity") (float (codes "-Infinity")) (c ∷ s)
              (if c == b'-' then scan_number true s else scan_number false (c ∷ s)))))))

abbrev expect : ℕ → Text → Result Text
expect c [] = err value_error
expect c (d ∷ s) = if c == d then ok s else err value_error

abbrev pub begins : ℕ → Text → Bool
begins c [] = false
begins c (d ∷ s) = c == d

abbrev behind : Text → Text
behind [] = []
behind (c ∷ s) = s

unfoldable mutual
  unfolding scan_text scan_atom skip_blanks put text_eq

  -- `depth` is how many more arrays and objects may be entered
  pub scan_value : ℕ → ℕ → Text → Result (Json × Text)
  scan_value zero depth s = err value_error
  scan_value (suc f) depth [] = err value_error
  scan_value (suc f) depth (c ∷ s) =
      let items = scan_items f depth s in
      let fields = scan_fields f depth [] s in
      if c == b'"'
      then (do (t, rest) ← scan_text s; ok (str t, rest))
      else if c == b'['
      then items
      else if c == b'{'
      then fields
      else scan_atom (c ∷ s)

  -- behind the opening bracket
  pub scan_items : ℕ → ℕ → Text → Result (Json × Text)
  scan_items zero depth s = err value_error
  scan_items (suc f) zero s = err recursion_error
  scan_items (suc f) (suc depth) s =
      let inside = skip_blanks s in
      let more = scan_tail f depth inside in
      if begins b']' inside
      then ok (arr nil, behind inside)
      else do (vs, rest) ← more; ok (arr vs, rest)

  -- a value, then a comma and the rest, or the closing bracket
  pub scan_tail : ℕ → ℕ → Text → Result (Items × Text)
  scan_tail zero depth s = err value_error
  scan_tail (suc f) depth s = do
    (v, after) ← scan_value f depth (skip_blanks s)
    let next = skip_blanks after
    if begins b']' next
        then ok (cons v nil, behind next)
        else do comma ← expect b',' next; (vs, rest) ← scan_tail f depth comma; ok (cons v vs, rest)

  -- behind the opening brace; a key that is there again keeps its place and takes the last value
  pub scan_fields : ℕ → ℕ → Message → Text → Result (Json × Text)
  scan_fields zero depth d s = err value_error
  scan_fields (suc f) zero d s = err recursion_error
  scan_fields (suc f) (suc depth) d s =
      let inside = skip_blanks s in
      let more = scan_pairs f depth d inside in
      if begins b'}' inside then ok (obj (of_entries d), behind inside) else more

  pub scan_pairs : ℕ → ℕ → Message → Text → Result (Json × Text)
  scan_pairs zero depth d s = err value_error
  scan_pairs (suc f) depth d s = do
    opened ← expect b'"' (skip_blanks s)
    (k, after_key) ← scan_text opened
    colon ← expect b':' (skip_blanks after_key)
    (v, after) ← scan_value f depth (skip_blanks colon)
    let next = skip_blanks after
    if begins b'}' next
        then ok (obj (of_entries (put d k v)), behind next)
        else do comma ← expect b',' next; scan_pairs f depth (put d k v) comma

-- nothing but blanks may follow the value
pub whole_text : Json → Text → Result Json
whole_text v [] = ok v
whole_text v (c ∷ s) = err value_error

unfoldable pub loads : ℕ → Text → Result Json
unfolding scan_value skip_blanks whole_text
loads nesting s = do
  (v, rest) ← scan_value (suc (length s * 3)) nesting (skip_blanks s)
  whole_text v (skip_blanks rest)
