-- ===== src/Json/Strings.antt =====
-- A string that `json.dumps` writes is the string that `json.loads` reads.
pub mod Pieces
use pqcbridge_legacy_edge_cl.Base.{
  ℕ, zero, suc, ◌+◌, ◌-◌, ◌*◌, ◌/◌, ◌%◌, ◌<◌, ◌≤◌, ◌≡◌, refl, sym, ◌∙◌, ap, arith, Bool, true,
  false, ◌&&◌, Option, none, some, [], ◌∷◌, ◌++◌, append_assoc, All, all, leb, ltb, ◌==◌, Eq_nat,
  nat_eq_iff, if◌then◌else◌, length, length-append, Text, Bool-cases, inl, inr,
}
use pqcbridge_legacy_edge_cl.Result.{Result, ok, err}
use pqcbridge_legacy_edge_cl.Encoding.Hex.{hex_digit, hex_value, hex_value-hex_digit}
use pqcbridge_legacy_edge_cl.Encoding.Utf8.{is_surrogate}
use pqcbridge_legacy_edge_cl.Json.Dumps.{unicode_escape, escape_char, escape, quote}
use pqcbridge_legacy_edge_cl.Json.Loads.{
  hex4, unescape_char, Piece, char, close, broken, next_piece, scan_string, join_surrogates,
  scan_text,
}
use pqcbridge_legacy_edge_cl.Json.Strings.Pieces.{
  next_piece-unicode_escape, units, next_piece-escape_char, astral_pieces, scan_piece,
}

-- A code point.
abbrev pub IsChar : ℕ → Type 0
IsChar c = c < 0x110000

scan_close : (f : ℕ) (rest : Text) → scan_string (suc f) (b'"' ∷ rest) ≡ some ([], rest)
unfolding scan_string next_piece
scan_close f [] = refl
scan_close f (c ∷ rest) = refl

escape_empty : escape [] ≡ []
unfolding escape
escape_empty = refl

units_empty : units [] ≡ []
unfolding units
units_empty = refl

predecessor : (f : ℕ) → 0 < f → (g : ℕ) × (f ≡ suc g)
predecessor zero h = elim h [ ]
predecessor (suc g) h = (g, refl)

escape_cons : (c : ℕ) (s t : Text) → escape (c ∷ s) ++ t ≡ escape_char c ++ (escape s ++ t)
unfolding escape
escape_cons c s t = append_assoc (escape_char c) (escape s) t

units-low : (c : ℕ) (s : Text) → ltb c 0x10000 ≡ true → units (c ∷ s) ≡ c ∷ units s
unfolding units
units-low c s h = rw h

units-high :
    (c : ℕ) (s : Text)
    → ltb c 0x10000 ≡ false
    → units (c ∷ s) ≡ (0xd800 + (c - 0x10000) / 1024) ∷ (0xdc00 + (c - 0x10000) % 1024) ∷ units s
unfolding units
units-high c s h = rw h

scan_string-escape :
    (f : ℕ) (s rest : Text)
    → All IsChar s
    → length (units s) < f
    → scan_string f (escape s ++ b'"' ∷ rest) ≡ some (units s, rest)
scan_string-escape zero s rest h k = elim k [ ]
scan_string-escape (suc f) [] rest h k = rw (escape_empty, units_empty) (scan_close f rest)
scan_string-escape (suc f) (c ∷ s) rest (one, more) k =
    let t = escape s ++ b'"' ∷ rest in
    rw (escape_cons c s (b'"' ∷ rest)) (elim (Bool-cases (ltb c 0x10000)) [
      | inl low ↦
          let e = units-low c s low in
          rw e (
            scan_piece f c (escape_char c ++ t) t (units s) rest
              (next_piece-escape_char c t (ground arith))
              (scan_string-escape f s rest more (omega (arith, ap length e))))
      | inr high ↦
          let e = units-high c s high in
          let (g, same) = predecessor f (omega (arith, ap length e)) in
          let a = 0xd800 + (c - 0x10000) / 1024 in
          let b = 0xdc00 + (c - 0x10000) % 1024 in
          rw (e, same, astral_pieces c t high one)
            (scan_piece (suc g) a _ (unicode_escape b ++ t) (b ∷ units s) rest
              (next_piece-unicode_escape a (unicode_escape b ++ t) (omega arith))
              (scan_piece g b _ t (units s) rest (next_piece-unicode_escape b t (omega arith))
                (scan_string-escape g s rest more (omega (arith, ap length e)))))
    ])

-- A code point that is no surrogate: what a UTF-8 text holds.
abbrev pub IsScalar : ℕ → Type 0
IsScalar c = (c < 0x110000) × (is_surrogate c ≡ false)

join-plain :
    (c : ℕ) (s : Text) → is_surrogate c ≡ false → join_surrogates (c ∷ s) ≡ c ∷ join_surrogates s
unfolding join_surrogates
join-plain c [] h = refl
join-plain c (d ∷ s) h =
    let apart : (leb 0xd800 c && leb c 0xdbff && leb 0xdc00 d && leb d 0xdfff) ≡ false =
      ground arith in
    rw apart

join-pair :
    (n : ℕ) (s : Text)
    → n < 0x100000
    → join_surrogates ((0xd800 + n / 1024) ∷ (0xdc00 + n % 1024) ∷ s)
      ≡ (0x10000 + n) ∷ join_surrogates s
unfolding join_surrogates
join-pair n s h =
    let a = 0xd800 + n / 1024 in
    let b = 0xdc00 + n % 1024 in
    let both : (leb 0xd800 a && leb a 0xdbff && leb 0xdc00 b && leb b 0xdfff) ≡ true =
      ground arith in
    let e : 0x10000 + (a - 0xd800) * 1024 + (b - 0xdc00) ≡ 0x10000 + n = omega arith in rw (both, e)

joined_empty : join_surrogates [] ≡ []
unfolding join_surrogates
joined_empty = refl

join_surrogates-units : (s : Text) → All IsScalar s → join_surrogates (units s) ≡ s
join_surrogates-units [] h = rw (units_empty, joined_empty)
join_surrogates-units (c ∷ s) ((fits, whole), more) = elim (Bool-cases (ltb c 0x10000)) [
  | inl low ↦ rw (units-low c s low, join-plain c (units s) whole, join_surrogates-units s more)
  | inr high ↦
      let e : 0x10000 + (c - 0x10000) ≡ c = ground arith in
      rw (
        units-high c s high,
        join-pair (c - 0x10000) (units s) (omega arith),
        join_surrogates-units s more,
        e,
      )
]

escape_char-length : (c : ℕ) → 1 ≤ length (escape_char c)
unfolding escape_char unicode_escape
escape_char-length c = ground arith

unicode_escape-length : (c : ℕ) → length (unicode_escape c) ≡ 6
unfolding unicode_escape
unicode_escape-length c = refl

-- The fuel is enough.
length-units : (s t : Text) → All IsChar s → length (units s) + length t ≤ length (escape s ++ t)
length-units [] t h = rw (units_empty, escape_empty) (omega arith)
length-units (c ∷ s) t (one, more) =
    let rest = escape s ++ t in
    rw (escape_cons c s t) (elim (Bool-cases (ltb c 0x10000)) [
      | inl low ↦ rw (units-low c s low) (
          omega (
            arith,
            length-units s t more,
            length-append (escape_char c) rest,
            escape_char-length c,
          ))
      | inr high ↦
          let a = unicode_escape (0xd800 + (c - 0x10000) / 1024) in
          let b = unicode_escape (0xdc00 + (c - 0x10000) % 1024) in
          rw (units-high c s high, astral_pieces c rest high one)
            (omega (
              arith,
              length-units s t more,
              length-append a (b ++ rest),
              length-append b rest,
              unicode_escape-length (0xd800 + (c - 0x10000) / 1024),
            ))
    ])

pub All-IsChar : (s : Text) → All IsScalar s → All IsChar s
All-IsChar [] h = tt
All-IsChar (c ∷ s) ((fits, whole), more) = (fits, All-IsChar s more)

-- A string that was written is read up to its closing quote.
pub scan_text-escape :
    (s rest : Text) → All IsScalar s → scan_text (escape s ++ b'"' ∷ rest) ≡ ok (s, rest)
unfolding scan_text
scan_text-escape s rest h =
    let chars = All-IsChar s h in
    rw (
      scan_string-escape (suc (length (escape s ++ b'"' ∷ rest))) s rest chars
          (omega (arith, length-units s (b'"' ∷ rest) chars)),
      scan_text,
      join_surrogates-units s h,
    )
