-- ===== src/Json/Strings/Pieces.antt =====
-- What `json.loads` reads for each character that `json.dumps` writes.
use pqcbridge_legacy_edge_cl.Base.{
  ℕ, suc, ◌+◌, ◌-◌, ◌*◌, ◌/◌, ◌%◌, ◌<◌, ◌≡◌, refl, arith, true, false, ◌&&◌, some, [], ◌∷◌, ◌++◌,
  append_assoc, leb, ltb, ◌==◌, Eq_nat, nat_eq_iff, if◌then◌else◌, Text, Bool-cases, inl, inr,
}
use pqcbridge_legacy_edge_cl.Encoding.Hex.{hex_digit, hex_value-hex_digit}
use pqcbridge_legacy_edge_cl.Json.Dumps.{unicode_escape, escape_char}
use pqcbridge_legacy_edge_cl.Json.Loads.{hex4, unescape_char, char, next_piece, scan_string}

hex4-digits :
    (c : ℕ) (t : Text)
    → c < 0x10000
    → hex4 (
        hex_digit (c / 4096)
        ∷ hex_digit (c / 256 % 16)
        ∷ hex_digit (c / 16 % 16)
        ∷ hex_digit (c % 16)
        ∷ t)
      ≡ some (c, t)
unfolding hex4
hex4-digits c t h =
    let e : c / 4096 * 4096 + c / 256 % 16 * 256 + c / 16 % 16 * 16 + c % 16 ≡ c = omega arith in
    rw (
      hex_value-hex_digit (c / 4096) (omega arith),
      hex_value-hex_digit (c / 256 % 16) (omega arith),
      hex_value-hex_digit (c / 16 % 16) (omega arith),
      hex_value-hex_digit (c % 16) (omega arith),
      hex4,
      e,
    )

pub next_piece-unicode_escape :
    (c : ℕ) (t : Text) → c < 0x10000 → next_piece (unicode_escape c ++ t) ≡ char c t
unfolding next_piece unicode_escape
next_piece-unicode_escape c t h = rw (hex4-digits c t h)

plain_piece :
    (c : ℕ) (t : Text)
    → (c == b'"') ≡ false
    → (c == b'\\') ≡ false
    → ltb c 32 ≡ false
    → next_piece (c ∷ t) ≡ char c t
unfolding next_piece
plain_piece c [] h k l = rw (h, k, l)
plain_piece c (d ∷ t) h k l = rw (h, k, l)

-- A character outside the first plane is two units.
abbrev units_of : ℕ → Text → Text
units_of c s =
    if ltb c 0x10000
    then c ∷ s
    else (0xd800 + (c - 0x10000) / 1024) ∷ (0xdc00 + (c - 0x10000) % 1024) ∷ s

unfoldable pub units : Text → Text
units [] = []
units (c ∷ s) = units_of c (units s)

module _ (c : ℕ) (t : Text) where
  -- The characters that are escaped by a letter or by themselves.
  short_piece :
      (d : ℕ)
      → (c == d) ≡ true
      → next_piece (escape_char d ++ t) ≡ char d t
      → next_piece (escape_char c ++ t) ≡ char c t
  short_piece d same h = rw ((nat_eq_iff c d).0 same) h

  pub next_piece-escape_char : c < 0x10000 → next_piece (escape_char c ++ t) ≡ char c t
  unfolding escape_char next_piece unescape_char
  next_piece-escape_char h = elim (Bool-cases (c == b'"')) [
    | inl same ↦ short_piece b'"' same refl
    | inr n₁ ↦ elim (Bool-cases (c == b'\\')) [
      | inl same ↦ short_piece b'\\' same refl
      | inr n₂ ↦ elim (Bool-cases (c == 8)) [
        | inl same ↦ short_piece 8 same refl
        | inr n₃ ↦ elim (Bool-cases (c == 9)) [
          | inl same ↦ short_piece 9 same refl
          | inr n₄ ↦ elim (Bool-cases (c == 10)) [
            | inl same ↦ short_piece 10 same refl
            | inr n₅ ↦ elim (Bool-cases (c == 12)) [
              | inl same ↦ short_piece 12 same refl
              | inr n₆ ↦ elim (Bool-cases (c == 13)) [
                | inl same ↦ short_piece 13 same refl
                | inr n₇ ↦ elim (Bool-cases (leb 32 c && leb c 126)) [
                  | inl shown ↦
                      rw (n₁, n₂, n₃, n₄, n₅, n₆, n₇, shown) (plain_piece c t n₁ n₂ (ground arith))
                  | inr hidden ↦
                      let low : ltb c 0x10000 ≡ true = ground arith in
                      rw (n₁, n₂, n₃, n₄, n₅, n₆, n₇, hidden, low) (next_piece-unicode_escape c t h)
                ]
              ]
            ]
          ]
        ]
      ]
    ]
  ]

  pub astral_pieces :
      ltb c 0x10000 ≡ false
      → c < 0x110000
      → (escape_char c ++ t
          ≡ unicode_escape (0xd800 + (c - 0x10000) / 1024)
            ++ (unicode_escape (0xdc00 + (c - 0x10000) % 1024) ++ t))
  unfolding escape_char
  astral_pieces high fits =
      let n₁ : (c == b'"') ≡ false = ground arith in
      let n₂ : (c == b'\\') ≡ false = ground arith in
      let n₃ : (c == 8) ≡ false = ground arith in
      let n₄ : (c == 9) ≡ false = ground arith in
      let n₅ : (c == 10) ≡ false = ground arith in
      let n₆ : (c == 12) ≡ false = ground arith in
      let n₇ : (c == 13) ≡ false = ground arith in
      let hidden : (leb 32 c && leb c 126) ≡ false = ground arith in
      rw (n₁, n₂, n₃, n₄, n₅, n₆, n₇, hidden, high)
        (append_assoc (unicode_escape (0xd800 + (c - 0x10000) / 1024))
          (unicode_escape (0xdc00 + (c - 0x10000) % 1024)) t)

pub scan_piece :
    (f c : ℕ) (s rest out after : Text)
    → next_piece s ≡ char c rest
    → scan_string f rest ≡ some (out, after)
    → scan_string (suc f) s ≡ some (c ∷ out, after)
unfolding scan_string
scan_piece f c s rest out after h k = rw (h, scan_string, k)
