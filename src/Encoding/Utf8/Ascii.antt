-- ===== src/Encoding/Utf8/Ascii.antt =====
-- The encoding of a text in two parts, and of ASCII.
use pqcbridge_legacy_edge_cl.Base.{
  ℕ, suc, ◌≡◌, refl, sym, ◌∙◌, ap, arith, Bool, true, Option, none, some, some-injective, [], ◌∷◌,
  ◌++◌, append_assoc, all, ltb, leb, ◌&&◌, Bytes, Text, ℤ, pos, negsuc, Bool-cases, inl, inr,
}
use pqcbridge_legacy_edge_cl.Encoding.Decimal.{show_nat, show_int, is_digit}
use pqcbridge_legacy_edge_cl.Encoding.Decimal.Digits.{show_nat-digits}
use pqcbridge_legacy_edge_cl.Encoding.Utf8.{
  utf8_encode, encode_char, is_surrogate, before, utf8_decode, char_before,
}

before-eq-some :
    (b : Bytes) (o : Option Bytes) (out : Bytes)
    → before b o ≡ some out
    → (rest : Bytes) × (o ≡ some rest) × (b ++ rest ≡ out)
unfolding before
before-eq-some b none out h = cc
before-eq-some b (some rest) out h = (rest, refl, cc)

pub utf8_encode-append :
    (s t : Text) (a b : Bytes)
    → utf8_encode s ≡ some a
    → utf8_encode t ≡ some b
    → utf8_encode (s ++ t) ≡ some (a ++ b)
unfolding utf8_encode
utf8_encode-append [] t a b h k = k ∙ ap (λ (p : Bytes). some (p ++ b)) (some-injective h)
utf8_encode-append (c ∷ s) t a b h k = elim (Bool-cases (is_surrogate c)) [
  | inl bad ↦ absurd (cc (rw bad at h))
  | inr plain ↦
      let (rest, e, same) = before-eq-some (encode_char c) (utf8_encode s) a (rw plain at h) in
      rw (plain, utf8_encode-append s t rest b e k, before)
        (ap (λ (p : Bytes). some p)
          (sym (append_assoc (encode_char c) rest b) ∙ ap (λ (p : Bytes). p ++ b) same))
]

abbrev pub is_ascii : ℕ → Bool
is_ascii c = ltb c 0x80

-- ASCII, and no control character.
abbrev pub is_shown : ℕ → Bool
is_shown c = leb 32 c && ltb c 127

pub shown_ascii : (s : Text) → all is_shown s ≡ true → all is_ascii s ≡ true
shown_ascii [] h = refl
shown_ascii (c ∷ s) h = ground (arith, shown_ascii s)

pub utf8_encode-ascii : (s : Text) → all is_ascii s ≡ true → utf8_encode s ≡ some s
unfolding utf8_encode encode_char before
utf8_encode-ascii [] h = refl
utf8_encode-ascii (c ∷ s) h = ground (arith, utf8_encode-ascii s)

digits_ascii : (s : Text) → all is_digit s ≡ true → all is_ascii s ≡ true
digits_ascii [] h = refl
digits_ascii (c ∷ s) h = ground (arith, digits_ascii s)

pub show_int-ascii : (n : ℤ) → all is_ascii (show_int n) ≡ true
unfolding show_int
show_int-ascii (pos n) = digits_ascii (show_nat n) (show_nat-digits n)
show_int-ascii (negsuc n) = digits_ascii (show_nat (suc n)) (show_nat-digits (suc n))

pub utf8_decode-ascii : (s : Text) → all is_ascii s ≡ true → utf8_decode s ≡ some s
unfolding utf8_decode char_before
utf8_decode-ascii [] h = refl
utf8_decode-ascii (a ∷ []) h = ground arith
utf8_decode-ascii (a ∷ b ∷ []) h = ground (arith, utf8_decode-ascii (b ∷ []))
utf8_decode-ascii (a ∷ b ∷ c ∷ []) h = ground (arith, utf8_decode-ascii (b ∷ c ∷ []))
utf8_decode-ascii (a ∷ b ∷ c ∷ d ∷ s) h = ground (arith, utf8_decode-ascii (b ∷ c ∷ d ∷ s))
