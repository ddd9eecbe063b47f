-- ===== src/Json/RoundTrip/Printable.antt =====
-- The values that the program writes as JSON, and the characters of their texts.
use pqcbridge_legacy_edge_cl.Base.{
  ℕ, zero, suc, ◌+◌, ◌-◌, ◌/◌, ◌%◌, ◌<◌, ◌≤◌, ◌≡◌, refl, arith, Bool, true, false, ◌&&◌, none, [],
  ◌∷◌, ◌++◌, append-nil, All, all, ltb, leb, ◌==◌, Eq_nat, Eq_text, if◌then◌else◌, length, Text, ℤ,
  pos, negsuc,
}
use pqcbridge_legacy_edge_cl.Dict.{get}
use pqcbridge_legacy_edge_cl.Encoding.Hex.{hex_digit}
use pqcbridge_legacy_edge_cl.Encoding.Decimal.{show_nat, show_int, is_digit}
use pqcbridge_legacy_edge_cl.Encoding.Decimal.Digits.{show_nat-digits}
use pqcbridge_legacy_edge_cl.Encoding.Utf8.Ascii.{is_shown}
use pqcbridge_legacy_edge_cl.Json.{
  Json, null, bool, int, float, str, arr, obj, Items, nil, cons, Fields, end, field, entries,
}
use pqcbridge_legacy_edge_cl.Json.Dumps.{
  unicode_escape, escape_char, escape, quote, dumps, dumps_items, dumps_fields, bool_text,
}
use pqcbridge_legacy_edge_cl.Json.Strings.{IsChar, IsScalar, All-IsChar}
use pqcbridge_legacy_edge_cl.Json.RoundTrip.Numbers.{decimal}

-- Not more digits than `int` reads.
abbrev pub IsShort : ℤ → Type 0
IsShort (pos n) = length (show_nat n) ≤ 4300
IsShort (negsuc n) = length (show_nat (suc n)) ≤ 4300

-- A number that is written with a fraction and without an exponent.
abbrev pub IsDecimal : Text → Type 0
IsDecimal t =
    (minus : Bool) × (n : ℕ) × (digits : Text) × (t
      ≡ (if minus then b'-' ∷ decimal n digits else decimal n digits))
    × (all is_digit digits ≡ true)
    × (0 < length digits)

abbrev below : ℕ → ℕ
below zero = zero
below (suc depth) = depth

unfoldable mutual
  -- The first argument is how deep arrays and objects may be nested.
  pub IsPrintable : ℕ → Json → Type 0
  IsPrintable depth null = Unit
  IsPrintable depth (bool b) = Unit
  IsPrintable depth (int n) = IsShort n
  IsPrintable depth (float t) = IsDecimal t
  IsPrintable depth (str s) = All IsScalar s
  IsPrintable depth (arr vs) = (0 < depth) × ArePrintable (below depth) vs
  IsPrintable depth (obj fs) = (0 < depth) × HasPrintable (below depth) fs

  pub ArePrintable : ℕ → Items → Type 0
  ArePrintable depth nil = Unit
  ArePrintable depth (cons v vs) = IsPrintable depth v × ArePrintable depth vs

  -- The keys are different.
  pub HasPrintable : ℕ → Fields → Type 0
  HasPrintable depth end = Unit
  HasPrintable depth (field k v fs) =
      All IsScalar k × (get (entries fs) k ≡ none) × IsPrintable depth v × HasPrintable depth fs

all-append :
    (s t : Text) → all is_shown s ≡ true → all is_shown t ≡ true → all is_shown (s ++ t) ≡ true
all-append [] t h k = k
all-append (c ∷ s) t h k = ground (arith, all-append s t)

digits_shown : (s : Text) → all is_digit s ≡ true → all is_shown s ≡ true
digits_shown [] h = refl
digits_shown (c ∷ s) h = ground (arith, digits_shown s)

hex_digit_shown : (n : ℕ) → n < 16 → is_shown (hex_digit n) ≡ true
unfolding hex_digit
hex_digit_shown n h = ground arith

unicode_escape_shown : (c : ℕ) → c < 0x10000 → all is_shown (unicode_escape c) ≡ true
unfolding unicode_escape
unicode_escape_shown c h = rw (
  hex_digit_shown (c / 4096) (omega arith),
  hex_digit_shown (c / 256 % 16) (omega arith),
  hex_digit_shown (c / 16 % 16) (omega arith),
  hex_digit_shown (c % 16) (omega arith),
)

shown_if :
    (b : Bool) (s t : Text)
    → (b ≡ true → all is_shown s ≡ true)
    → (b ≡ false → all is_shown t ≡ true)
    → all is_shown (if b then s else t) ≡ true
shown_if true s t h k = h refl
shown_if false s t h k = k refl

escape_char_shown : (c : ℕ) → c < 0x110000 → all is_shown (escape_char c) ≡ true
unfolding escape_char
escape_char_shown c h =
    let high = 0xd800 + (c - 0x10000) / 1024 in
    let low = 0xdc00 + (c - 0x10000) % 1024 in
    let plain : (leb 32 c && leb c 126) ≡ true → all is_shown (c ∷ []) ≡ true = λ e. ground arith in
    let small : ltb c 0x10000 ≡ true → all is_shown (unicode_escape c) ≡ true =
      λ e. unicode_escape_shown c (ground arith) in
    let pair =
      all-append (unicode_escape high) (unicode_escape low)
        (unicode_escape_shown high (omega arith)) (unicode_escape_shown low (omega arith)) in
    shown_if (c == b'"') _ _ (λ _. refl)
      λ _.
        shown_if (c == b'\\') _ _ (λ _. refl)
          λ _.
            shown_if (c == 8) _ _ (λ _. refl)
              λ _.
                shown_if (c == 9) _ _ (λ _. refl)
                  λ _.
                    shown_if (c == 10) _ _ (λ _. refl)
                      λ _.
                        shown_if (c == 12) _ _ (λ _. refl)
                          λ _.
                            shown_if (c == 13) _ _ (λ _. refl)
                              λ _. shown_if _ _ _ plain λ _. shown_if _ _ _ small (λ _. pair)

escape_shown : (s : Text) → All IsChar s → all is_shown (escape s) ≡ true
unfolding escape
escape_shown [] h = refl
escape_shown (c ∷ s) (one, more) =
    all-append (escape_char c) (escape s) (escape_char_shown c one) (escape_shown s more)

quote_shown :
    (s t : Text) → All IsScalar s → all is_shown t ≡ true → all is_shown (quote s ++ t) ≡ true
unfolding quote
quote_shown s t h k =
    all-append (escape s ++ b'"' ∷ []) t
      (all-append (escape s) (b'"' ∷ []) (escape_shown s (All-IsChar s h)) refl) k

str_shown : (s : Text) → All IsScalar s → all is_shown (quote s) ≡ true
str_shown s h = rw (append-nil (quote s)) at (quote_shown s [] h refl)

show_int_shown : (n : ℤ) → all is_shown (show_int n) ≡ true
unfolding show_int
show_int_shown (pos n) = digits_shown (show_nat n) (show_nat-digits n)
show_int_shown (negsuc n) = digits_shown (show_nat (suc n)) (show_nat-digits (suc n))

decimal_shown : (t : Text) → IsDecimal t → all is_shown t ≡ true
decimal_shown t (minus, n, digits, e, h, k) =
    let plain =
      all-append (show_nat n) (b'.' ∷ digits) (digits_shown (show_nat n) (show_nat-digits n))
        (digits_shown digits h) in
    rw e (shown_if minus _ _ (λ _. plain) (λ _. plain))

bool_text_shown : (b : Bool) → all is_shown (bool_text b) ≡ true
bool_text_shown true = refl
bool_text_shown false = refl

mutual
  unfolding dumps IsPrintable

  pub dumps_shown : (depth : ℕ) (v : Json) → IsPrintable depth v → all is_shown (dumps v) ≡ true
  dumps_shown depth null h = refl
  dumps_shown depth (bool b) h = bool_text_shown b
  dumps_shown depth (int n) h = show_int_shown n
  dumps_shown depth (float t) h = decimal_shown t h
  dumps_shown depth (str s) h = str_shown s h
  dumps_shown depth (arr nil) h = refl
  dumps_shown depth (arr (cons v vs)) (d, (one, more)) =
      all-append (dumps v) (dumps_items vs) (dumps_shown (below depth) v one)
        (dumps_items_shown (below depth) vs more)
  dumps_shown depth (obj end) h = refl
  dumps_shown depth (obj (field k v fs)) (d, (key, new, one, more)) =
      quote_shown k (b':' ∷ (dumps v ++ dumps_fields fs)) key (
        all-append (dumps v) (dumps_fields fs) (dumps_shown (below depth) v one)
          (dumps_fields_shown (below depth) fs more))

  dumps_items_shown :
      (depth : ℕ) (vs : Items) → ArePrintable depth vs → all is_shown (dumps_items vs) ≡ true
  dumps_items_shown depth nil h = refl
  dumps_items_shown depth (cons v vs) (one, more) =
      all-append (dumps v) (dumps_items vs) (dumps_shown depth v one)
        (dumps_items_shown depth vs more)

  dumps_fields_shown :
      (depth : ℕ) (fs : Fields) → HasPrintable depth fs → all is_shown (dumps_fields fs) ≡ true
  dumps_fields_shown depth end h = refl
  dumps_fields_shown depth (field k v fs) (key, new, one, more) =
      quote_shown k (b':' ∷ (dumps v ++ dumps_fields fs)) key (
        all-append (dumps v) (dumps_fields fs) (dumps_shown depth v one)
          (dumps_fields_shown depth fs more))

-- ASCII without control characters is scalar.
pub shown-IsScalar : (s : Text) → all is_shown s ≡ true → All IsScalar s
shown-IsScalar [] h = tt
shown-IsScalar (c ∷ s) h = ((ground arith, ground arith), shown-IsScalar s (ground arith))
