-- ===== src/Json/Loads/Errors.antt =====
-- The exceptions of `loads`: ValueError and RecursionError, and no other.
use pqcbridge_legacy_edge_cl.Base.{
  ℕ, zero, suc, ◌*◌, ◌≡◌, ◌⊎◌, inl, inr, refl, Bool, true, false, Option, none, some, [], ◌∷◌, Text,
  Eq_text, codes, if◌then◌else◌, Option-cases, length,
}
use pqcbridge_legacy_edge_cl.Result.{
  Exn, Result, ok, err, value_error, recursion_error, ◌>>=◌, or_raise,
}
use pqcbridge_legacy_edge_cl.Dict.{put}
use pqcbridge_legacy_edge_cl.Json.{Json, null, bool, float, Message}
use pqcbridge_legacy_edge_cl.Json.Loads.{
  scan_string, scan_text, scan_atom, scan_number, scan_value, scan_items, scan_tail, scan_fields,
  scan_pairs, expect, skip_blanks, word, after_word, loads, number_of, whole_text, whole_part,
}

abbrev pub IsLoadError : Exn → Type 0
IsLoadError e = (e ≡ value_error) ⊎ (e ≡ recursion_error)

-- The result is a value, or one of the two exceptions.
pub data Tame {ℓ} {A : Type ℓ} : Result A → Type ℓ where
  returns : (a : A) → Tame (ok a)
  fails : (e : Exn) → IsLoadError e → Tame (err e)

pub Tame-error {ℓ} : {A : Type ℓ} {e : Exn} → Tame {A = A} (err e) → IsLoadError e
Tame-error (fails e h) = h

no_value {ℓ} : {A : Type ℓ} → Tame {A = A} (err value_error)
no_value = fails value_error (inl refl)

too_deep {ℓ} : {A : Type ℓ} → Tame {A = A} (err recursion_error)
too_deep = fails recursion_error (inr refl)

Tame-bind {ℓ} :
    {A : Type ℓ} {B : Type ℓ} (m : Result A) (f : A → Result B)
    → Tame m
    → ((a : A) → Tame (f a))
    → Tame (m >>= f)
Tame-bind m f (returns a) k = k a
Tame-bind m f (fails e h) k = fails e h

Tame-if {ℓ} : {A : Type ℓ} (b : Bool) (m n : Result A) → Tame m → Tame n → Tame (if b then m else n)
Tame-if true m n h k = h
Tame-if false m n h k = k

scan_text-Tame : (s : Text) → Tame (scan_text s)
unfolding scan_text
scan_text-Tame s = elim (Option-cases (scan_string (suc (length s)) s)) [
  | inl e ↦ rw (e, scan_text) no_value
  | inr (x, e) ↦ rw (e, scan_text) (returns _)
]

number_of-Tame : (minus : Bool) (whole frac exp : Text) → Tame (number_of minus whole frac exp)
unfolding number_of
number_of-Tame minus whole [] [] = Tame-if _ _ _ no_value (returns _)
number_of-Tame minus whole frac exp = returns _

or_raise-Tame {ℓ} : {A : Type ℓ} (o : Option A) → Tame (or_raise o value_error)
or_raise-Tame none = no_value
or_raise-Tame (some a) = returns _

scan_number-Tame : (minus : Bool) (s : Text) → Tame (scan_number minus s)
unfolding scan_number
scan_number-Tame minus s =
    Tame-bind (or_raise (whole_part s) value_error) _ (or_raise-Tame (whole_part s))
      λ x. Tame-bind (number_of minus x.0 _ _) _ (number_of-Tame minus x.0 _ _) (λ v. returns _)

word-Tame :
    (w : Text) (v : Json) (s : Text) (otherwise : Result (Json × Text))
    → Tame otherwise
    → Tame (word w v s otherwise)
word-Tame w v s otherwise h = go (after_word w s)
  where
    go :
        (o : Option Text)
        → Tame {A = Json × Text} (elim o [ none ↦ otherwise | some rest ↦ ok (v, rest) ])
    go none = h
    go (some rest) = returns _

scan_atom-Tame : (s : Text) → Tame (scan_atom s)
unfolding scan_atom
scan_atom-Tame [] = no_value
scan_atom-Tame (c ∷ s) = word-Tame (codes "null") null (c ∷ s) _ (
    word-Tame (codes "true") (bool true) (c ∷ s) _ (
      word-Tame (codes "false") (bool false) (c ∷ s) _ (
        word-Tame (codes "NaN") (float (codes "NaN")) (c ∷ s) _ (
          word-Tame (codes "Infinity") (float (codes "Infinity")) (c ∷ s) _ (
            word-Tame (codes "-Infinity") (float (codes "-Infinity")) (c ∷ s) _
              (Tame-if _ _ _ (scan_number-Tame true s) (scan_number-Tame false (c ∷ s))))))))

expect-Tame : (c : ℕ) (s : Text) → Tame (expect c s)
expect-Tame c [] = no_value
expect-Tame c (d ∷ s) = Tame-if _ _ _ (returns s) no_value

mutual
  unfolding scan_value

  scan_value-Tame : (f depth : ℕ) (s : Text) → Tame (scan_value f depth s)
  scan_value-Tame zero depth s = no_value
  scan_value-Tame (suc f) depth [] = no_value
  scan_value-Tame (suc f) depth (c ∷ s) =
      Tame-if _ _ _ (Tame-bind (scan_text s) _ (scan_text-Tame s) (λ x. returns _)) (
        Tame-if _ _ _ (scan_items-Tame f depth s)
          (Tame-if _ _ _ (scan_fields-Tame f depth [] s) (scan_atom-Tame (c ∷ s))))

  scan_items-Tame : (f depth : ℕ) (s : Text) → Tame (scan_items f depth s)
  scan_items-Tame zero depth s = no_value
  scan_items-Tame (suc f) zero s = too_deep
  scan_items-Tame (suc f) (suc depth) s = Tame-if _ _ _ (returns _) (
      Tame-bind (scan_tail f depth (skip_blanks s)) _ (scan_tail-Tame f depth (skip_blanks s))
        (λ x. returns _))

  scan_tail-Tame : (f depth : ℕ) (s : Text) → Tame (scan_tail f depth s)
  scan_tail-Tame zero depth s = no_value
  scan_tail-Tame (suc f) depth s =
      Tame-bind (scan_value f depth (skip_blanks s)) _ (scan_value-Tame f depth (skip_blanks s))
        λ x. Tame-if _ _ _ (returns _) (
          Tame-bind (expect b',' (skip_blanks x.1)) _ (expect-Tame b',' (skip_blanks x.1)) λ comma.
            Tame-bind (scan_tail f depth comma) _ (scan_tail-Tame f depth comma) (λ y. returns _))

  scan_fields-Tame : (f depth : ℕ) (d : Message) (s : Text) → Tame (scan_fields f depth d s)
  scan_fields-Tame zero depth d s = no_value
  scan_fields-Tame (suc f) zero d s = too_deep
  scan_fields-Tame (suc f) (suc depth) d s =
      Tame-if _ _ _ (returns _) (scan_pairs-Tame f depth d (skip_blanks s))

  scan_pairs-Tame : (f depth : ℕ) (d : Message) (s : Text) → Tame (scan_pairs f depth d s)
  scan_pairs-Tame zero depth d s = no_value
  scan_pairs-Tame (suc f) depth d s =
      Tame-bind (expect b'"' (skip_blanks s)) _ (expect-Tame b'"' (skip_blanks s)) λ opened.
        Tame-bind (scan_text opened) _ (scan_text-Tame opened) λ k.
          Tame-bind (expect b':' (skip_blanks k.1)) _ (expect-Tame b':' (skip_blanks k.1)) λ colon.
            Tame-bind (scan_value f depth (skip_blanks colon)) _
              (scan_value-Tame f depth (skip_blanks colon))
              λ x. Tame-if _ _ _ (returns _) (
                Tame-bind (expect b',' (skip_blanks x.1)) _ (expect-Tame b',' (skip_blanks x.1))
                  λ comma. scan_pairs-Tame f depth (put d k.0 x.0) comma)

whole_text-Tame : (v : Json) (s : Text) → Tame (whole_text v s)
unfolding whole_text
whole_text-Tame v [] = returns _
whole_text-Tame v (c ∷ s) = no_value

-- Whatever the text, `loads` returns, or raises ValueError or RecursionError.
pub loads-Tame : (nesting : ℕ) (s : Text) → Tame (loads nesting s)
unfolding loads
loads-Tame nesting s =
    Tame-bind (scan_value (suc (length s * 3)) nesting (skip_blanks s)) _
      (scan_value-Tame (suc (length s * 3)) nesting (skip_blanks s))
      λ x. whole_text-Tame x.0 (skip_blanks x.1)
