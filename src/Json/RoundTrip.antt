-- ===== src/Json/RoundTrip.antt =====
-- A value that `json.dumps` writes is the value that `json.loads` reads.
pub mod Numbers
pub mod Atoms
pub mod Printable
pub mod Starts
pub mod Keys
pub mod Steps
use pqcbridge_legacy_edge_cl.Base.{
  ℕ, zero, suc, ◌+◌, ◌-◌, ◌*◌, ◌<◌, ◌≤◌, ◌≡◌, refl, sym, ap, ◌∙◌, arith, Bool, true, false, none,
  [], ◌∷◌, ◌++◌, append_assoc, append-nil, All, all, length, length-append, Text, Eq_text, ℤ, pos,
  negsuc,
}
use pqcbridge_legacy_edge_cl.Result.{Result, ok, err}
use pqcbridge_legacy_edge_cl.Dict.{get, put}
use pqcbridge_legacy_edge_cl.Encoding.Decimal.{show_nat, show_int}
use pqcbridge_legacy_edge_cl.Json.{
  Json, null, bool, int, float, str, arr, obj, Items, nil, cons, Fields, end, field, Message,
  entries, of_entries,
}
use pqcbridge_legacy_edge_cl.Json.Dumps.{quote, dumps, dumps_items, dumps_fields}
use pqcbridge_legacy_edge_cl.Json.Loads.{
  skip_blanks, scan_number, scan_atom, scan_value, scan_tail, scan_pairs, loads, whole_text,
  is_blank,
}
use pqcbridge_legacy_edge_cl.Json.Strings.{IsScalar}
use pqcbridge_legacy_edge_cl.Json.RoundTrip.Numbers.{ends_number}
use pqcbridge_legacy_edge_cl.Json.RoundTrip.Atoms.{
  scan_value-null, scan_value-bool, scan_value-int, scan_value-float,
}
use pqcbridge_legacy_edge_cl.Json.RoundTrip.Printable.{
  IsShort, IsDecimal, IsPrintable, ArePrintable, HasPrintable,
}
use pqcbridge_legacy_edge_cl.Json.RoundTrip.Keys.{
  put_all, of_entries-put_all, IsDistinct, HasPrintable-IsDistinct,
}
use pqcbridge_legacy_edge_cl.Json.RoundTrip.Starts.{skip_blanks-dumps, begins-dumps}
use pqcbridge_legacy_edge_cl.Json.RoundTrip.Steps.{
  scan_value-quote, scan_value-arr, scan_tail-last, scan_tail-more, scan_pairs-last,
  scan_pairs-more, scan_value-obj, scan_value-nil, scan_value-end,
}

mutual
  unfolding IsPrintable dumps put_all IsDistinct ends_number

  reads_value :
      (f depth : ℕ) (v : Json) (rest : Text)
      → IsPrintable depth v
      → ends_number rest ≡ true
      → length (dumps v) * 3 < f
      → scan_value f depth (dumps v ++ rest) ≡ ok (v, rest)
  reads_value zero depth v rest h k l = absurd (omega arith)
  reads_value (suc f) depth null rest h k l = scan_value-null f depth rest
  reads_value (suc f) depth (bool b) rest h k l = scan_value-bool f depth b rest
  reads_value (suc f) depth (int n) rest h k l = scan_value-int f depth n rest h k
  reads_value (suc f) depth (float t) rest h k l = scan_value-float f depth t rest h k
  reads_value (suc f) depth (str s) rest h k l = scan_value-quote f depth s rest h
  reads_value (suc f) zero (arr vs) rest (deep, h) k l = absurd (omega arith)
  reads_value (suc f) zero (obj fs) rest (deep, h) k l = absurd (omega arith)
  reads_value (suc zero) (suc depth) (arr nil) rest h k l = absurd (omega arith)
  reads_value (suc zero) (suc depth) (arr (cons v vs)) rest h k l = absurd (omega arith)
  reads_value (suc zero) (suc depth) (obj end) rest h k l = absurd (omega arith)
  reads_value (suc zero) (suc depth) (obj (field key v fs)) rest h k l = absurd (omega arith)
  reads_value (suc (suc f)) (suc depth) (arr nil) rest h k l = scan_value-nil f depth rest
  reads_value (suc (suc f)) (suc depth) (arr (cons v vs)) rest (deep, (one, more)) k l =
      let after = dumps_items vs ++ rest in
      rw (append_assoc (dumps v) (dumps_items vs) rest) (
        scan_value-arr f depth (dumps v ++ after) rest (skip_blanks-dumps depth v one after)
          (cons v vs) (begins-dumps depth v one after)
          (reads_tail f depth v vs rest one more
            (omega (arith, length-append (dumps v) (dumps_items vs)))))
  reads_value (suc (suc f)) (suc depth) (obj end) rest h k l = scan_value-end f depth rest
  reads_value (suc (suc f)) (suc depth) (obj (field key v fs)) rest
        (deep, (scalars, new, one, more)) k l =
      let after = dumps_fields fs ++ rest in
      let behind_key = dumps v ++ dumps_fields fs in
      rw
        (
          append_assoc (quote key) (b':' ∷ behind_key) rest,
          append_assoc (dumps v) (dumps_fields fs) rest,
        )
        (scan_value-obj f depth key (b':' ∷ (dumps v ++ after)) rest _ (
            reads_pairs f depth [] key v fs rest scalars one more (
              omega (
                arith,
                length-append (quote key) (b':' ∷ behind_key),
                length-append (dumps v) (dumps_fields fs),
              )))
          ∙ ap (λ (all : Fields). ok (obj all, rest))
              (of_entries-put_all key v fs (new, HasPrintable-IsDistinct depth fs more)))

  reads_tail :
      (f depth : ℕ) (v : Json) (vs : Items) (rest : Text)
      → IsPrintable depth v
      → ArePrintable depth vs
      → (length (dumps v) + length (dumps_items vs)) * 3 < f
      → scan_tail f depth (dumps v ++ (dumps_items vs ++ rest)) ≡ ok (cons v vs, rest)
  reads_tail zero depth v vs rest h k l = absurd (omega arith)
  reads_tail (suc f) depth v nil rest h k l =
      scan_tail-last f depth _ rest (skip_blanks-dumps depth v h (b']' ∷ rest)) v
        (reads_value f depth v (b']' ∷ rest) h refl (omega arith))
  reads_tail (suc f) depth v (cons w vs) rest h (one, more) l =
      let after = dumps_items vs ++ rest in
      let between = b',' ∷ (dumps w ++ after) in
      rw (append_assoc (dumps w) (dumps_items vs) rest) (
        scan_tail-more f depth (dumps v ++ between) rest (skip_blanks-dumps depth v h between) v
          (cons w vs) (dumps w ++ after) (reads_value f depth v between h refl (omega arith))
          (reads_tail f depth w vs rest one more
            (omega (arith, length-append (dumps w) (dumps_items vs)))))

  reads_pairs :
      (f depth : ℕ) (d : Message) (k : Text) (v : Json) (fs : Fields) (rest : Text)
      → All IsScalar k
      → IsPrintable depth v
      → HasPrintable depth fs
      → (length (dumps v) + length (dumps_fields fs)) * 3 < f
      → scan_pairs f depth d (quote k ++ b':' ∷ (dumps v ++ (dumps_fields fs ++ rest)))
        ≡ ok (obj (of_entries (put_all (put d k v) fs)), rest)
  reads_pairs zero depth d k v fs rest scalars h more l = absurd (omega arith)
  reads_pairs (suc f) depth d k v end rest scalars h more l =
      scan_pairs-last f depth _ rest (skip_blanks-dumps depth v h (b'}' ∷ rest)) d k v scalars
        (reads_value f depth v (b'}' ∷ rest) h refl (omega arith))
  reads_pairs (suc f) depth d k v (field j w fs) rest scalars h (other, new, one, more) l =
      let behind_key = dumps w ++ dumps_fields fs in
      let between = b',' ∷ (quote j ++ b':' ∷ (dumps w ++ (dumps_fields fs ++ rest))) in
      rw
        (
          append_assoc (quote j) (b':' ∷ behind_key) rest,
          append_assoc (dumps w) (dumps_fields fs) rest,
        )
        (scan_pairs-more f depth (dumps v ++ between) rest (skip_blanks-dumps depth v h between) d k
          v _ _ scalars (reads_value f depth v between h refl (omega arith))
          (reads_pairs f depth (put d k v) j w fs rest other one more (
            omega (
              arith,
              length-append (quote j) (b':' ∷ behind_key),
              length-append (dumps w) (dumps_fields fs),
            ))))

-- With fuel for its text, a value is read off the front of a text that does not go on with it.
pub scan_value-dumps :
    (f depth : ℕ) (v : Json) (rest : Text)
    → IsPrintable depth v
    → ends_number rest ≡ true
    → length (dumps v) * 3 < f
    → scan_value f depth (dumps v ++ rest) ≡ ok (v, rest)
scan_value-dumps = reads_value

blanks_end : (blanks : Text) → all is_blank blanks ≡ true → ends_number blanks ≡ true
unfolding ends_number
blanks_end [] h = refl
blanks_end (c ∷ s) h = ground arith

skip_blanks-blanks : (blanks : Text) → all is_blank blanks ≡ true → skip_blanks blanks ≡ []
unfolding skip_blanks
skip_blanks-blanks [] h = refl
skip_blanks-blanks (c ∷ s) h = ground (arith, skip_blanks-blanks s)

-- The text of a value, with any blanks behind it, is read as the value.
pub loads-dumps :
    (nesting : ℕ) (v : Json) (blanks : Text)
    → IsPrintable nesting v
    → all is_blank blanks ≡ true
    → loads nesting (dumps v ++ blanks) ≡ ok v
unfolding loads
loads-dumps nesting v blanks h k = rw (
  skip_blanks-dumps nesting v h blanks,
  scan_value-dumps (suc (length (dumps v ++ blanks) * 3)) nesting v blanks h (blanks_end blanks k)
      (omega (arith, length-append (dumps v) blanks)),
  skip_blanks-blanks blanks k,
  whole_text,
)
