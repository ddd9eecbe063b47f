-- ===== src/Json/RoundTrip/Steps.antt =====
-- One step of `json.loads` into an array or an object whose text has no blanks.
use pqcbridge_legacy_edge_cl.Base.{
  ℕ, suc, ◌≡◌, refl, false, [], ◌∷◌, ◌++◌, append_assoc, All, Text, Eq_text,
}
use pqcbridge_legacy_edge_cl.Result.{ok}
use pqcbridge_legacy_edge_cl.Dict.{put}
use pqcbridge_legacy_edge_cl.Json.{Json, str, arr, obj, Items, nil, cons, end, Message, of_entries}
use pqcbridge_legacy_edge_cl.Json.Dumps.{escape, quote}
use pqcbridge_legacy_edge_cl.Json.Loads.{
  skip_blanks, begins, scan_text, scan_value, scan_tail, scan_pairs,
}
use pqcbridge_legacy_edge_cl.Json.Strings.{IsScalar, scan_text-escape}

quoted : (s t : Text) → All IsScalar s → scan_text ((escape s ++ b'"' ∷ []) ++ t) ≡ ok (s, t)
quoted s t h = rw (append_assoc (escape s) (b'"' ∷ []) t) (scan_text-escape s t h)

pub scan_value-quote :
    (f depth : ℕ) (s t : Text)
    → All IsScalar s
    → scan_value (suc f) depth (quote s ++ t) ≡ ok (str s, t)
unfolding scan_value quote
scan_value-quote f depth s t h = rw (quoted s t h)

module _ (f depth : ℕ) (s rest : Text) (plain : skip_blanks s ≡ s) where
  pub scan_value-arr :
      (vs : Items)
      → begins b']' s ≡ false
      → scan_tail f depth s ≡ ok (vs, rest)
      → scan_value (suc (suc f)) (suc depth) (b'[' ∷ s) ≡ ok (arr vs, rest)
  unfolding scan_value
  scan_value-arr vs begun h = rw (plain, begun, h)

  pub scan_tail-last :
      (v : Json)
      → scan_value f depth s ≡ ok (v, b']' ∷ rest)
      → scan_tail (suc f) depth s ≡ ok (cons v nil, rest)
  unfolding scan_tail
  scan_tail-last v h = rw (plain, h)

  pub scan_tail-more :
      (v : Json) (vs : Items) (t : Text)
      → scan_value f depth s ≡ ok (v, b',' ∷ t)
      → scan_tail f depth t ≡ ok (vs, rest)
      → scan_tail (suc f) depth s ≡ ok (cons v vs, rest)
  unfolding scan_tail
  scan_tail-more v vs t h k = rw (plain, h, k)

  pub scan_pairs-last :
      (d : Message) (k : Text) (v : Json)
      → All IsScalar k
      → scan_value f depth s ≡ ok (v, b'}' ∷ rest)
      → scan_pairs (suc f) depth d (quote k ++ b':' ∷ s) ≡ ok (obj (of_entries (put d k v)), rest)
  unfolding scan_pairs quote
  scan_pairs-last d k v scalars h = rw (quoted k (b':' ∷ s) scalars, plain, h)

  pub scan_pairs-more :
      (d : Message) (k : Text) (v w : Json) (t : Text)
      → All IsScalar k
      → scan_value f depth s ≡ ok (v, b',' ∷ t)
      → scan_pairs f depth (put d k v) t ≡ ok (w, rest)
      → scan_pairs (suc f) depth d (quote k ++ b':' ∷ s) ≡ ok (w, rest)
  unfolding scan_pairs quote
  scan_pairs-more d k v w t scalars h more = rw (quoted k (b':' ∷ s) scalars, plain, h, more)

pub scan_value-obj :
    (f depth : ℕ) (k s rest : Text) (w : Json)
    → scan_pairs f depth [] (quote k ++ s) ≡ ok (w, rest)
    → scan_value (suc (suc f)) (suc depth) (b'{' ∷ (quote k ++ s)) ≡ ok (w, rest)
unfolding scan_value quote
scan_value-obj f depth k s rest w h = h

pub scan_value-nil :
    (f depth : ℕ) (s : Text)
    → scan_value (suc (suc f)) (suc depth) (b'[' ∷ b']' ∷ s) ≡ ok (arr nil, s)
unfolding scan_value
scan_value-nil f depth s = refl

pub scan_value-end :
    (f depth : ℕ) (s : Text)
    → scan_value (suc (suc f)) (suc depth) (b'{' ∷ b'}' ∷ s) ≡ ok (obj end, s)
unfolding scan_value
scan_value-end f depth s = refl
