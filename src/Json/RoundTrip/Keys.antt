-- ===== src/Json/RoundTrip/Keys.antt =====
-- Fields with different keys, put into a `dict` one after another, are the `dict` in their order.
use pqcbridge_legacy_edge_cl.Base.{
  ℕ, ◌≡◌, refl, sym, ap, ◌∙◌, arith, none, some, [], ◌∷◌, ◌++◌, append_assoc, append-nil, ◌==◌,
  Eq_text, Text, Bool-cases, Option-cases, inl, inr,
}
use pqcbridge_legacy_edge_cl.Dict.{get, put, get-put, put-new}
use pqcbridge_legacy_edge_cl.Json.{Json, Fields, end, field, Message, entries, of_entries}
use pqcbridge_legacy_edge_cl.Json.RoundTrip.Printable.{HasPrintable}

unfoldable pub put_all : Message → Fields → Message
put_all d end = d
put_all d (field k v fs) = put_all (put d k v) fs

-- A key of the fields is not in the `dict`.
IsApart : Message → Fields → Type 0
IsApart d fs = (j : Text) (w : Json) → get d j ≡ some w → get (entries fs) j ≡ none

-- No key stands twice.
unfoldable pub IsDistinct : Fields → Type 0
IsDistinct end = Unit
IsDistinct (field k v fs) = (get (entries fs) k ≡ none) × IsDistinct fs

apart_head :
    (d : Message) (k : Text) (v : Json) (fs : Fields) → IsApart d (field k v fs) → get d k ≡ none
unfolding IsApart get
apart_head d k v fs h = elim (Option-cases (get d k)) [
  | inl e ↦ e
  | inr (w, e) ↦ absurd (ground (arith, h k w e, Eq_text.beq_iff k k))
]

put-IsApart :
    (d : Message) (k : Text) (v : Json) (fs : Fields)
    → IsApart d (field k v fs)
    → get (entries fs) k ≡ none
    → IsApart (put d k v) fs
unfolding IsApart get
put-IsApart d k v fs h new j w e = elim (Bool-cases (k == j)) [
  | inl same ↦ rw ((Eq_text.beq_iff k j).0 same) at new
  | inr other ↦ rw other at (h j w (sym (get-put d k j v ∙ rw other) ∙ e))
]

put_all-apart :
    (d : Message) (fs : Fields) → IsApart d fs → IsDistinct fs → put_all d fs ≡ d ++ entries fs
unfolding put_all IsDistinct
put_all-apart d end h k = sym (append-nil d)
put_all-apart d (field k v fs) h (new, more) =
    put_all-apart (put d k v) fs (put-IsApart d k v fs h new) more
    ∙ ap (λ (e : Message). e ++ entries fs) (put-new d k v (apart_head d k v fs h))
    ∙ append_assoc d ((k, v) ∷ []) (entries fs)

of_entries-entries : (fs : Fields) → of_entries (entries fs) ≡ fs
of_entries-entries end = refl
of_entries-entries (field k v fs) = ap (field k v) (of_entries-entries fs)

pub of_entries-put_all :
    (k : Text) (v : Json) (fs : Fields)
    → IsDistinct (field k v fs)
    → of_entries (put_all (put [] k v) fs) ≡ field k v fs
unfolding put_all IsApart get
of_entries-put_all k v fs h =
    ap of_entries (put_all-apart [] (field k v fs) (λ j w e. absurd cc) h)
    ∙ of_entries-entries (field k v fs)

pub HasPrintable-IsDistinct : (depth : ℕ) (fs : Fields) → HasPrintable depth fs → IsDistinct fs
unfolding HasPrintable IsDistinct
HasPrintable-IsDistinct depth end h = tt
HasPrintable-IsDistinct depth (field k v fs) (scalars, new, one, more) =
    (new, HasPrintable-IsDistinct depth fs more)
