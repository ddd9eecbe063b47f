-- ===== src/Json/Injective.antt =====
-- Where two texts that `json.dumps` wrote begin with a string, they begin with the same string.
use pqcbridge_legacy_edge_cl.Base.{
  ℕ, ◌≡◌, refl, sym, ◌∙◌, ap, List, [], ◌∷◌, ◌++◌, append_assoc, All, map, arith, Text,
}
use pqcbridge_legacy_edge_cl.Result.{ok-injective}
use pqcbridge_legacy_edge_cl.Json.{str, arr, Items, of_elems}
use pqcbridge_legacy_edge_cl.Json.Dumps.{escape, quote, dumps, dumps_items}
use pqcbridge_legacy_edge_cl.Json.Loads.{scan_text}
use pqcbridge_legacy_edge_cl.Json.Strings.{IsScalar, scan_text-escape}

pub tail_eq : {c : ℕ} {s t : Text} → ◌≡◌ {A = Text} (c ∷ s) (c ∷ t) → s ≡ t
tail_eq h = cc

pub quote-injective :
    (a b s t : Text)
    → All IsScalar a
    → All IsScalar b
    → quote a ++ s ≡ quote b ++ t
    → (a ≡ b) × (s ≡ t)
unfolding quote
quote-injective a b s t h k e =
    let same : escape a ++ b'"' ∷ s ≡ escape b ++ b'"' ∷ t =
      sym (append_assoc (escape a) (b'"' ∷ []) s)
      ∙ tail_eq e
      ∙ append_assoc (escape b) (b'"' ∷ []) t in
    let read =
      ok-injective (sym (scan_text-escape a s h) ∙ ap scan_text same ∙ scan_text-escape b t k) in
    (ap (λ (p : Text × Text). p.0) read, ap (λ (p : Text × Text). p.1) read)

-- The items that are strings.
abbrev pub strs : List Text → Items
strs l = of_elems (map str l)

pub head_eq : {c d : ℕ} {s t : Text} → ◌≡◌ {A = Text} (c ∷ s) (d ∷ t) → c ≡ d
head_eq h = cc

pub dumps_items-injective :
    (l l' : List Text) (s t : Text)
    → All (All IsScalar) l
    → All (All IsScalar) l'
    → dumps_items (strs l) ++ s ≡ dumps_items (strs l') ++ t
    → (l ≡ l') × (s ≡ t)
unfolding dumps
dumps_items-injective [] [] s t h k e = (refl, tail_eq e)
dumps_items-injective [] (b ∷ l') s t h k e = absurd (omega (arith, head_eq e))
dumps_items-injective (a ∷ l) [] s t h k e = absurd (omega (arith, head_eq e))
dumps_items-injective (a ∷ l) (b ∷ l') s t (one, more) (one', more') e =
    let (same, rest) =
      quote-injective a b (dumps_items (strs l) ++ s) (dumps_items (strs l') ++ t) one one' (
        sym (append_assoc (quote a) (dumps_items (strs l)) s)
        ∙ tail_eq e
        ∙ append_assoc (quote b) (dumps_items (strs l')) t) in
    let (others, ends) = dumps_items-injective l l' s t more more' rest in (rw (same, others), ends)

-- The same for the whole list.
pub dumps-strs-injective :
    (l l' : List Text) (s t : Text)
    → All (All IsScalar) l
    → All (All IsScalar) l'
    → dumps (arr (strs l)) ++ s ≡ dumps (arr (strs l')) ++ t
    → (l ≡ l') × (s ≡ t)
unfolding dumps quote
dumps-strs-injective [] [] s t h k e = (refl, tail_eq (tail_eq e))
dumps-strs-injective [] (b ∷ l') s t h k e = absurd (omega (arith, head_eq (tail_eq e)))
dumps-strs-injective (a ∷ l) [] s t h k e = absurd (omega (arith, head_eq (tail_eq e)))
dumps-strs-injective (a ∷ l) (b ∷ l') s t (one, more) (one', more') e =
    let (same, rest) =
      quote-injective a b (dumps_items (strs l) ++ s) (dumps_items (strs l') ++ t) one one' (
        sym (append_assoc (quote a) (dumps_items (strs l)) s)
        ∙ tail_eq e
        ∙ append_assoc (quote b) (dumps_items (strs l')) t) in
    let (others, ends) = dumps_items-injective l l' s t more more' rest in (rw (same, others), ends)
