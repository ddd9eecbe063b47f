-- ===== src/Bootstrap/Search.antt =====
-- What the search for the fingerprint finds.
use pqcbridge_legacy_edge_cl.Base.{
  ◌≡◌, refl, ap, sym, ◌∙◌, arith, Bool, true, false, ◌&&◌, some, some-injective, [], ◌∷◌, ◌++◌,
  length, take, drop, take-append-drop, all, ◌==◌, Eq_nat, nat_eq_iff, Text, Bool-cases, inl, inr,
  Option-cases, append_assoc,
}
use mathlib.Core.Path.{subst}
use pqcbridge_legacy_edge_cl.Result.{ok, or_raise-eq-ok, system_exit}
use pqcbridge_legacy_edge_cl.Json.Loads.{after_word}
use pqcbridge_legacy_edge_cl.Bootstrap.{
  is_hex, fingerprint_length, starts_run, search_run, after_last, rsplit_last, label,
  extract_fingerprint,
}

-- A fingerprint as SHA-256 has one: 64 lower case hexadecimal digits.
abbrev pub IsFingerprint : Text → Type 0
IsFingerprint s = (length s ≡ fingerprint_length) × (all is_hex s ≡ true)

abbrev pub PartOf : Text → Text → Type 0
PartOf s t = (before after : Text) × (before ++ (s ++ after) ≡ t)

and_parts : (a b : Bool) → (a && b) ≡ true → (a ≡ true) × (b ≡ true)
and_parts true b h = (refl, h)
and_parts false b h = cc

starts_run-IsFingerprint :
    (s : Text) → starts_run s ≡ true → IsFingerprint (take fingerprint_length s)
unfolding starts_run
starts_run-IsFingerprint s h =
    let (sized, hexadecimal) =
      and_parts (length (take fingerprint_length s) == fingerprint_length)
        (all is_hex (take fingerprint_length s)) h in
    ((nat_eq_iff (length (take fingerprint_length s)) fingerprint_length).0 sized, hexadecimal)

found_here :
    (s run : Text)
    → starts_run s ≡ true
    → some (take fingerprint_length s) ≡ some run
    → IsFingerprint run × PartOf run s
found_here s run starts h =
    let same = some-injective h in
    (
      subst IsFingerprint same (starts_run-IsFingerprint s starts),
      (
        [],
        drop fingerprint_length s,
        ap (λ (t : Text). t ++ drop fingerprint_length s) (sym same)
            ∙ take-append-drop fingerprint_length s,
      ),
    )

search_run_found : (s run : Text) → search_run s ≡ some run → IsFingerprint run × PartOf run s
unfolding search_run
search_run_found [] run h = cc
search_run_found (c ∷ s) run h = elim (Bool-cases (starts_run (c ∷ s))) [
  | inl here ↦ found_here (c ∷ s) run here (rw here at h)
  | inr later ↦
      let (fits, (before, after, parts)) = search_run_found s run (rw later at h) in
      (fits, (c ∷ before, after, ap (λ (t : Text). c ∷ t) parts))
]

PartOf-append : (p s t : Text) → PartOf s t → PartOf s (p ++ t)
PartOf-append p s t (before, after, parts) =
    (p ++ before, after, append_assoc p before (s ++ after) ∙ ap (λ (u : Text). p ++ u) parts)

after_word-PartOf : (w s rest : Text) → after_word w s ≡ some rest → w ++ rest ≡ s
unfolding after_word
after_word-PartOf [] s rest h = ground arith
after_word-PartOf (c ∷ w) [] rest h = cc
after_word-PartOf (c ∷ w) (d ∷ s) rest h =
    ground (arith, nat_eq_iff c d, after_word-PartOf w s rest)

after_last-parts :
    (w s rest : Text) → after_last w s ≡ some rest → (before : Text) × (before ++ (w ++ rest) ≡ s)
unfolding after_last
after_last-parts w [] rest h = ([], after_word-PartOf w [] rest h)
after_last-parts w (c ∷ s) rest h = elim (Option-cases (after_last w s)) [
  | inl absent ↦ ([], after_word-PartOf w (c ∷ s) rest (rw absent at h))
  | inr (t, there) ↦
      let (before, parts) = after_last-parts w s rest (there ∙ (rw there at h)) in
      (c ∷ before, ap (λ (u : Text). c ∷ u) parts)
]

rsplit_last-suffix : (w s : Text) → (before : Text) × (before ++ rsplit_last w s ≡ s)
unfolding rsplit_last
rsplit_last-suffix w s = elim (Option-cases (after_last w s)) [
  | inl absent ↦ rw (absent, rsplit_last) ([], refl)
  | inr (rest, there) ↦
      let (before, parts) = after_last-parts w s rest there in
      rw (there, rsplit_last) (before ++ w, append_assoc before w rest ∙ parts)
]

-- A fingerprint that the script extracts has 64 lower case hexadecimal digits and stands in the
-- logs.
pub extract_fingerprint_found :
    (logs fingerprint : Text)
    → extract_fingerprint logs ≡ ok fingerprint
    → IsFingerprint fingerprint × PartOf fingerprint logs
unfolding extract_fingerprint
extract_fingerprint_found logs fingerprint h =
    let (fits, part) =
      search_run_found (rsplit_last label logs) fingerprint (or_raise-eq-ok _ system_exit h) in
    let (before, parts) = rsplit_last-suffix label logs in
    (
      fits,
      subst (PartOf fingerprint) parts
          (PartOf-append before fingerprint (rsplit_last label logs) part),
    )
