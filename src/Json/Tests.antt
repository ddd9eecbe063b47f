-- ===== src/Json/Tests.antt =====
-- Runs of the JSON codec.
use pqcbridge_legacy_edge_cl.Base.{◌≡◌, refl, codes, [], ◌∷◌, negsuc, true, Text}
use pqcbridge_legacy_edge_cl.Result.{ok, err, value_error, recursion_error}
use pqcbridge_legacy_edge_cl.Json.{
  Json, int, str, arr, obj, bool, float, of_entries, of_elems, null,
}
use pqcbridge_legacy_edge_cl.Json.Dumps.{dumps}
use pqcbridge_legacy_edge_cl.Json.Loads.{loads}

abbrev sample : Json
sample = obj (
    of_entries (
      (codes "device_id", str (codes "dev-01"))
      ∷ (codes "seq", int (negsuc 11))
      ∷ (codes "caps", arr (of_elems (str (10 ∷ 233 ∷ 0x1f600 ∷ []) ∷ null ∷ [])))
      ∷ (codes "t", float (codes "21.5"))
      ∷ []))

sample_text : Text
unfolding dumps
sample_text = dumps sample

sample_back : loads 2 (dumps sample) ≡ ok sample
unfolding dumps loads
sample_back = refl

blanks_and_repeats :
    loads 9 (codes " { \"a\" : 1 , \"b\":[ true ] , \"a\":-2.5e+3 }\n")
    ≡ ok (
        obj (
          of_entries (
            (codes "a", float (codes "-2.5e+3"))
            ∷ (codes "b", arr (of_elems (bool true ∷ [])))
            ∷ [])))
unfolding loads
blanks_and_repeats = refl

too_deep : loads 2 (codes "[[[]]]") ≡ err recursion_error
unfolding loads
too_deep = refl

no_json : loads 2 (codes "{\"a\" 1}") ≡ err value_error
unfolding loads
no_json = refl
