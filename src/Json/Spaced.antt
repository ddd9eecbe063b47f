-- ===== src/Json/Spaced.antt =====
-- `json.dumps(value)` with the separators that it takes by default, ", " and ": ".
use pqcbridge_legacy_edge_cl.Base.{[], ◌∷◌, ◌++◌, Text, codes}
use pqcbridge_legacy_edge_cl.Encoding.Decimal.{show_int}
use pqcbridge_legacy_edge_cl.Json.{
  Json, null, bool, int, float, str, arr, obj, Items, nil, cons, Fields, end, field,
}
use pqcbridge_legacy_edge_cl.Json.Dumps.{quote, bool_text}

unfoldable mutual
  unfolding quote show_int

  pub dumps_spaced : Json → Text
  dumps_spaced null = codes "null"
  dumps_spaced (bool b) = bool_text b
  dumps_spaced (int n) = show_int n
  dumps_spaced (float t) = t
  dumps_spaced (str s) = quote s
  dumps_spaced (arr nil) = codes "[]"
  dumps_spaced (arr (cons v vs)) = b'[' ∷ (dumps_spaced v ++ spaced_items vs)
  dumps_spaced (obj end) = codes "{}"
  dumps_spaced (obj (field k v fs)) =
      b'{' ∷ (quote k ++ b':' ∷ b' ' ∷ (dumps_spaced v ++ spaced_fields fs))

  -- the items after the first one, and the bracket
  pub spaced_items : Items → Text
  spaced_items nil = b']' ∷ []
  spaced_items (cons v vs) = b',' ∷ b' ' ∷ (dumps_spaced v ++ spaced_items vs)

  pub spaced_fields : Fields → Text
  spaced_fields end = b'}' ∷ []
  spaced_fields (field k v fs) =
      b',' ∷ b' ' ∷ (quote k ++ b':' ∷ b' ' ∷ (dumps_spaced v ++ spaced_fields fs))
