-- ===== src/Config/Keys.antt =====
-- common/config.py: the lengths of the keys in a registry.
use pqcbridge_legacy_edge_cl.Base.{
  ◌≡◌, arith, some, [], ◌∷◌, length, Bytes, Text, Eq_text, Eq_nat, ◌==◌, nat_eq_iff,
}
use pqcbridge_legacy_edge_cl.Result.{ok, >>=-eq-ok, check, check-eq-ok, value_error, ok-injective}
use pqcbridge_legacy_edge_cl.Dict.{Dict, get, put, get-put}
use pqcbridge_legacy_edge_cl.Json.{Message}
use pqcbridge_legacy_edge_cl.Json.Loads.{loads}
use pqcbridge_legacy_edge_cl.Crypto.Library.{key_length}
use pqcbridge_legacy_edge_cl.Config.{
  Host, fromhex, load_entries, items_of, load_keys_json, keys_document, keys_from_env_or_file,
}

-- Every key that is found has the length of a key.
abbrev KeysFit : Dict Text Bytes → Type 0
KeysFit registry = (id : Text) (key : Bytes) → get registry id ≡ some key → length key ≡ key_length

put-KeysFit :
    (registry : Dict Text Bytes) (id : Text) (key : Bytes)
    → KeysFit registry
    → length key ≡ key_length
    → KeysFit (put registry id key)
put-KeysFit registry id key fits sized other found h =
    ground (arith, get-put registry id other key, fits other found)

load_entries-KeysFit :
    (items : Message) (start registry : Dict Text Bytes)
    → KeysFit start
    → load_entries start items ≡ ok registry
    → KeysFit registry
unfolding load_entries
load_entries-KeysFit [] start registry fits h =
    λ id key there. fits id key (rw (ok-injective h) there)
load_entries-KeysFit ((key_id, key_hex) ∷ rest) start registry fits h =
    let (key, decoded, h₁) = >>=-eq-ok (fromhex key_hex) _ h in
    let (u, sized, h₂) = >>=-eq-ok (check (length key == key_length) value_error) _ h₁ in
    load_entries-KeysFit rest (put start key_id key) registry
      (put-KeysFit start key_id key fits
        ((nat_eq_iff (length key) key_length).0 (check-eq-ok _ value_error sized)))
      h₂

empty-KeysFit : KeysFit []
unfolding get
empty-KeysFit id key there = cc

-- Every key that is found in a registry that was loaded from a variable or a file has 32 bytes.
pub keys_from_env_or_file_lem :
    (host : Host) (inline_env file_env demo_path : Text) (registry : Dict Text Bytes) (id : Text)
    (key : Bytes)
    → keys_from_env_or_file host inline_env file_env demo_path ≡ ok registry
    → get registry id ≡ some key
    → length key ≡ key_length
unfolding keys_from_env_or_file load_keys_json
keys_from_env_or_file_lem host inline_env file_env demo_path registry id key h there =
    let (document, picked, h₁) =
      >>=-eq-ok
        (keys_document host (get host.environ inline_env) (get host.environ file_env) demo_path) _
        h in
    let (parsed, parsing, h₂) = >>=-eq-ok (loads host.nesting document) _ h₁ in
    let (items, is_object, h₃) = >>=-eq-ok (items_of parsed) _ h₂ in
    load_entries-KeysFit items [] registry empty-KeysFit h₃ id key there
