-- ===== src/Examples/Clouds.antt =====
-- The theorems on the cloud, at concrete inputs.
use pqcbridge_legacy_edge_cl.Base.{
  ◌≡◌, ◌⊎◌, refl, true, false, none, [], ◌∷◌, ◌++◌, Bytes, Text, codes, Eq_text, Eq_nat, text_eq,
  length, some,
}
use pqcbridge_legacy_edge_cl.Result.{ok, err, os_error}
use pqcbridge_legacy_edge_cl.Crypto.Library.{Library, key_length}
use pqcbridge_legacy_edge_cl.Config.{
  Host, gateway_key, gateway_keys, keys_from_env_or_file, load_keys_json,
}
use pqcbridge_legacy_edge_cl.Metrics.{new_metrics}
use pqcbridge_legacy_edge_cl.Replay.{new_guard}
use pqcbridge_legacy_edge_cl.Cloud.Sessions
use pqcbridge_legacy_edge_cl.Cloud.Sessions.{new_registry}
use pqcbridge_legacy_edge_cl.Cloud.Store.{new_store}
use pqcbridge_legacy_edge_cl.Cloud.Server.{
  Link, Cloud, establish_session, handle, authenticate, agree, handle_reading, open_session,
}
use pqcbridge_legacy_edge_cl.Cloud.Server.Admission.{IsAuthenticated, establish_session_admits}
use pqcbridge_legacy_edge_cl.Cloud.Server.Eviction.{handle_evicts, handle_keeps_unfinished}
use pqcbridge_legacy_edge_cl.Dict.{get, put}
use pqcbridge_legacy_edge_cl.Json.Loads.{loads}
use pqcbridge_legacy_edge_cl.Encoding.Utf8.{utf8_decode}
use pqcbridge_legacy_edge_cl.Encoding.Hex.{from_hex}
use pqcbridge_legacy_edge_cl.Encoding.Base64.{b64decode}
use pqcbridge_legacy_edge_cl.Protocol.Fields.{require_str, field_is, b64d}
use pqcbridge_legacy_edge_cl.Protocol.Socket.{sendall}
use pqcbridge_legacy_edge_cl.Json.{Message, str}
use pqcbridge_legacy_edge_cl.Cloud.Processing.{
  decrypt_protected_reading, parse_mlkem_request, parse_mlkem_encaps, verify_gateway_request_auth,
}
use pqcbridge_legacy_edge_cl.Cloud.Server.Readings.{Untouched, Stored, handle_protected_guarded}
use pqcbridge_legacy_edge_cl.Cloud.Server.Ordering.{InOrder, handle-InOrder}
use pqcbridge_legacy_edge_cl.Config.Keys.{keys_from_env_or_file_lem}
use pqcbridge_legacy_edge_cl.Protocol.Stream.{
  read_message, readline, accept_line, parse_line, take_line, ends_with_newline,
}
use pqcbridge_legacy_edge_cl.Crypto.Aead.{item}
use pqcbridge_legacy_edge_cl.Crypto.Tags.{verify_gateway_auth, gateway_fields, open_tag}
use pqcbridge_legacy_edge_cl.Crypto.Kem.{mlkem_decapsulate, derive_session_key}
use pqcbridge_legacy_edge_cl.Examples.Toy.{toy, repeat}

-- A library that accepts every tag: only the order of the steps matters here.
abbrev lenient : Library
lenient = record toy { decrypt = λ key nonce c aad. ok [] }

abbrev pub cloud_host : Host
cloud_host = record {
  library = lenient;
  nesting = 100;
  urandom = λ n. repeat 12 n;
  elapsed = λ n. n;
  environ = (codes "GATEWAY_KEYS_JSON", codes "{\"gw\":\"" ++ repeat 64 97 ++ codes "\"}") ∷ [];
  files = λ path. none;
}

abbrev request_line : Bytes
request_line =
    codes
      "{\"type\":\"mlkem_request_pubkey\",\"gateway_id\":\"gw\",\"auth_nonce\":\"AAAAAAAAAAAAAAAA\",\"auth_tag\":\"AAAA\"}"
    ++ 10 ∷ []

-- 1088 bytes are 1450 characters and the padding.
abbrev pub encaps_line : Bytes
encaps_line =
    codes "{\"type\":\"mlkem_encaps\",\"session_id\":\"s1\",\"ciphertext\":\""
    ++ repeat 1451 65
    ++ codes "=\"}"
    ++ 10 ∷ []

abbrev pub empty_cloud : Cloud
empty_cloud = record {
  cloud_id = codes "cloud-01";
  private_key = [];
  public_key_raw = [];
  registry = new_registry;
  store = new_store 10;
  metrics = new_metrics;
  replay = new_guard;
  measured = 0;
}

abbrev pub gateway_link : Link
gateway_link = record {
  cloud = empty_cloud;
  sock = record { sent = []; faults = [] };
  stream = record { buffer = request_line ++ encaps_line; stalls = false };
}

-- The second send fails: the confirmation of the session is lost.
abbrev broken_link : Link
broken_link = record gateway_link { sock = record { sent = []; faults = false ∷ true ∷ [] } }

establishes : (establish_session cloud_host gateway_link).0 ≡ ok (codes "s1", repeat 32 7)
unfolding establish_session authenticate agree read_message readline accept_line parse_line loads
    take_line ends_with_newline utf8_decode parse_mlkem_request parse_mlkem_encaps require_str
    field_is text_eq get put gateway_key gateway_keys keys_from_env_or_file load_keys_json from_hex
    verify_gateway_request_auth verify_gateway_auth gateway_fields b64d b64decode open_tag item
    mlkem_decapsulate derive_session_key repeat sendall open_session
establishes = refl

loses : (establish_session cloud_host broken_link).0 ≡ err os_error
unfolding establish_session authenticate agree read_message readline accept_line parse_line loads
    take_line ends_with_newline utf8_decode parse_mlkem_request parse_mlkem_encaps require_str
    field_is text_eq get put gateway_key gateway_keys keys_from_env_or_file load_keys_json from_hex
    verify_gateway_request_auth verify_gateway_auth gateway_fields b64d b64decode open_tag item
    mlkem_decapsulate derive_session_key repeat sendall open_session
loses = refl

handle_evicts_example :
    Sessions.get (codes "s1") (handle cloud_host gateway_link).1.cloud.registry ≡ none
handle_evicts_example = handle_evicts cloud_host gateway_link (codes "s1") (repeat 32 7) establishes

handle_keeps_unfinished_example :
    (handle cloud_host broken_link).1.cloud.registry
    ≡ (establish_session cloud_host broken_link).1.cloud.registry
handle_keeps_unfinished_example = handle_keeps_unfinished cloud_host broken_link os_error loses

establish_session_admits_example :
    ((establish_session cloud_host gateway_link).1.cloud.registry ≡ empty_cloud.registry)
    ⊎ ((gateway_id : Text) × IsAuthenticated cloud_host gateway_link gateway_id)
establish_session_admits_example = establish_session_admits cloud_host gateway_link

-- A message of the right type whose ciphertext is missing.
abbrev bare_message : Message
bare_message =
    (codes "type", str (codes "protected_reading")) ∷ (codes "session_id", str (codes "s1")) ∷ []

handle_protected_guarded_example :
    Untouched empty_cloud
      (handle_reading cloud_host (codes "s1") (repeat 32 7) bare_message empty_cloud).1
    ⊎ ((reading : Message) × (decrypt_protected_reading lenient 100 bare_message
            (repeat 32 7)
            (codes "s1")
          ≡ ok reading)
        × Stored reading empty_cloud
            (handle_reading cloud_host (codes "s1") (repeat 32 7) bare_message empty_cloud).1)
handle_protected_guarded_example =
    handle_protected_guarded cloud_host (codes "s1") (repeat 32 7) bare_message empty_cloud

handle-InOrder_example : InOrder (handle cloud_host gateway_link).1.cloud
unfolding new_store
handle-InOrder_example = handle-InOrder cloud_host gateway_link (tt, tt)

loaded_keys :
    keys_from_env_or_file cloud_host (codes "GATEWAY_KEYS_JSON") (codes "GATEWAY_KEYS_FILE") []
    ≡ ok ((codes "gw", repeat 32 170) ∷ [])
unfolding keys_from_env_or_file load_keys_json loads from_hex get put text_eq repeat
loaded_keys = refl

found_key : get ((codes "gw", repeat 32 170) ∷ []) (codes "gw") ≡ some (repeat 32 170)
unfolding get text_eq
found_key = refl

keys_from_env_or_file_lem_example : length (repeat 32 170) ≡ key_length
keys_from_env_or_file_lem_example =
    keys_from_env_or_file_lem cloud_host (codes "GATEWAY_KEYS_JSON") (codes "GATEWAY_KEYS_FILE") []
      ((codes "gw", repeat 32 170) ∷ []) (codes "gw") (repeat 32 170) loaded_keys found_key
