-- ===== src/Gateway/Processing.antt =====
-- gateway/processing.py: the hello policy, the checks of the handshake replies, the pin of the
-- cloud's key, and the two directions of a reading.
pub mod Policy
pub mod Pin
use pqcbridge_legacy_edge_cl.Base.{
  ℕ, Bool, true, false, ◌&&◌, Option, none, some, List, [], ◌∷◌, ◌++◌, ltb, if◌then◌else◌, ◌==◌,
  Eq_nat, Eq_text, all, length, Bytes, Text, text_eq, codes, ℤ,
}
use pqcbridge_legacy_edge_cl.Result.{
  Exn, Result, ok, err, protocol_error, processing_error, crypto_error, authentication_error,
  type_error, rescue, check, ◌>>=◌, ◌>>◌,
}
use pqcbridge_legacy_edge_cl.Dict.{get}
use pqcbridge_legacy_edge_cl.Json.{Json, str, arr, Items, nil, cons, Message}
use pqcbridge_legacy_edge_cl.Protocol.Fields.{
  msg_hello, msg_mlkem_pubkey, msg_mlkem_established, msg_legacy_reading, msg_protected_reading,
  cap_mlkem_768, cap_chacha20_poly1305, b64d, require_str, require_int, field_is,
}
use pqcbridge_legacy_edge_cl.Protocol.Aad.{
  legacy_message_aad, session_message_aad, parse_reading_bytes,
}
use pqcbridge_legacy_edge_cl.Crypto.Library.{Library, mlkem768_public_key_bytes}
use pqcbridge_legacy_edge_cl.Crypto.Aead.{decrypt_legacy_payload, encrypt_session_payload}
use pqcbridge_legacy_edge_cl.Crypto.Tags.{verify_hello_auth}
use pqcbridge_legacy_edge_cl.Crypto.Kem.{public_key_fingerprint}

-- ALLOW_FALLBACK and the REJECT_* constants
pub data Decision : Type 0 where
  allow_fallback reject_unknown_device reject_unauthenticated : Decision
  reject_modern reject_ambiguous reject_no_capabilities : Decision

-- isinstance(value, list) and all(isinstance(item, str) for item in value)
unfoldable pub strings : Items → Bool
strings nil = true
strings (cons (str s) vs) = strings vs
strings (cons _ vs) = false

is_string_list : Option Json → Bool
unfolding strings
is_string_list (some (arr vs)) = strings vs
is_string_list _ = false

unfoldable pub parse_hello : Message → Result Message
unfolding is_string_list
parse_hello message = do
  check (field_is message (codes "type") msg_hello) protocol_error
  device_id ← require_str message (codes "device_id")
  check (is_string_list (get message (codes "capabilities"))) protocol_error
  auth_nonce ← require_str message (codes "auth_nonce")
  auth_tag ← require_str message (codes "auth_tag")
  ok message

pub data Posture : Type 0 where
  legacy modern both unknown : Posture

-- capability in capabilities
unfoldable pub claims : Items → Text → Bool
claims nil capability = false
claims (cons (str s) vs) capability = if text_eq s capability then true else claims vs capability
claims (cons _ vs) capability = claims vs capability

unfoldable pub determine_path : Items → Posture
determine_path capabilities =
    let has_modern = claims capabilities cap_mlkem_768 in
    let has_legacy = claims capabilities cap_chacha20_poly1305 in
    if has_modern && has_legacy
    then both
    else if has_modern
    then modern
    else if has_legacy
    then legacy
    else unknown

abbrev pub decide_path : Posture → Decision
decide_path legacy = allow_fallback
decide_path modern = reject_modern
decide_path both = reject_ambiguous
decide_path unknown = reject_no_capabilities

-- The list of a parsed hello; `parse_hello` has made sure that it is one.
unfoldable pub hello_capabilities : Message → Items
hello_capabilities hello = elim (get hello (codes "capabilities")) [
  | some v ↦ elim v [ arr vs ↦ vs | _ ↦ nil ]
  | none ↦ nil
]

unfoldable pub parse_mlkem_pubkey_reply : Message → Result Bytes
parse_mlkem_pubkey_reply reply = do
  check (field_is reply (codes "type") msg_mlkem_pubkey) protocol_error
  cloud_id ← require_str reply (codes "cloud_id")
  text ← require_str reply (codes "public_key")
  raw ← b64d (str text)
  check (length raw == mlkem768_public_key_bytes) protocol_error
  ok raw

unfoldable pub parse_mlkem_established_reply : Message → Text → Result (Unit {0})
parse_mlkem_established_reply reply expected_session_id = do
  check (field_is reply (codes "type") msg_mlkem_established) protocol_error
  session_id ← require_str reply (codes "session_id")
  check (text_eq session_id expected_session_id) protocol_error

-- secrets.compare_digest: two strings are compared only if both are ASCII
unfoldable pub compare_digest : Text → Text → Result Bool
compare_digest s t =
    if all (λ c. ltb c 128) s && all (λ c. ltb c 128) t then ok (text_eq s t) else err type_error

is_empty : Text → Bool
is_empty [] = true
is_empty (_ ∷ _) = false

-- except protocol.ProtocolError: raise ProcessingError
abbrev pub bad_reading : Exn → Exn
bad_reading protocol_error = processing_error
bad_reading e = e

module _ (lib : Library) where
  unfoldable pub verdict : Result (Unit {0}) → Items → Result Decision
  verdict (ok u) capabilities = ok (decide_path (determine_path capabilities))
  verdict (err authentication_error) capabilities = ok reject_unauthenticated
  verdict (err e) capabilities = err e

  -- `device_key` is None for an unknown device
  unfoldable pub evaluate_hello : Message → Option Bytes → Result Decision
  unfolding verdict
  evaluate_hello hello none = ok reject_unknown_device
  evaluate_hello hello (some device_key) =
      verdict (verify_hello_auth lib device_key hello) (hello_capabilities hello)

  unfoldable pub verify_cloud_public_key : Bytes → Text → Result (Unit {0})
  unfolding is_empty
  verify_cloud_public_key raw_public_key expected_fingerprint =
      if is_empty expected_fingerprint then err crypto_error else do
        same ← compare_digest (public_key_fingerprint lib raw_public_key) expected_fingerprint
        check same crypto_error

  unfoldable pub decrypt_legacy_message : ℕ → Message → Bytes → Text → Result (Bytes × ℤ)
  decrypt_legacy_message nesting message key expected_device_id = do
    check (field_is message (codes "type") msg_legacy_reading) processing_error
    check (field_is message (codes "device_id") expected_device_id) processing_error
    sequence ← require_int message (codes "seq")
    aad ← legacy_message_aad expected_device_id sequence
    plaintext ← decrypt_legacy_payload lib key message (some aad)
    reading ← rescue (parse_reading_bytes nesting plaintext) bad_reading
    ok (plaintext, sequence)

  -- The nonce of the envelope is an argument.
  unfoldable pub build_protected_reading : Bytes → Bytes → Bytes → Text → Result Message
  build_protected_reading nonce reading_bytes session_key session_id = do
    aad ← session_message_aad session_id
    envelope ← encrypt_session_payload lib nonce session_key reading_bytes (some aad)
    ok ((codes "type", str msg_protected_reading) ∷ (codes "session_id", str session_id) ∷ envelope)
