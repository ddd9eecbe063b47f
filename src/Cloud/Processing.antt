-- ===== src/Cloud/Processing.antt =====
-- cloud/processing.py: the checks of the handshake messages and of a protected reading.
use pqcbridge_legacy_edge_cl.Base.{ℕ, some, ◌==◌, Eq_nat, length, Bytes, Text, text_eq, codes}
use pqcbridge_legacy_edge_cl.Result.{
  Exn, Result, ok, protocol_error, processing_error, rescue, check, ◌>>=◌, ◌>>◌,
}
use pqcbridge_legacy_edge_cl.Json.{str, Message}
use pqcbridge_legacy_edge_cl.Protocol.Fields.{
  msg_mlkem_request_pubkey, msg_mlkem_encaps, msg_protected_reading, b64d, require_str, field_is,
}
use pqcbridge_legacy_edge_cl.Protocol.Aad.{session_message_aad, parse_reading_bytes}
use pqcbridge_legacy_edge_cl.Crypto.Library.{Library, mlkem768_ciphertext_bytes}
use pqcbridge_legacy_edge_cl.Crypto.Aead.{item, decrypt_session_payload}
use pqcbridge_legacy_edge_cl.Crypto.Tags.{verify_gateway_auth}

unfoldable pub parse_mlkem_request : Message → Result Text
parse_mlkem_request request = do
  check (field_is request (codes "type") msg_mlkem_request_pubkey) protocol_error
  gateway_id ← require_str request (codes "gateway_id")
  auth_nonce ← require_str request (codes "auth_nonce")
  auth_tag ← require_str request (codes "auth_tag")
  ok gateway_id

unfoldable pub parse_mlkem_encaps : Message → Result (Text × Bytes)
parse_mlkem_encaps encaps = do
  check (field_is encaps (codes "type") msg_mlkem_encaps) protocol_error
  session_id ← require_str encaps (codes "session_id")
  text ← require_str encaps (codes "ciphertext")
  ciphertext ← b64d (str text)
  check (length ciphertext == mlkem768_ciphertext_bytes) protocol_error
  ok (session_id, ciphertext)

-- except protocol.ProtocolError: raise ProcessingError
abbrev bad_reading : Exn → Exn
bad_reading protocol_error = processing_error
bad_reading e = e

module _ (lib : Library) where
  unfoldable pub verify_gateway_request_auth : Message → Bytes → Result (Unit {0})
  verify_gateway_request_auth request gateway_key = do
    gateway_id ← item request (codes "gateway_id")
    auth_nonce ← item request (codes "auth_nonce")
    auth_tag ← item request (codes "auth_tag")
    verify_gateway_auth lib gateway_key gateway_id auth_nonce auth_tag

  unfoldable pub decrypt_protected_reading : ℕ → Message → Bytes → Text → Result Message
  decrypt_protected_reading nesting message session_key session_id = do
    check (field_is message (codes "type") msg_protected_reading) processing_error
    named ← require_str message (codes "session_id")
    check (text_eq named session_id) processing_error
    aad ← session_message_aad session_id
    plaintext ← decrypt_session_payload lib session_key message (some aad)
    rescue (parse_reading_bytes nesting plaintext) bad_reading
