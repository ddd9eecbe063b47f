-- ===== src/Protocol/Aad.antt =====
-- common/protocol.py: the contexts that authenticated messages are bound to, and the check of a
-- decrypted reading.
pub mod Binding
use pqcbridge_legacy_edge_cl.Base.{
  ℕ, Bool, true, false, ◌&&◌, none, some, [], ◌∷◌, ◌++◌, if◌then◌else◌, Bytes, Text, Eq_text, codes,
  ℤ,
}
use pqcbridge_legacy_edge_cl.Result.{
  Exn, Result, ok, err, protocol_error, value_error, or_raise, rescue, ◌>>=◌,
}
use pqcbridge_legacy_edge_cl.Dict.{get}
use pqcbridge_legacy_edge_cl.Encoding.Utf8.{utf8_encode, utf8_decode}
use pqcbridge_legacy_edge_cl.Encoding.Integer.{str_int}
use pqcbridge_legacy_edge_cl.Json.{Json, str, obj, Message, entries, of_entries}
use pqcbridge_legacy_edge_cl.Json.Dumps.{dumps}
use pqcbridge_legacy_edge_cl.Json.Loads.{loads}

-- text.encode("utf-8")
unfoldable pub encode_utf8 : Text → Result Bytes
unfolding utf8_encode
encode_utf8 s = or_raise (utf8_encode s) value_error

unfoldable pub legacy_message_aad : Text → ℤ → Result Bytes
unfolding encode_utf8 str_int
legacy_message_aad device_id sequence = do
  shown ← str_int sequence
  encode_utf8 (device_id ++ b':' ∷ shown)

unfoldable pub session_message_aad : Text → Result Bytes
unfolding encode_utf8
session_message_aad session_id = encode_utf8 session_id

-- The text of `json.dumps` is ASCII, so it is its own encoding. The arguments are what the message
-- holds in the two fields.
unfoldable pub hello_claims_bytes : Json → Json → Bytes
unfolding dumps
hello_claims_bytes device_id capabilities =
    dumps (
      obj (of_entries ((codes "device_id", device_id) ∷ (codes "capabilities", capabilities) ∷ [])))

unfoldable pub gateway_auth_claims_bytes : Json → Bytes
unfolding dumps
gateway_auth_claims_bytes gateway_id = dumps (
    obj (
      of_entries (
        (codes "gateway_id", gateway_id)
        ∷ (codes "scope", str (codes "gateway-cloud-handshake"))
        ∷ [])))

abbrev has : Message → Text → Bool
has message key = elim (get message key) [ none ↦ false | some v ↦ true ]

-- required.issubset(reading)
unfoldable pub has_required_fields : Message → Bool
has_required_fields reading =
    has reading (codes "device_id")
    && has reading (codes "timestamp")
    && has reading (codes "temperature_c")
    && has reading (codes "sequence")

as_reading : Json → Result Message
as_reading (obj fs) =
    if has_required_fields (entries fs) then ok (entries fs) else err protocol_error
as_reading _ = err protocol_error

reading_json : ℕ → Bytes → Result Json
reading_json nesting plaintext = do
  text ← or_raise (utf8_decode plaintext) value_error
  loads nesting text

abbrev not_json : Exn → Exn
not_json value_error = protocol_error
not_json e = e

unfoldable pub parse_reading_bytes : ℕ → Bytes → Result Message
unfolding reading_json as_reading has_required_fields
parse_reading_bytes nesting plaintext = do
  reading ← rescue (reading_json nesting plaintext) not_json
  as_reading reading
