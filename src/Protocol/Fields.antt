-- ===== src/Protocol/Fields.antt =====
-- common/protocol.py: message types, base64 fields, the field checks and `encode_message`.
pub mod Laws
use pqcbridge_legacy_edge_cl.Base.{
  ℕ, ◌*◌, Bool, true, false, Option, none, some, List, [], ◌∷◌, ◌++◌, if◌then◌else◌, Bytes, Text,
  Eq_text, text_eq, codes, ℤ,
}
use pqcbridge_legacy_edge_cl.Result.{
  Exn, Result, ok, err, protocol_error, type_error, value_error, or_raise, rescue,
}
use pqcbridge_legacy_edge_cl.Dict.{get}
use pqcbridge_legacy_edge_cl.Encoding.Base64.{b64encode, b64decode}
use pqcbridge_legacy_edge_cl.Json.{Json, null, bool, int, float, str, arr, obj, Message, of_entries}
use pqcbridge_legacy_edge_cl.Json.Dumps.{dumps}

abbrev pub max_message_bytes : ℕ
max_message_bytes = 64 * 1024

abbrev pub msg_hello : Text
msg_hello = codes "hello"

abbrev pub msg_legacy_reading : Text
msg_legacy_reading = codes "legacy_reading"

abbrev pub msg_mlkem_request_pubkey : Text
msg_mlkem_request_pubkey = codes "mlkem_request_pubkey"

abbrev pub msg_mlkem_pubkey : Text
msg_mlkem_pubkey = codes "mlkem_pubkey"

abbrev pub msg_mlkem_encaps : Text
msg_mlkem_encaps = codes "mlkem_encaps"

abbrev pub msg_mlkem_established : Text
msg_mlkem_established = codes "mlkem_established"

abbrev pub msg_protected_reading : Text
msg_protected_reading = codes "protected_reading"

abbrev pub cap_chacha20_poly1305 : Text
cap_chacha20_poly1305 = codes "chacha20-poly1305"

abbrev pub cap_mlkem_768 : Text
cap_mlkem_768 = codes "ml-kem-768"

-- base64.b64encode(data).decode("ascii")
unfoldable pub b64e : Bytes → Text
b64e = b64encode

-- `base64.b64decode(value, validate=True)`: what is no string raises TypeError.
b64decode_value : Json → Result Bytes
b64decode_value (str s) = or_raise (b64decode s) value_error
b64decode_value _ = err type_error

abbrev malformed_base64 : Exn → Exn
malformed_base64 value_error = protocol_error
malformed_base64 type_error = protocol_error
malformed_base64 e = e

-- The argument is what a message holds in a field, so it need not be a string.
unfoldable pub b64d : Json → Result Bytes
unfolding b64decode_value
b64d value = rescue (b64decode_value value) malformed_base64

nonempty_str : Option Json → Result Text
nonempty_str (some (str [])) = err protocol_error
nonempty_str (some (str (c ∷ s))) = ok (c ∷ s)
nonempty_str _ = err protocol_error

unfoldable pub require_str : Message → Text → Result Text
unfolding nonempty_str
require_str message field = nonempty_str (get message field)

plain_int : Option Json → Result ℤ
plain_int (some (int n)) = ok n
plain_int _ = err protocol_error

unfoldable pub require_int : Message → Text → Result ℤ
unfolding plain_int
require_int message field = plain_int (get message field)

-- message.get(field) == text
abbrev is_str : Option Json → Text → Bool
is_str (some (str s)) t = text_eq s t
is_str _ t = false

unfoldable pub field_is : Message → Text → Text → Bool
field_is message field text = is_str (get message field) text

-- `json.dumps` raises for no message that gets here, so only its text is modelled: the one integer
-- that no parser has read, the sequence of a device, is printed by `legacy_message_aad` before, which
-- raises ValueError where it has too many digits.
unfoldable pub encode_message : Message → Bytes
encode_message message = dumps (obj (of_entries message)) ++ 10 ∷ []
