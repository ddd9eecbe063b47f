-- ===== src/Protocol/Fields/Laws.antt =====
-- The field helpers of common/protocol.py.
use pqcbridge_legacy_edge_cl.Base.{
  ◌≡◌, ◌≢◌, ◌↔◌, true, Option, some, arith, Bytes, Text, AreBytes, [], text_eq_iff, Eq_text, ℤ,
}
use pqcbridge_legacy_edge_cl.Result.{Exn, ok, err, protocol_error}
use pqcbridge_legacy_edge_cl.Dict.{get}
use pqcbridge_legacy_edge_cl.Encoding.Base64.RoundTrip.{b64decode-b64encode}
use pqcbridge_legacy_edge_cl.Json.{Json, str, int, Message}
use pqcbridge_legacy_edge_cl.Protocol.Fields.{
  b64e, b64d, require_str, require_int, is_str, field_is,
}

-- For bytes, a field that b64e wrote is read by b64d as the same bytes.
pub b64d-b64e : (bs : Bytes) → AreBytes bs → b64d (str (b64e bs)) ≡ ok bs
unfolding b64d b64e
b64d-b64e bs h = rw (b64decode-b64encode bs h)

-- The only exception of `b64d` is ProtocolError, whatever the field holds.
pub b64d_errors : (value : Json) (e : Exn) → b64d value ≡ err e → e ≡ protocol_error
unfolding b64d
b64d_errors value e h = ground arith

-- `require_str` returns a text exactly when the field holds that text and it is not empty.
pub require_str_iff :
    (m : Message) (field text : Text)
    → (require_str m field ≡ ok text) ↔ ((get m field ≡ some (str text)) × (text ≢ []))
unfolding require_str
require_str_iff m field text = ground arith

pub require_str_errors :
    (m : Message) (field : Text) (e : Exn) → require_str m field ≡ err e → e ≡ protocol_error
unfolding require_str
require_str_errors m field e h = ground arith

pub require_int_iff :
    (m : Message) (field : Text) (n : ℤ)
    → (require_int m field ≡ ok n) ↔ (get m field ≡ some (int n))
unfolding require_int
require_int_iff m field n = ground arith

is_str_iff : (o : Option Json) (text : Text) → (is_str o text ≡ true) ↔ (o ≡ some (str text))
is_str_iff (some (str s)) text = ground (arith, text_eq_iff s text)
is_str_iff o text = ground arith

pub field_is_iff :
    (m : Message) (field text : Text)
    → (field_is m field text ≡ true) ↔ (get m field ≡ some (str text))
unfolding field_is
field_is_iff m field text = is_str_iff (get m field) text
