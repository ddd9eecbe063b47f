-- ===== src/Bridge/Messages.antt =====
-- The messages of a reading are objects that `json.dumps` writes.
use pqcbridge_legacy_edge_cl.Base.{ℕ, ◌<◌, refl, All, Bytes, Text, ℤ, codes, Eq_text, text_eq}
use pqcbridge_legacy_edge_cl.Dict.{get}
use pqcbridge_legacy_edge_cl.Encoding.Base64.Shown.{b64encode_shown}
use pqcbridge_legacy_edge_cl.Json.Strings.{IsScalar}
use pqcbridge_legacy_edge_cl.Json.RoundTrip.Printable.{IsShort, IsPrintable, shown-IsScalar}
use pqcbridge_legacy_edge_cl.Protocol.Fields.{b64e, msg_legacy_reading, msg_protected_reading}
use pqcbridge_legacy_edge_cl.Protocol.Stream.Framing.{IsSendable}
use pqcbridge_legacy_edge_cl.Bridge.Hops.{legacy_with, protected_with}

pub b64e-IsScalar : (bs : Bytes) → All IsScalar (b64e bs)
unfolding b64e
b64e-IsScalar bs = shown-IsScalar _ (b64encode_shown bs)

module _ (nesting : ℕ) (deep : 0 < nesting) where
  pub legacy_with-IsSendable :
      (device_id : Text) (sequence : ℤ) (nonce ciphertext : Bytes)
      → All IsScalar device_id
      → IsShort sequence
      → IsSendable nesting (legacy_with device_id sequence nonce ciphertext)
  unfolding IsPrintable get text_eq
  legacy_with-IsSendable device_id sequence nonce ciphertext h k = (
    deep,
    (
      shown-IsScalar (codes "type") refl,
      refl,
      shown-IsScalar msg_legacy_reading refl,
      (
        shown-IsScalar (codes "device_id") refl,
        refl,
        h,
        (
          shown-IsScalar (codes "seq") refl,
          refl,
          k,
          (
            shown-IsScalar (codes "nonce") refl,
            refl,
            b64e-IsScalar nonce,
            (shown-IsScalar (codes "ciphertext") refl, refl, b64e-IsScalar ciphertext, tt),
          ),
        ),
      ),
    ),
  )

  pub protected_with-IsSendable :
      (session_id : Text) (nonce ciphertext : Bytes)
      → All IsScalar session_id
      → IsSendable nesting (protected_with session_id nonce ciphertext)
  unfolding IsPrintable get text_eq
  protected_with-IsSendable session_id nonce ciphertext h = (
    deep,
    (
      shown-IsScalar (codes "type") refl,
      refl,
      shown-IsScalar msg_protected_reading refl,
      (
        shown-IsScalar (codes "session_id") refl,
        refl,
        h,
        (
          shown-IsScalar (codes "nonce") refl,
          refl,
          b64e-IsScalar nonce,
          (shown-IsScalar (codes "ciphertext") refl, refl, b64e-IsScalar ciphertext, tt),
        ),
      ),
    ),
  )
