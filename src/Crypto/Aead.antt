-- ===== src/Crypto/Aead.antt =====
-- common/crypto.py: the AEAD core and its four thin wrappers. The nonce that `os.urandom` draws is
-- an argument.
pub mod RoundTrip
use pqcbridge_legacy_edge_cl.Base.{
  ℕ, Bool, true, false, Option, none, some, [], ◌∷◌, if◌then◌else◌, ◌==◌, Eq_nat, Eq_text, length,
  Bytes, Text, codes,
}
use pqcbridge_legacy_edge_cl.Result.{
  Exn, Result, ok, err, protocol_error, crypto_error, legacy_decryption_error, key_error,
  type_error, invalid_tag, or_raise, rescue, check, ◌>>=◌, ◌>>◌,
}
use pqcbridge_legacy_edge_cl.Dict.{get}
use pqcbridge_legacy_edge_cl.Json.{Json, str, Message}
use pqcbridge_legacy_edge_cl.Protocol.Fields.{b64e, b64d}
use pqcbridge_legacy_edge_cl.Crypto.Library.{Library, nonce_length}

-- message[field]
unfoldable pub item : Message → Text → Result Json
item message field = or_raise (get message field) key_error

-- except (KeyError, TypeError): raise error_cls
abbrev malformed_as : Exn → Exn → Exn
malformed_as error_cls key_error = error_cls
malformed_as error_cls type_error = error_cls
malformed_as error_cls e = e

-- except InvalidTag: raise error_cls
abbrev pub forged_as : Exn → Exn → Exn
forged_as error_cls invalid_tag = error_cls
forged_as error_cls e = e

-- The two fields of an envelope, decoded.
unfoldable pub envelope_fields : Message → Result (Bytes × Bytes)
unfolding item
envelope_fields envelope = do
  nonce ← b64d (← item envelope (codes "nonce"))
  ciphertext ← b64d (← item envelope (codes "ciphertext"))
  ok (nonce, ciphertext)

module _ (lib : Library) where
  unfoldable pub aead_encrypt : Bytes → Bytes → Bytes → Option Bytes → Result Message
  aead_encrypt nonce key plaintext aad = do
    ciphertext ← lib.encrypt key nonce plaintext aad
    ok ((codes "nonce", str (b64e nonce)) ∷ (codes "ciphertext", str (b64e ciphertext)) ∷ [])

  unfoldable pub aead_decrypt : Bytes → Message → Option Bytes → Exn → Result Bytes
  aead_decrypt key envelope aad error_cls = do
    (nonce, ciphertext) ← rescue (envelope_fields envelope) (malformed_as error_cls)
    check (length nonce == nonce_length) protocol_error
    rescue (lib.decrypt key nonce ciphertext aad) (forged_as error_cls)

  unfoldable pub encrypt_legacy_payload : Bytes → Bytes → Bytes → Option Bytes → Result Message
  unfolding aead_encrypt
  encrypt_legacy_payload nonce key plaintext aad = aead_encrypt nonce key plaintext aad

  unfoldable pub decrypt_legacy_payload : Bytes → Message → Option Bytes → Result Bytes
  decrypt_legacy_payload key envelope aad = aead_decrypt key envelope aad legacy_decryption_error

  unfoldable pub encrypt_session_payload : Bytes → Bytes → Bytes → Option Bytes → Result Message
  unfolding aead_encrypt
  encrypt_session_payload nonce key plaintext aad = aead_encrypt nonce key plaintext aad

  unfoldable pub decrypt_session_payload : Bytes → Message → Option Bytes → Result Bytes
  decrypt_session_payload key envelope aad = aead_decrypt key envelope aad crypto_error
