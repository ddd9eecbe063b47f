-- ===== src/Crypto/Aead/RoundTrip.antt =====
-- An envelope that one side encrypts is decrypted by the other, and what is decrypted was encrypted
-- under the key and the context.
use pqcbridge_legacy_edge_cl.Base.{
  ◌≡◌, ◌==◌, Eq_nat, Eq_text, nat_eq_iff, Option, some, [], ◌∷◌, length, Bytes, AreBytes, codes,
}
use pqcbridge_legacy_edge_cl.Result.{
  Exn, ok, protocol_error, check, rescue, >>=-eq-ok, check-eq-ok, rescue-eq-ok, ok-injective,
}
use pqcbridge_legacy_edge_cl.Dict.{get}
use pqcbridge_legacy_edge_cl.Json.{str, Message}
use pqcbridge_legacy_edge_cl.Protocol.Fields.{b64e}
use pqcbridge_legacy_edge_cl.Protocol.Fields.Laws.{b64d-b64e}
use pqcbridge_legacy_edge_cl.Crypto.Library.{Library, Laws, nonce_length}
use pqcbridge_legacy_edge_cl.Crypto.Aead.{
  envelope_fields, aead_encrypt, aead_decrypt, malformed_as, forged_as,
}

-- Two fields, whatever stands before them in the message.
pub envelope_fields_of :
    (m : Message) (nonce ciphertext : Bytes)
    → get m (codes "nonce") ≡ some (str (b64e nonce))
    → get m (codes "ciphertext") ≡ some (str (b64e ciphertext))
    → AreBytes nonce
    → AreBytes ciphertext
    → envelope_fields m ≡ ok (nonce, ciphertext)
unfolding envelope_fields
envelope_fields_of m nonce ciphertext p q h k = rw (p, b64d-b64e nonce h, q, b64d-b64e ciphertext k)

module _ (lib : Library) (laws : Laws lib) where
  -- Decryption with the key and the context that encrypted gives the plaintext back, for every
  -- message that holds the two fields of the envelope.
  pub aead_decrypt-encrypt :
      (m : Message) (key nonce plaintext ciphertext : Bytes) (aad : Option Bytes) (error_cls : Exn)
      → lib.encrypt key nonce plaintext aad ≡ ok ciphertext
      → length nonce ≡ nonce_length
      → AreBytes nonce
      → get m (codes "nonce") ≡ some (str (b64e nonce))
      → get m (codes "ciphertext") ≡ some (str (b64e ciphertext))
      → aead_decrypt lib key m aad error_cls ≡ ok plaintext
  unfolding aead_decrypt
  aead_decrypt-encrypt m key nonce plaintext ciphertext aad error_cls e sized bytes p q = rw (
    envelope_fields_of m nonce ciphertext p q bytes
        (laws.encrypts_bytes key nonce plaintext ciphertext aad e),
    (nat_eq_iff (length nonce) nonce_length).1 sized,
    laws.decrypt-encrypt key nonce plaintext ciphertext aad e,
  )

-- A plaintext is returned only for an envelope whose fields decode, whose nonce has twelve bytes
-- and whose ciphertext the library decrypts to it under the key and the associated data.
pub aead_decrypt-eq-ok :
    (lib : Library) (key : Bytes) (m : Message) (aad : Option Bytes) (error_cls : Exn)
    (plaintext : Bytes)
    → aead_decrypt lib key m aad error_cls ≡ ok plaintext
    → (nonce : Bytes) × (ciphertext : Bytes) × (envelope_fields m ≡ ok (nonce, ciphertext))
      × (length nonce ≡ nonce_length)
      × (lib.decrypt key nonce ciphertext aad ≡ ok plaintext)
unfolding aead_decrypt
aead_decrypt-eq-ok lib key m aad error_cls plaintext h =
    let (fields, decoded, h₁) =
      >>=-eq-ok (rescue (envelope_fields m) (malformed_as error_cls)) _ h in
    let (u, sized, h₂) = >>=-eq-ok (check (length fields.0 == nonce_length) protocol_error) _ h₁ in
    (
      fields.0,
      fields.1,
      rescue-eq-ok (envelope_fields m) (malformed_as error_cls) decoded,
      (nat_eq_iff (length fields.0) nonce_length).0 (check-eq-ok _ protocol_error sized),
      rescue-eq-ok (lib.decrypt key fields.0 fields.1 aad) (forged_as error_cls) h₂,
    )

-- An envelope holds the nonce and the ciphertext of the library.
pub aead_encrypt-eq-ok :
    (lib : Library) (nonce key plaintext : Bytes) (aad : Option Bytes) (envelope : Message)
    → aead_encrypt lib nonce key plaintext aad ≡ ok envelope
    → (ciphertext : Bytes) × (lib.encrypt key nonce plaintext aad ≡ ok ciphertext)
      × ((codes "nonce", str (b64e nonce)) ∷ (codes "ciphertext", str (b64e ciphertext)) ∷ []
          ≡ envelope)
unfolding aead_encrypt
aead_encrypt-eq-ok lib nonce key plaintext aad envelope h =
    let (c, e, h₁) = >>=-eq-ok (lib.encrypt key nonce plaintext aad) _ h in (c, e, ok-injective h₁)
