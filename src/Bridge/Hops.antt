-- ===== src/Bridge/Hops.antt =====
-- The two hops of a reading: from the device to the gateway, and from the gateway to the cloud. What
-- one side builds is what the other side accepts and opens.
use mathlib.Core.Path.{subst}
use pqcbridge_legacy_edge_cl.Base.{
  ℕ, ◌≡◌, ◌≢◌, ap, ◌∙◌, refl, Eq_text, some, [], ◌∷◌, length, Bytes, AreBytes, Text, codes, text_eq,
  text_eq_iff, ℤ,
}
use pqcbridge_legacy_edge_cl.Result.{
  ok, legacy_decryption_error, crypto_error, >>=-eq-ok, ok-injective,
}
use pqcbridge_legacy_edge_cl.Dict.{get}
use pqcbridge_legacy_edge_cl.Json.{str, int, Message}
use pqcbridge_legacy_edge_cl.Protocol.Fields.{
  msg_legacy_reading, msg_protected_reading, b64e, require_int, field_is,
}
use pqcbridge_legacy_edge_cl.Protocol.Fields.Laws.{require_str_iff}
use pqcbridge_legacy_edge_cl.Protocol.Aad.{
  legacy_message_aad, session_message_aad, parse_reading_bytes,
}
use pqcbridge_legacy_edge_cl.Crypto.Library.{Library, Laws, nonce_length}
use pqcbridge_legacy_edge_cl.Crypto.Aead.{
  encrypt_legacy_payload, decrypt_legacy_payload, encrypt_session_payload, decrypt_session_payload,
}
use pqcbridge_legacy_edge_cl.Crypto.Aead.RoundTrip.{aead_decrypt-encrypt, aead_encrypt-eq-ok}
use pqcbridge_legacy_edge_cl.Gateway.Processing.{decrypt_legacy_message, build_protected_reading}
use pqcbridge_legacy_edge_cl.Cloud.Processing.{decrypt_protected_reading}
use pqcbridge_legacy_edge_cl.Device.Client.{legacy_reading}

abbrev pub legacy_with : Text → ℤ → Bytes → Bytes → Message
legacy_with device_id sequence nonce ciphertext =
    (codes "type", str msg_legacy_reading)
    ∷ (codes "device_id", str device_id)
    ∷ (codes "seq", int sequence)
    ∷ (codes "nonce", str (b64e nonce))
    ∷ (codes "ciphertext", str (b64e ciphertext))
    ∷ []

abbrev pub protected_with : Text → Bytes → Bytes → Message
protected_with session_id nonce ciphertext =
    (codes "type", str msg_protected_reading)
    ∷ (codes "session_id", str session_id)
    ∷ (codes "nonce", str (b64e nonce))
    ∷ (codes "ciphertext", str (b64e ciphertext))
    ∷ []

abbrev pub legacy_around : Text → ℤ → Message → Message
legacy_around device_id sequence envelope =
    (codes "type", str msg_legacy_reading)
    ∷ (codes "device_id", str device_id)
    ∷ (codes "seq", int sequence)
    ∷ envelope

abbrev pub protected_around : Text → Message → Message
protected_around session_id envelope =
    (codes "type", str msg_protected_reading) ∷ (codes "session_id", str session_id) ∷ envelope

module _ (lib : Library) (laws : Laws lib) (nesting : ℕ) (nonce key : Bytes) where
  legacy_with_opens :
      (device_id : Text) (sequence : ℤ) (plaintext aad ciphertext : Bytes) (reading : Message)
      → length nonce ≡ nonce_length
      → AreBytes nonce
      → parse_reading_bytes nesting plaintext ≡ ok reading
      → legacy_message_aad device_id sequence ≡ ok aad
      → lib.encrypt key nonce plaintext (some aad) ≡ ok ciphertext
      → decrypt_legacy_message lib nesting
          (legacy_with device_id sequence nonce ciphertext)
          key
          device_id
        ≡ ok (plaintext, sequence)
  unfolding decrypt_legacy_message field_is require_int decrypt_legacy_payload get text_eq
  legacy_with_opens device_id sequence plaintext aad ciphertext reading sized bytes parsed bound e =
      rw (
        (text_eq_iff device_id device_id).1 refl,
        bound,
        aead_decrypt-encrypt lib laws (legacy_with device_id sequence nonce ciphertext) key nonce
            plaintext ciphertext (some aad) legacy_decryption_error e sized bytes refl refl,
        parsed,
      )

  -- Under the laws of the library, the gateway opens the message that a device builds with a
  -- twelve-byte nonce for a plaintext that is a reading, under the same key and device id, and
  -- gets the plaintext and the sequence.
  pub decrypt_legacy_message-legacy_reading :
      (device_id : Text) (sequence : ℤ) (plaintext : Bytes) (message reading : Message)
      → length nonce ≡ nonce_length
      → AreBytes nonce
      → parse_reading_bytes nesting plaintext ≡ ok reading
      → legacy_reading lib nonce key device_id sequence plaintext ≡ ok message
      → decrypt_legacy_message lib nesting message key device_id ≡ ok (plaintext, sequence)
  unfolding legacy_reading encrypt_legacy_payload
  decrypt_legacy_message-legacy_reading device_id sequence plaintext message reading sized bytes
        parsed h =
      let (aad, bound, h₁) = >>=-eq-ok (legacy_message_aad device_id sequence) _ h in
      let (envelope, sealed, h₂) =
        >>=-eq-ok (encrypt_legacy_payload lib nonce key plaintext (some aad)) _ h₁ in
      let (c, e, fields) = aead_encrypt-eq-ok lib nonce key plaintext (some aad) envelope sealed in
      let built = ok-injective h₂ in
      subst (λ m. decrypt_legacy_message lib nesting m key device_id ≡ ok (plaintext, sequence))
        (ap (legacy_around device_id sequence) fields ∙ built)
        (legacy_with_opens device_id sequence plaintext aad c reading sized bytes parsed bound e)

  protected_with_opens :
      (session_id : Text) (reading_bytes aad ciphertext : Bytes) (reading : Message)
      → session_id ≢ []
      → length nonce ≡ nonce_length
      → AreBytes nonce
      → parse_reading_bytes nesting reading_bytes ≡ ok reading
      → session_message_aad session_id ≡ ok aad
      → lib.encrypt key nonce reading_bytes (some aad) ≡ ok ciphertext
      → decrypt_protected_reading lib nesting
          (protected_with session_id nonce ciphertext)
          key
          session_id
        ≡ ok reading
  unfolding decrypt_protected_reading field_is decrypt_session_payload get text_eq
  protected_with_opens session_id reading_bytes aad ciphertext reading named sized bytes parsed
        bound e =
      rw (
        (require_str_iff (protected_with session_id nonce ciphertext) (codes "session_id")
              session_id).1
            (refl, named),
        (text_eq_iff session_id session_id).1 refl,
        bound,
        aead_decrypt-encrypt lib laws (protected_with session_id nonce ciphertext) key nonce
            reading_bytes ciphertext (some aad) crypto_error e sized bytes refl refl,
        parsed,
      )

  -- Under the laws of the library, the cloud opens the message that the gateway builds with a
  -- twelve-byte nonce for a plaintext that is a reading, under the same key and a session id that
  -- is not empty, and gets the reading.
  pub decrypt_protected_reading-build_protected_reading :
      (session_id : Text) (reading_bytes : Bytes) (message reading : Message)
      → session_id ≢ []
      → length nonce ≡ nonce_length
      → AreBytes nonce
      → parse_reading_bytes nesting reading_bytes ≡ ok reading
      → build_protected_reading lib nonce reading_bytes key session_id ≡ ok message
      → decrypt_protected_reading lib nesting message key session_id ≡ ok reading
  unfolding build_protected_reading encrypt_session_payload
  decrypt_protected_reading-build_protected_reading session_id reading_bytes message reading named
        sized bytes parsed h =
      let (aad, bound, h₁) = >>=-eq-ok (session_message_aad session_id) _ h in
      let (envelope, sealed, h₂) =
        >>=-eq-ok (encrypt_session_payload lib nonce key reading_bytes (some aad)) _ h₁ in
      let (c, e, fields) =
        aead_encrypt-eq-ok lib nonce key reading_bytes (some aad) envelope sealed in
      subst (λ m. decrypt_protected_reading lib nesting m key session_id ≡ ok reading)
        (ap (protected_around session_id) fields ∙ ok-injective h₂)
        (protected_with_opens session_id reading_bytes aad c reading named sized bytes parsed bound
          e)
