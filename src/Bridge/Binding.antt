-- ===== src/Bridge/Binding.antt =====
-- A reading is bound to the session that it was protected for.
use pqcbridge_legacy_edge_cl.Base.{
  ℕ, ◌≡◌, ◌≢◌, refl, some, [], Bytes, Text, codes, text_eq, text_eq_iff, Eq_text, Bool-cases, inl,
  inr,
}
use mathlib.Core.Path.{subst}
use pqcbridge_legacy_edge_cl.Result.{ok, err, processing_error, >>=-eq-ok, ok-injective}
use pqcbridge_legacy_edge_cl.Dict.{get}
use pqcbridge_legacy_edge_cl.Json.{Message}
use pqcbridge_legacy_edge_cl.Protocol.Fields.{field_is}
use pqcbridge_legacy_edge_cl.Protocol.Fields.Laws.{require_str_iff}
use pqcbridge_legacy_edge_cl.Protocol.Aad.{session_message_aad}
use pqcbridge_legacy_edge_cl.Crypto.Library.{Library}
use pqcbridge_legacy_edge_cl.Crypto.Aead.{encrypt_session_payload}
use pqcbridge_legacy_edge_cl.Gateway.Processing.{build_protected_reading}
use pqcbridge_legacy_edge_cl.Cloud.Processing.{decrypt_protected_reading}
use pqcbridge_legacy_edge_cl.Bridge.Hops.{protected_around}

module _ (lib : Library) (nesting : ℕ) (session_id other : Text) (named : session_id ≢ [])
    (differs : session_id ≢ other) (other_key : Bytes) where
  around_refused :
      (envelope : Message)
      → decrypt_protected_reading lib nesting (protected_around session_id envelope) other_key other
        ≡ err processing_error
  unfolding decrypt_protected_reading field_is get text_eq
  around_refused envelope = elim (Bool-cases (text_eq session_id other)) [
    | inl same ↦ absurd (differs ((text_eq_iff session_id other).0 same))
    | inr apart ↦ rw (
      (require_str_iff (protected_around session_id envelope) (codes "session_id") session_id).1
          (refl, named),
      apart,
    )
  ]

  -- A message that the gateway builds for a session whose id is not empty raises ProcessingError
  -- under any key on a session with another id.
  pub other_session_refused :
      (nonce reading_bytes key : Bytes) (message : Message)
      → build_protected_reading lib nonce reading_bytes key session_id ≡ ok message
      → decrypt_protected_reading lib nesting message other_key other ≡ err processing_error
  unfolding build_protected_reading
  other_session_refused nonce reading_bytes key message built =
      let (aad, bound, h₁) = >>=-eq-ok (session_message_aad session_id) _ built in
      let (envelope, sealed, h₂) =
        >>=-eq-ok (encrypt_session_payload lib nonce key reading_bytes (some aad)) _ h₁ in
      subst (λ m. decrypt_protected_reading lib nesting m other_key other ≡ err processing_error)
        (ok-injective h₂) (around_refused envelope)
