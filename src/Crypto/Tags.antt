-- ===== src/Crypto/Tags.antt =====
-- common/crypto.py: the tags that prove the possession of a key, over an empty plaintext with the
-- claims as associated data: a device's hello, and a gateway's handshake request.
pub mod Verification
use pqcbridge_legacy_edge_cl.Base.{
  ℕ, Option, none, some, List, [], ◌∷◌, map, ◌==◌, Eq_nat, length, Bytes, Text, codes,
}
use pqcbridge_legacy_edge_cl.Result.{
  Exn, Result, ok, err, protocol_error, authentication_error, key_error, type_error, rescue, check,
  ◌>>=◌, ◌>>◌,
}
use pqcbridge_legacy_edge_cl.Json.{Json, str, arr, of_elems, Message}
use pqcbridge_legacy_edge_cl.Protocol.Fields.{msg_hello, b64e, b64d}
use pqcbridge_legacy_edge_cl.Protocol.Aad.{hello_claims_bytes, gateway_auth_claims_bytes}
use pqcbridge_legacy_edge_cl.Crypto.Library.{Library, nonce_length}
use pqcbridge_legacy_edge_cl.Crypto.Aead.{item, forged_as}

abbrev malformed_tag : Exn → Exn
malformed_tag key_error = authentication_error
malformed_tag type_error = authentication_error
malformed_tag protocol_error = authentication_error
malformed_tag e = e

-- The list of strings as the message holds it.
abbrev pub capability_list : List Text → Json
capability_list capabilities = arr (of_elems (map str capabilities))

-- Nonce, tag and claims of a hello, decoded and checked.
unfoldable pub hello_fields : Message → Result (Bytes × Bytes × Bytes)
hello_fields hello = do
  nonce ← b64d (← item hello (codes "auth_nonce"))
  tag ← b64d (← item hello (codes "auth_tag"))
  check (length nonce == nonce_length) protocol_error
  device_id ← item hello (codes "device_id")
  capabilities ← item hello (codes "capabilities")
  ok (nonce, tag, hello_claims_bytes device_id capabilities)

unfoldable pub gateway_fields : Json → Json → Json → Result (Bytes × Bytes × Bytes)
gateway_fields gateway_id auth_nonce auth_tag = do
  nonce ← b64d auth_nonce
  tag ← b64d auth_tag
  check (length nonce == nonce_length) protocol_error
  ok (nonce, tag, gateway_auth_claims_bytes gateway_id)

module _ (lib : Library) where
  unfoldable pub build_hello : Bytes → Text → List Text → Bytes → Result Message
  build_hello nonce device_id capabilities key = do
    let claims = hello_claims_bytes (str device_id) (capability_list capabilities)
    tag ← lib.encrypt key nonce [] (some claims)
    ok (
        (codes "type", str msg_hello)
        ∷ (codes "device_id", str device_id)
        ∷ (codes "capabilities", capability_list capabilities)
        ∷ (codes "auth_nonce", str (b64e nonce))
        ∷ (codes "auth_tag", str (b64e tag))
        ∷ [])

  -- Of a tag that decrypts the plaintext is thrown away.
  unfoldable pub open_tag : Bytes → Bytes × Bytes × Bytes → Result (Unit {0})
  open_tag key (nonce, tag, claims) =
      rescue (do opened ← lib.decrypt key nonce tag (some claims); ok tt)
        (forged_as authentication_error)

  unfoldable pub verify_hello_auth : Bytes → Message → Result (Unit {0})
  verify_hello_auth key hello = do
    fields ← rescue (hello_fields hello) malformed_tag
    open_tag key fields

  unfoldable pub build_gateway_auth : Bytes → Text → Bytes → Result Message
  build_gateway_auth nonce gateway_id key = do
    let claims = gateway_auth_claims_bytes (str gateway_id)
    tag ← lib.encrypt key nonce [] (some claims)
    ok ((codes "auth_nonce", str (b64e nonce)) ∷ (codes "auth_tag", str (b64e tag)) ∷ [])

  unfoldable pub verify_gateway_auth : Bytes → Json → Json → Json → Result (Unit {0})
  verify_gateway_auth key gateway_id auth_nonce auth_tag = do
    fields ← rescue (gateway_fields gateway_id auth_nonce auth_tag) malformed_tag
    open_tag key fields
