-- ===== src/Crypto/Tags/Verification.antt =====
-- Tags of hellos and of gateway requests: what a built one verifies as, and what a verified one shows.
use pqcbridge_legacy_edge_cl.Base.{
  ◌≡◌, ◌==◌, Eq_nat, Eq_text, nat_eq_iff, some, List, [], ◌∷◌, arith, length, Bytes, AreBytes, Text,
  codes, text_eq,
}
use pqcbridge_legacy_edge_cl.Result.{
  ok, protocol_error, authentication_error, check, rescue, >>=-eq-ok, check-eq-ok, rescue-eq-ok,
  or_raise-eq-ok, key_error, ok-injective,
}
use pqcbridge_legacy_edge_cl.Dict.{get}
use pqcbridge_legacy_edge_cl.Json.{Json, str, Message}
use mathlib.Core.Path.{subst}
use pqcbridge_legacy_edge_cl.Protocol.Fields.{msg_hello, b64e, b64d}
use pqcbridge_legacy_edge_cl.Protocol.Fields.Laws.{b64d-b64e}
use pqcbridge_legacy_edge_cl.Protocol.Aad.{hello_claims_bytes, gateway_auth_claims_bytes}
use pqcbridge_legacy_edge_cl.Crypto.Library.{Library, Laws, nonce_length}
use pqcbridge_legacy_edge_cl.Crypto.Aead.{item, forged_as}
use pqcbridge_legacy_edge_cl.Crypto.Tags.{
  hello_fields, gateway_fields, build_hello, open_tag, verify_hello_auth, verify_gateway_auth,
  capability_list, malformed_tag,
}

-- A tag that opens is the encryption of some plaintext under the key, with the claims as context.
open_tag-eq-ok :
    (lib : Library) (key nonce tag context : Bytes)
    → Laws lib
    → open_tag lib key (nonce, tag, context) ≡ ok tt
    → (opened : Bytes) × (lib.encrypt key nonce opened (some context) ≡ ok tag)
unfolding open_tag
open_tag-eq-ok lib key nonce tag context laws h =
    let (opened, e, _) =
      >>=-eq-ok (lib.decrypt key nonce tag (some context)) (λ (o : Bytes). ok tt)
        (rescue-eq-ok _ (forged_as authentication_error) h) in
    (opened, laws.encrypt-decrypt key nonce opened tag (some context) e)

-- The decoded fields of a hello: a nonce of twelve bytes, a tag, and the claims of the hello.
hello_fields-eq-ok :
    (hello : Message) (nonce tag context : Bytes)
    → hello_fields hello ≡ ok (nonce, tag, context)
    → (device_id : Json) × (capabilities : Json) × (auth_nonce : Json) × (auth_tag : Json) × (get
          hello
          (codes "device_id")
        ≡ some device_id)
      × (get hello (codes "capabilities") ≡ some capabilities)
      × (get hello (codes "auth_nonce") ≡ some auth_nonce)
      × (get hello (codes "auth_tag") ≡ some auth_tag)
      × (b64d auth_nonce ≡ ok nonce)
      × (b64d auth_tag ≡ ok tag)
      × (hello_claims_bytes device_id capabilities ≡ context)
      × (length nonce ≡ nonce_length)
unfolding hello_fields item
hello_fields-eq-ok hello nonce tag context h =
    let (a, a_is, h₁) = >>=-eq-ok (item hello (codes "auth_nonce")) _ h in
    let (n, n_is, h₂) = >>=-eq-ok (b64d a) _ h₁ in
    let (b, b_is, h₃) = >>=-eq-ok (item hello (codes "auth_tag")) _ h₂ in
    let (t, t_is, h₄) = >>=-eq-ok (b64d b) _ h₃ in
    let (u, sized, h₅) = >>=-eq-ok (check (length n == nonce_length) protocol_error) _ h₄ in
    let (d, d_is, h₆) = >>=-eq-ok (item hello (codes "device_id")) _ h₅ in
    let (c, c_is, h₇) = >>=-eq-ok (item hello (codes "capabilities")) _ h₆ in
    (
      d,
      c,
      a,
      b,
      or_raise-eq-ok _ key_error d_is,
      or_raise-eq-ok _ key_error c_is,
      or_raise-eq-ok _ key_error a_is,
      or_raise-eq-ok _ key_error b_is,
      ground arith,
      ground arith,
      ground arith,
      ground (arith, nat_eq_iff (length n) nonce_length, check-eq-ok _ protocol_error sized),
    )

-- Under the laws of the library, a hello is verified only if its auth_nonce decodes to a
-- twelve-byte nonce and its auth_tag to an encryption under the device's key with that nonce,
-- whose associated data are the device id and the capabilities of the hello.
pub verify_hello_auth-eq-ok :
    (lib : Library) (key : Bytes) (hello : Message)
    → Laws lib
    → verify_hello_auth lib key hello ≡ ok tt
    → (device_id : Json) × (capabilities : Json) × (auth_nonce : Json) × (auth_tag : Json)
      × (nonce : Bytes) × (tag : Bytes) × (opened : Bytes) × (get hello (codes "device_id")
          ≡ some device_id)
      × (get hello (codes "capabilities") ≡ some capabilities)
      × (get hello (codes "auth_nonce") ≡ some auth_nonce)
      × (get hello (codes "auth_tag") ≡ some auth_tag)
      × (b64d auth_nonce ≡ ok nonce)
      × (b64d auth_tag ≡ ok tag)
      × (length nonce ≡ nonce_length)
      × (lib.encrypt key nonce opened (some (hello_claims_bytes device_id capabilities)) ≡ ok tag)
unfolding verify_hello_auth
verify_hello_auth-eq-ok lib key hello laws h =
    let (f, decoded, h₁) = >>=-eq-ok (rescue (hello_fields hello) malformed_tag) _ h in
    let (opened, e) = open_tag-eq-ok lib key f.0 f.1 f.2 laws h₁ in
    let (d, c, a, b, d_is, c_is, a_is, b_is, n_is, t_is, context, sized) =
      hello_fields-eq-ok hello f.0 f.1 f.2
        (rescue-eq-ok (hello_fields hello) malformed_tag decoded) in
    (d, c, a, b, f.0, f.1, opened, d_is, c_is, a_is, b_is, n_is, t_is, sized, rw context e)

-- The hello of a device, around a tag.
abbrev hello_with : Text → List Text → Bytes → Bytes → Message
hello_with device_id capabilities nonce tag =
    (codes "type", str msg_hello)
    ∷ (codes "device_id", str device_id)
    ∷ (codes "capabilities", capability_list capabilities)
    ∷ (codes "auth_nonce", str (b64e nonce))
    ∷ (codes "auth_tag", str (b64e tag))
    ∷ []

module _ (lib : Library) (laws : Laws lib) (nonce key : Bytes) where
  verify-hello_with :
      (device_id : Text) (capabilities : List Text) (tag : Bytes)
      → length nonce ≡ nonce_length
      → AreBytes nonce
      → lib.encrypt key nonce []
          (some (hello_claims_bytes (str device_id) (capability_list capabilities)))
        ≡ ok tag
      → verify_hello_auth lib key (hello_with device_id capabilities nonce tag) ≡ ok tt
  unfolding verify_hello_auth hello_fields item open_tag get text_eq
  verify-hello_with device_id capabilities tag sized bytes e = rw (
    b64d-b64e nonce bytes,
    b64d-b64e tag (laws.encrypts_bytes key nonce [] tag _ e),
    (nat_eq_iff (length nonce) nonce_length).1 sized,
    laws.decrypt-encrypt key nonce [] tag _ e,
  )

  -- Under the laws of the library, the hello that a device builds with its key and a twelve-byte
  -- nonce verifies under that key.
  pub verify_hello_auth-build_hello :
      (device_id : Text) (capabilities : List Text) (hello : Message)
      → length nonce ≡ nonce_length
      → AreBytes nonce
      → build_hello lib nonce device_id capabilities key ≡ ok hello
      → verify_hello_auth lib key hello ≡ ok tt
  unfolding build_hello
  verify_hello_auth-build_hello device_id capabilities hello sized bytes h =
      let (tag, e, h₁) =
        >>=-eq-ok
          (lib.encrypt key nonce []
            (some (hello_claims_bytes (str device_id) (capability_list capabilities))))
          (λ (t : Bytes). ok (hello_with device_id capabilities nonce t)) h in
      subst (λ m. verify_hello_auth lib key m ≡ ok tt) (ok-injective h₁)
        (verify-hello_with device_id capabilities tag sized bytes e)

  -- Under the laws of the library, the fields that a gateway builds with its key and a twelve-byte
  -- nonce verify under that key for its own id.
  pub verify_gateway_auth-build_gateway_auth :
      (gateway_id : Text) (tag : Bytes)
      → length nonce ≡ nonce_length
      → AreBytes nonce
      → lib.encrypt key nonce [] (some (gateway_auth_claims_bytes (str gateway_id))) ≡ ok tag
      → verify_gateway_auth lib key (str gateway_id) (str (b64e nonce)) (str (b64e tag)) ≡ ok tt
  unfolding verify_gateway_auth gateway_fields open_tag
  verify_gateway_auth-build_gateway_auth gateway_id tag sized bytes e = rw (
    b64d-b64e nonce bytes,
    b64d-b64e tag (laws.encrypts_bytes key nonce [] tag _ e),
    (nat_eq_iff (length nonce) nonce_length).1 sized,
    laws.decrypt-encrypt key nonce [] tag _ e,
  )

-- Under the laws of the library, a gateway is verified only if its tag decodes to an encryption
-- under its key, with a twelve-byte nonce, whose associated data are the claims for the gateway
-- id.
pub verify_gateway_auth-eq-ok :
    (lib : Library) (key : Bytes) (gateway_id auth_nonce auth_tag : Json)
    → Laws lib
    → verify_gateway_auth lib key gateway_id auth_nonce auth_tag ≡ ok tt
    → (nonce : Bytes) × (tag : Bytes) × (opened : Bytes) × (b64d auth_nonce ≡ ok nonce)
      × (b64d auth_tag ≡ ok tag)
      × (length nonce ≡ nonce_length)
      × (lib.encrypt key nonce opened (some (gateway_auth_claims_bytes gateway_id)) ≡ ok tag)
unfolding verify_gateway_auth gateway_fields
verify_gateway_auth-eq-ok lib key gateway_id auth_nonce auth_tag laws h =
    let (f, decoded, h₁) =
      >>=-eq-ok (rescue (gateway_fields gateway_id auth_nonce auth_tag) malformed_tag) _ h in
    let (n, n_is, h₂) = >>=-eq-ok (b64d auth_nonce) _ (rescue-eq-ok _ malformed_tag decoded) in
    let (t, t_is, h₃) = >>=-eq-ok (b64d auth_tag) _ h₂ in
    let (u, sized, h₄) = >>=-eq-ok (check (length n == nonce_length) protocol_error) _ h₃ in
    let (opened, e) = open_tag-eq-ok lib key f.0 f.1 f.2 laws h₁ in
    (
      n,
      t,
      opened,
      n_is,
      t_is,
      (nat_eq_iff (length n) nonce_length).0 (check-eq-ok _ protocol_error sized),
      ground (arith, ok-injective h₄),
    )
