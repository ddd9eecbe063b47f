-- ===== src/Examples/Sealed.antt =====
-- The theorems on encrypted messages and tags, at concrete inputs.
use pqcbridge_legacy_edge_cl.Protocol.Aad.Binding.{
  Claims, of_hello, AreScalar, claims_bytes-injective,
}
use pqcbridge_legacy_edge_cl.Base.{
  ◌≡◌, refl, some, [], ◌∷◌, ◌++◌, length, Bytes, AreBytes, codes, Eq_text, Eq_nat, arith,
}
use pqcbridge_legacy_edge_cl.Result.{ok, err, processing_error}
use pqcbridge_legacy_edge_cl.Dict.{get}
use pqcbridge_legacy_edge_cl.Json.{Json, str, Message}
use pqcbridge_legacy_edge_cl.Encoding.Utf8.{utf8_encode}
use pqcbridge_legacy_edge_cl.Protocol.Fields.{b64e, b64d, cap_chacha20_poly1305}
use pqcbridge_legacy_edge_cl.Protocol.Aad.{
  hello_claims_bytes, gateway_auth_claims_bytes, session_message_aad, encode_utf8,
}
use pqcbridge_legacy_edge_cl.Crypto.Library.{nonce_length}
use pqcbridge_legacy_edge_cl.Crypto.Aead.{encrypt_session_payload}
use pqcbridge_legacy_edge_cl.Crypto.Tags.{build_hello, verify_hello_auth, capability_list}
use pqcbridge_legacy_edge_cl.Crypto.Tags.Verification.{
  verify_hello_auth-build_hello, verify_hello_auth-eq-ok, verify_gateway_auth-build_gateway_auth,
  verify_gateway_auth-eq-ok,
}
use pqcbridge_legacy_edge_cl.Cloud.Processing.{decrypt_protected_reading}
use pqcbridge_legacy_edge_cl.Gateway.Processing.{build_protected_reading}
use pqcbridge_legacy_edge_cl.Bridge.Binding.{other_session_refused}
use pqcbridge_legacy_edge_cl.Examples.Toy.{
  toy, toy-Laws, toy_encrypt, sized, context, unary, repeat,
}
use pqcbridge_legacy_edge_cl.Examples.Sample.{sample_key, sample_nonce, sample_device, sample_text}

-- The tag of the sample device over the claims of its hello, and the hello around it.
abbrev hello_tag : Bytes
hello_tag =
    context sample_key sample_nonce
      (some (hello_claims_bytes (str sample_device) (capability_list (cap_chacha20_poly1305 ∷ []))))
    ++ unary []

abbrev sample_hello : Message
sample_hello =
    (codes "type", str (codes "hello"))
    ∷ (codes "device_id", str sample_device)
    ∷ (codes "capabilities", capability_list (cap_chacha20_poly1305 ∷ []))
    ∷ (codes "auth_nonce", str (b64e sample_nonce))
    ∷ (codes "auth_tag", str (b64e hello_tag))
    ∷ []

built_hello :
    build_hello toy sample_nonce sample_device (cap_chacha20_poly1305 ∷ []) sample_key
    ≡ ok sample_hello
unfolding build_hello toy_encrypt sized repeat
built_hello = refl

nonce_bytes : AreBytes sample_nonce
unfolding repeat
nonce_bytes = ground arith

nonce_sized : length sample_nonce ≡ nonce_length
unfolding repeat
nonce_sized = refl

verify_hello_auth-build_hello_example : verify_hello_auth toy sample_key sample_hello ≡ ok tt
verify_hello_auth-build_hello_example =
    verify_hello_auth-build_hello toy toy-Laws sample_nonce sample_key sample_device
      (cap_chacha20_poly1305 ∷ []) sample_hello nonce_sized nonce_bytes built_hello

verify_hello_auth-eq-ok_example :
    (device_id : Json) × (capabilities : Json) × (auth_nonce : Json) × (auth_tag : Json)
    × (nonce : Bytes) × (tag : Bytes) × (opened : Bytes) × (get sample_hello (codes "device_id")
        ≡ some device_id)
    × (get sample_hello (codes "capabilities") ≡ some capabilities)
    × (get sample_hello (codes "auth_nonce") ≡ some auth_nonce)
    × (get sample_hello (codes "auth_tag") ≡ some auth_tag)
    × (b64d auth_nonce ≡ ok nonce)
    × (b64d auth_tag ≡ ok tag)
    × (length nonce ≡ nonce_length)
    × (toy_encrypt sample_key nonce opened (some (hello_claims_bytes device_id capabilities))
        ≡ ok tag)
verify_hello_auth-eq-ok_example = verify_hello_auth-eq-ok toy sample_key sample_hello toy-Laws (
    verify_hello_auth-build_hello toy toy-Laws sample_nonce sample_key sample_device
      (cap_chacha20_poly1305 ∷ []) sample_hello nonce_sized nonce_bytes built_hello)

abbrev gateway_tag : Bytes
gateway_tag =
    context sample_key sample_nonce (some (gateway_auth_claims_bytes (str (codes "gw-01"))))
    ++ unary []

sealed_claims :
    toy_encrypt sample_key sample_nonce [] (some (gateway_auth_claims_bytes (str (codes "gw-01"))))
    ≡ ok gateway_tag
unfolding toy_encrypt sized repeat
sealed_claims = refl

verify_gateway_auth-eq-ok_example :
    (nonce : Bytes) × (tag : Bytes) × (opened : Bytes) × (b64d (str (b64e sample_nonce)) ≡ ok nonce)
    × (b64d (str (b64e gateway_tag)) ≡ ok tag)
    × (length nonce ≡ nonce_length)
    × (toy_encrypt sample_key nonce opened (some (gateway_auth_claims_bytes (str (codes "gw-01"))))
        ≡ ok tag)
verify_gateway_auth-eq-ok_example =
    verify_gateway_auth-eq-ok toy sample_key (str (codes "gw-01")) (str (b64e sample_nonce))
      (str (b64e gateway_tag)) toy-Laws
      (verify_gateway_auth-build_gateway_auth toy toy-Laws sample_nonce sample_key (codes "gw-01")
        gateway_tag nonce_sized nonce_bytes sealed_claims)

abbrev sealed_text : Bytes → Bytes
sealed_text aad = context sample_key sample_nonce (some aad) ++ unary sample_text

abbrev pub forwarded_reading : Message
forwarded_reading =
    (codes "type", str (codes "protected_reading"))
    ∷ (codes "session_id", str (codes "s1"))
    ∷ (codes "nonce", str (b64e sample_nonce))
    ∷ (codes "ciphertext", str (b64e (sealed_text (codes "s1"))))
    ∷ []

built_forward :
    build_protected_reading toy sample_nonce sample_text sample_key (codes "s1")
    ≡ ok forwarded_reading
unfolding build_protected_reading session_message_aad encode_utf8 encrypt_session_payload
    toy_encrypt sized repeat utf8_encode
built_forward = refl

other_session_refused_example :
    decrypt_protected_reading toy 100 forwarded_reading [] (codes "s2") ≡ err processing_error
other_session_refused_example =
    other_session_refused toy 100 (codes "s1") (codes "s2") (ground arith) (ground arith) []
      sample_nonce sample_text sample_key forwarded_reading built_forward

abbrev claimed : Claims
claimed = of_hello sample_device (cap_chacha20_poly1305 ∷ [])

claimed-AreScalar : AreScalar claimed
claimed-AreScalar = ground arith

claims_bytes-injective_example :
    claimed ≡ of_hello (codes "dev-" ++ codes "01") (cap_chacha20_poly1305 ∷ [])
claims_bytes-injective_example =
    claims_bytes-injective claimed
      (of_hello (codes "dev-" ++ codes "01") (cap_chacha20_poly1305 ∷ [])) claimed-AreScalar
      claimed-AreScalar refl
