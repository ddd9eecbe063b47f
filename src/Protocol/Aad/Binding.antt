-- ===== src/Protocol/Aad/Binding.antt =====
-- The claims that tags are computed over: different claims have different bytes.
use pqcbridge_legacy_edge_cl.Base.{
  ℕ, ◌≡◌, refl, sym, ◌∙◌, ap, arith, Bool, true, List, [], ◌∷◌, ◌++◌, All, all, ltb, Bytes, Text,
  codes,
}
use pqcbridge_legacy_edge_cl.Json.{str, arr}
use pqcbridge_legacy_edge_cl.Json.Dumps.{dumps, quote}
use pqcbridge_legacy_edge_cl.Json.Strings.{IsScalar}
use pqcbridge_legacy_edge_cl.Json.Injective.{
  tail_eq, head_eq, strs, quote-injective, dumps-strs-injective,
}
use pqcbridge_legacy_edge_cl.Protocol.Aad.{hello_claims_bytes, gateway_auth_claims_bytes}

-- What a device claims in its hello, and what a gateway claims in its request.
pub data Claims : Type 0 where
  of_hello : Text → List Text → Claims
  of_gateway : Text → Claims

abbrev pub claims_bytes : Claims → Bytes
claims_bytes (of_hello device_id capabilities) =
    hello_claims_bytes (str device_id) (arr (strs capabilities))
claims_bytes (of_gateway gateway_id) = gateway_auth_claims_bytes (str gateway_id)

-- All names are texts without surrogates.
abbrev pub AreScalar : Claims → Type 0
AreScalar (of_hello device_id capabilities) =
    All IsScalar device_id × All (All IsScalar) capabilities
AreScalar (of_gateway gateway_id) = All IsScalar gateway_id

abbrev is_plain : ℕ → Bool
is_plain c = ltb c 0x80

plain-All : (s : Text) → all is_plain s ≡ true → All IsScalar s
plain-All [] h = tt
plain-All (c ∷ s) h = (ground arith, plain-All s (ground arith))

hello_parts :
    (a : Text) (l : List Text)
    → claims_bytes (of_hello a l)
      ≡ b'{'
        ∷ (quote (codes "device_id")
            ++ b':'
              ∷ (quote a
                  ++ b','
                    ∷ (quote (codes "capabilities") ++ b':' ∷ (dumps (arr (strs l)) ++ b'}' ∷ []))))
unfolding hello_claims_bytes dumps
hello_parts a l = refl

gateway_parts :
    (a : Text)
    → claims_bytes (of_gateway a)
      ≡ b'{'
        ∷ (quote (codes "gateway_id")
            ++ b':'
              ∷ (quote a
                  ++ b','
                    ∷ (quote (codes "scope")
                        ++ b':' ∷ (quote (codes "gateway-cloud-handshake") ++ b'}' ∷ []))))
unfolding gateway_auth_claims_bytes dumps
gateway_parts a = refl

-- A brace, a key and a colon.
key_eq :
    (k k' s t : Text)
    → all is_plain k ≡ true
    → all is_plain k' ≡ true
    → b'{' ∷ (quote k ++ b':' ∷ s) ≡ b'{' ∷ (quote k' ++ b':' ∷ t)
    → (k ≡ k') × (s ≡ t)
key_eq k k' s t h h' e =
    let (same, rest) =
      quote-injective k k' (b':' ∷ s) (b':' ∷ t) (plain-All k h) (plain-All k' h') (tail_eq e) in
    (same, tail_eq rest)

-- The bytes that a tag authenticates tell the claims apart: two hellos with the same bytes have
-- the same device id and the same list of capabilities, two gateway requests the same gateway id,
-- and a hello never has the bytes of a gateway request, for texts without surrogates.
pub claims_bytes-injective :
    (x y : Claims) → AreScalar x → AreScalar y → claims_bytes x ≡ claims_bytes y → x ≡ y
claims_bytes-injective (of_hello a l) (of_hello b l') (h, more) (h', more') e =
    let (k, e₁) =
      key_eq (codes "device_id") (codes "device_id") _ _ refl refl
        (sym (hello_parts a l) ∙ e ∙ hello_parts b l') in
    let (same, e₂) = quote-injective a b _ _ h h' e₁ in
    let (k₂, e₃) =
      quote-injective (codes "capabilities") (codes "capabilities") _ _
        (plain-All (codes "capabilities") refl) (plain-All (codes "capabilities") refl)
        (tail_eq e₂) in
    let (caps, ends) = dumps-strs-injective l l' _ _ more more' (tail_eq e₃) in rw (same, caps)
claims_bytes-injective (of_hello a l) (of_gateway b) (h, more) h' e =
    let (k, e₁) =
      key_eq (codes "device_id") (codes "gateway_id") _ _ refl refl
        (sym (hello_parts a l) ∙ e ∙ gateway_parts b) in
    absurd (omega (arith, head_eq k))
claims_bytes-injective (of_gateway a) (of_hello b l) h (h', more) e =
    let (k, e₁) =
      key_eq (codes "gateway_id") (codes "device_id") _ _ refl refl
        (sym (gateway_parts a) ∙ e ∙ hello_parts b l) in
    absurd (omega (arith, head_eq k))
claims_bytes-injective (of_gateway a) (of_gateway b) h h' e =
    let (k, e₁) =
      key_eq (codes "gateway_id") (codes "gateway_id") _ _ refl refl
        (sym (gateway_parts a) ∙ e ∙ gateway_parts b) in
    let (same, e₂) = quote-injective a b _ _ h h' e₁ in ap of_gateway same
