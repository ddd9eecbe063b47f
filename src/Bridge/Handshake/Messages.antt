-- ===== src/Bridge/Handshake/Messages.antt =====
-- The four messages of the handshake between a gateway and the cloud.
use pqcbridge_legacy_edge_cl.Base.{
  ℕ, ◌<◌, ◌≡◌, ◌≢◌, refl, [], ◌∷◌, All, length, Eq_nat, nat_eq_iff, Bytes, AreBytes, Text, codes,
  Eq_text, text_eq, text_eq_iff,
}
use pqcbridge_legacy_edge_cl.Result.{ok}
use pqcbridge_legacy_edge_cl.Dict.{get}
use pqcbridge_legacy_edge_cl.Json.{Message, str}
use pqcbridge_legacy_edge_cl.Json.Strings.{IsScalar}
use pqcbridge_legacy_edge_cl.Json.RoundTrip.Printable.{IsPrintable, shown-IsScalar}
use pqcbridge_legacy_edge_cl.Protocol.Fields.{
  msg_mlkem_request_pubkey, msg_mlkem_pubkey, msg_mlkem_encaps, msg_mlkem_established, b64e,
  field_is,
}
use pqcbridge_legacy_edge_cl.Protocol.Fields.Laws.{b64d-b64e, require_str_iff}
use pqcbridge_legacy_edge_cl.Protocol.Stream.Framing.{IsSendable}
use pqcbridge_legacy_edge_cl.Crypto.Library.{mlkem768_public_key_bytes}
use pqcbridge_legacy_edge_cl.Gateway.Processing.{
  parse_mlkem_pubkey_reply, parse_mlkem_established_reply,
}
use pqcbridge_legacy_edge_cl.Gateway.Channel.{encaps_message}
use pqcbridge_legacy_edge_cl.Cloud.Processing.{parse_mlkem_request}
use pqcbridge_legacy_edge_cl.Bridge.Messages.{b64e-IsScalar}

abbrev pub request_message : Text → Bytes → Bytes → Message
request_message gateway_id nonce tag =
    (codes "type", str msg_mlkem_request_pubkey)
    ∷ (codes "gateway_id", str gateway_id)
    ∷ (codes "auth_nonce", str (b64e nonce))
    ∷ (codes "auth_tag", str (b64e tag))
    ∷ []

abbrev pub offer_message : Text → Bytes → Message
offer_message cloud_id raw =
    (codes "type", str msg_mlkem_pubkey)
    ∷ (codes "cloud_id", str cloud_id)
    ∷ (codes "public_key", str (b64e raw))
    ∷ []

abbrev pub confirmation_message : Text → Message
confirmation_message session_id =
    (codes "type", str msg_mlkem_established)
    ∷ (codes "session_id", str session_id)
    ∷ (codes "status", str (codes "ok"))
    ∷ []

module _ (nesting : ℕ) (deep : 0 < nesting) where
  pub request-IsSendable :
      (gateway_id : Text) (nonce tag : Bytes)
      → All IsScalar gateway_id
      → IsSendable nesting (request_message gateway_id nonce tag)
  unfolding IsPrintable get text_eq
  request-IsSendable gateway_id nonce tag h = (
    deep,
    (
      shown-IsScalar (codes "type") refl,
      refl,
      shown-IsScalar msg_mlkem_request_pubkey refl,
      (
        shown-IsScalar (codes "gateway_id") refl,
        refl,
        h,
        (
          shown-IsScalar (codes "auth_nonce") refl,
          refl,
          b64e-IsScalar nonce,
          (shown-IsScalar (codes "auth_tag") refl, refl, b64e-IsScalar tag, tt),
        ),
      ),
    ),
  )

  pub offer-IsSendable :
      (cloud_id : Text) (raw : Bytes)
      → All IsScalar cloud_id
      → IsSendable nesting (offer_message cloud_id raw)
  unfolding IsPrintable get text_eq
  offer-IsSendable cloud_id raw h = (
    deep,
    (
      shown-IsScalar (codes "type") refl,
      refl,
      shown-IsScalar msg_mlkem_pubkey refl,
      (
        shown-IsScalar (codes "cloud_id") refl,
        refl,
        h,
        (shown-IsScalar (codes "public_key") refl, refl, b64e-IsScalar raw, tt),
      ),
    ),
  )

  pub encaps-IsSendable :
      (gateway_id session_id : Text) (ciphertext : Bytes)
      → All IsScalar gateway_id
      → All IsScalar session_id
      → IsSendable nesting (encaps_message gateway_id session_id ciphertext)
  unfolding encaps_message IsPrintable get text_eq
  encaps-IsSendable gateway_id session_id ciphertext h k = (
    deep,
    (
      shown-IsScalar (codes "type") refl,
      refl,
      shown-IsScalar msg_mlkem_encaps refl,
      (
        shown-IsScalar (codes "gateway_id") refl,
        refl,
        h,
        (
          shown-IsScalar (codes "session_id") refl,
          refl,
          k,
          (shown-IsScalar (codes "ciphertext") refl, refl, b64e-IsScalar ciphertext, tt),
        ),
      ),
    ),
  )

  pub confirmation-IsSendable :
      (session_id : Text)
      → All IsScalar session_id
      → IsSendable nesting (confirmation_message session_id)
  unfolding IsPrintable get text_eq
  confirmation-IsSendable session_id h = (
    deep,
    (
      shown-IsScalar (codes "type") refl,
      refl,
      shown-IsScalar msg_mlkem_established refl,
      (
        shown-IsScalar (codes "session_id") refl,
        refl,
        h,
        (shown-IsScalar (codes "status") refl, refl, shown-IsScalar (codes "ok") refl, tt),
      ),
    ),
  )

pub parse_mlkem_request-request :
    (gateway_id : Text) (nonce tag : Bytes)
    → gateway_id ≢ []
    → b64e nonce ≢ []
    → b64e tag ≢ []
    → parse_mlkem_request (request_message gateway_id nonce tag) ≡ ok gateway_id
unfolding parse_mlkem_request field_is get text_eq
parse_mlkem_request-request gateway_id nonce tag named drawn tagged =
    let m = request_message gateway_id nonce tag in
    rw (
      (require_str_iff m (codes "gateway_id") gateway_id).1 (refl, named),
      (require_str_iff m (codes "auth_nonce") (b64e nonce)).1 (refl, drawn),
      (require_str_iff m (codes "auth_tag") (b64e tag)).1 (refl, tagged),
    )

pub parse_mlkem_pubkey_reply-offer :
    (cloud_id : Text) (raw : Bytes)
    → cloud_id ≢ []
    → b64e raw ≢ []
    → AreBytes raw
    → length raw ≡ mlkem768_public_key_bytes
    → parse_mlkem_pubkey_reply (offer_message cloud_id raw) ≡ ok raw
unfolding parse_mlkem_pubkey_reply field_is get text_eq
parse_mlkem_pubkey_reply-offer cloud_id raw named filled bytes sized =
    let m = offer_message cloud_id raw in
    rw (
      (require_str_iff m (codes "cloud_id") cloud_id).1 (refl, named),
      (require_str_iff m (codes "public_key") (b64e raw)).1 (refl, filled),
      b64d-b64e raw bytes,
      (nat_eq_iff (length raw) mlkem768_public_key_bytes).1 sized,
    )

pub parse_mlkem_established_reply-confirmation :
    (session_id : Text)
    → session_id ≢ []
    → parse_mlkem_established_reply (confirmation_message session_id) session_id ≡ ok tt
unfolding parse_mlkem_established_reply field_is get text_eq
parse_mlkem_established_reply-confirmation session_id named = rw (
  (require_str_iff (confirmation_message session_id) (codes "session_id") session_id).1
      (refl, named),
  (text_eq_iff session_id session_id).1 refl,
)
