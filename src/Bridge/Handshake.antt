-- ===== src/Bridge/Handshake.antt =====
-- A handshake in which the gateway and the cloud read what the other one sends.
pub mod Messages
pub mod GatewaySide
pub mod CloudSide
use pqcbridge_legacy_edge_cl.Base.{
  ℕ, ◌+◌, ◌/◌, ◌%◌, ◌<◌, ◌≤◌, ◌≡◌, ◌≢◌, refl, sym, ap, ◌∙◌, arith, Bool, true, false, ◌&&◌, Option,
  some, List, [], ◌∷◌, ◌++◌, All, all, leb, ltb, if◌then◌else◌, length, Bytes, AreBytes, Text,
}
use mathlib.Core.Path.{subst}
use pqcbridge_legacy_edge_cl.Result.{ok}
use pqcbridge_legacy_edge_cl.Encoding.Hex.{hex, hex_digit}
use pqcbridge_legacy_edge_cl.Encoding.Utf8.Ascii.{is_shown}
use pqcbridge_legacy_edge_cl.Json.{Message, str}
use pqcbridge_legacy_edge_cl.Json.Strings.{IsScalar}
use pqcbridge_legacy_edge_cl.Json.RoundTrip.Printable.{shown-IsScalar}
use pqcbridge_legacy_edge_cl.Protocol.Aad.{gateway_auth_claims_bytes}
use pqcbridge_legacy_edge_cl.Protocol.Fields.{encode_message, max_message_bytes}
use pqcbridge_legacy_edge_cl.Protocol.Stream.Framing.{arriving}
use pqcbridge_legacy_edge_cl.Crypto.Library.{Library, Laws, nonce_length, mlkem768_public_key_bytes}
use pqcbridge_legacy_edge_cl.Crypto.Kem.{mlkem_encapsulate, derive_session_key}
use pqcbridge_legacy_edge_cl.Config.{Host, gateway_key, cloud_public_key_sha256}
use pqcbridge_legacy_edge_cl.Gateway.Processing.{verify_cloud_public_key}
use pqcbridge_legacy_edge_cl.Gateway.State.{Gateway, established}
use pqcbridge_legacy_edge_cl.Gateway.Channel.{Attempt, encaps_message, connect_and_establish}
use pqcbridge_legacy_edge_cl.Gateway.Channel.Agreement.{b64e_nonempty}
use pqcbridge_legacy_edge_cl.Cloud.Sessions
use pqcbridge_legacy_edge_cl.Cloud.Server.{Cloud, establish_session}
use pqcbridge_legacy_edge_cl.Bridge.Handshake.Messages.{
  request_message, offer_message, confirmation_message,
}
use pqcbridge_legacy_edge_cl.Bridge.Handshake.GatewaySide.{open_sock, connect_and_establish_works}
use pqcbridge_legacy_edge_cl.Bridge.Handshake.CloudSide.{establish_session_works}

hex_digit_shown : (n : ℕ) → n < 16 → is_shown (hex_digit n) ≡ true
unfolding hex_digit
hex_digit_shown n h = ground arith

hex_shown : (bs : Bytes) → AreBytes bs → all is_shown (hex bs) ≡ true
unfolding hex
hex_shown [] h = refl
hex_shown (b ∷ bs) (byte, more) = rw (
  hex_digit_shown (b / 16) (omega arith),
  hex_digit_shown (b % 16) (omega arith),
  hex_shown bs more,
)

hex_nonempty : (bs : Bytes) → 0 < length bs → hex bs ≢ []
unfolding hex
hex_nonempty [] h e = absurd (omega arith)
hex_nonempty (b ∷ bs) h e = cc

-- The line of the message is within the largest size.
abbrev pub Fits : Message → Type 0
Fits message = length (encode_message message) ≤ max_message_bytes

-- The cloud's part, with the secret that a library gives.
abbrev CloudDone :
    Host → Cloud → Text → Bytes → Bytes → Text → Bytes → Bytes → Bool → Library → Type 0
CloudDone cloud c gateway_id nonce tag session_id draw rest stalls lib =
    let (secret, ciphertext) = mlkem_encapsulate lib (lib.public_key c.private_key) draw in
    let (s, l) = establish_session cloud (record {
      cloud = c;
      sock = open_sock [];
      stream =
          arriving (request_message gateway_id nonce tag)
            (encode_message (encaps_message gateway_id session_id ciphertext) ++ rest) stalls;
    }) in
    (s ≡ ok (session_id, derive_session_key lib secret))
    × (l.sock.sent
        ≡ encode_message (offer_message c.cloud_id c.public_key_raw)
          ∷ encode_message (confirmation_message session_id)
          ∷ [])
    × (l.cloud.registry
        ≡ Sessions.add session_id (derive_session_key lib secret) gateway_id c.registry)

-- The two processes have the same library.
module _ (gateway cloud : Host) (common : cloud.library ≡ gateway.library)
    (laws : Laws gateway.library) (gateway_deep : 0 < gateway.nesting)
    (cloud_deep : 0 < cloud.nesting) where
  -- Under the laws of the library, which the two processes share, with a pin that accepts the
  -- public key of the cloud, a gateway whose key is registered at the cloud and encrypts the proof
  -- of its possession, a twelve-byte nonce, a session draw that is not empty, ids that are not
  -- empty and without surrogates, sockets on which no send fails, and messages within the largest
  -- size: if each side reads the bytes that the other one sends, then the first attempt of
  -- connect_and_establish returns True with an established channel, establish_session returns,
  -- both have the same session id and the same session key, each has sent what the other one has
  -- read, and the cloud has registered the session for the gateway.
  pub handshake_agrees :
      (g : Gateway) (c : Cloud) (session_draw kem_draw tag rest rest' : Bytes)
      (stalls stalls' : Bool) (limit : Option ℕ) (later : List Attempt)
      → let lib = gateway.library in
        let gateway_id = g.channel.gateway_id in
        let nonce = gateway.urandom g.drawn in
        let raw = lib.public_key c.private_key in
        let session_id = hex session_draw in
        let (secret, ciphertext) = mlkem_encapsulate lib raw kem_draw in
        let session_key = derive_session_key lib secret in
        let request = request_message gateway_id nonce tag in
        let offer = offer_message c.cloud_id raw in
        let encaps = encaps_message gateway_id session_id ciphertext in
        let confirmation = confirmation_message session_id in
        c.public_key_raw ≡ raw
        → length raw ≡ mlkem768_public_key_bytes
        → AreBytes raw
        → verify_cloud_public_key lib raw (cloud_public_key_sha256 gateway) ≡ ok tt
        → gateway_key cloud gateway_id ≡ ok g.channel.gateway_key
        → lib.encrypt g.channel.gateway_key nonce []
            (some (gateway_auth_claims_bytes (str gateway_id)))
          ≡ ok tag
        → 0 < length tag
        → length nonce ≡ nonce_length
        → AreBytes nonce
        → 0 < length session_draw
        → AreBytes session_draw
        → All IsScalar gateway_id
        → gateway_id ≢ []
        → All IsScalar c.cloud_id
        → c.cloud_id ≢ []
        → All Fits (request ∷ offer ∷ encaps ∷ confirmation ∷ [])
        → let (r, g') =
            connect_and_establish gateway limit
              (record {
                reachable = true;
                incoming = arriving offer (encode_message confirmation ++ rest) stalls;
                faults = [];
                session_draw = session_draw;
                kem_draw = kem_draw;
              }
                ∷ later)
              g in
          let (s, l) = establish_session cloud (record {
            cloud = c;
            sock = open_sock [];
            stream = arriving request (encode_message encaps ++ rest') stalls';
          }) in
          (r ≡ ok true)
          × (g'.channel ≡ record g.channel {
            state = established;
            session_id = some session_id;
            session_key = some session_key;
            sock = some (open_sock (encode_message request ∷ encode_message encaps ∷ []));
          })
          × (s ≡ ok (session_id, session_key))
          × (l.sock.sent ≡ encode_message offer ∷ encode_message confirmation ∷ [])
          × (l.cloud.registry ≡ Sessions.add session_id session_key gateway_id c.registry)
  handshake_agrees g c session_draw kem_draw tag rest rest' stalls stalls' limit later own long
        bytes pinned registered sealed tagged sized nonce_bytes drawn draw_bytes scalars named
        scalar cloud_named (fits₁, (fits₂, (fits₃, (fits₄, _)))) =
      let lib = gateway.library in
      let gateway_id = g.channel.gateway_id in
      let nonce = gateway.urandom g.drawn in
      let raw = lib.public_key c.private_key in
      let session_id = hex session_draw in
      let shown = shown-IsScalar session_id (hex_shown session_draw draw_bytes) in
      let session = hex_nonempty session_draw drawn in
      let tag_bytes = laws.encrypts_bytes g.channel.gateway_key nonce [] tag _ sealed in
      let (connected, channel) =
        connect_and_establish_works gateway gateway_deep laws g session_draw kem_draw c.private_key
          tag rest stalls c.cloud_id sealed scalar cloud_named
          (b64e_nonempty raw bytes (omega arith)) bytes long pinned fits₂ shown session fits₄ limit
          later in
      let (opened, sent, registry) =
        subst (CloudDone cloud c gateway_id nonce tag session_id kem_draw rest' stalls') common (
          establish_session_works cloud (subst Laws (sym common) laws) c gateway_id session_id
            g.channel.gateway_key nonce tag kem_draw rest' stalls' cloud_deep scalars shown named
            session (b64e_nonempty nonce nonce_bytes (omega arith))
            (b64e_nonempty tag tag_bytes tagged) sized nonce_bytes registered
            (subst
              (λ (l : Library).
                l.encrypt g.channel.gateway_key nonce []
                  (some (gateway_auth_claims_bytes (str gateway_id)))
                ≡ ok tag)
              (sym common) sealed)
            fits₁
            (subst
              (λ (l : Library). Fits (
                encaps_message gateway_id session_id
                  (mlkem_encapsulate l (l.public_key c.private_key) kem_draw).1))
              (sym common) fits₃)) in
      let offered : encode_message (offer_message c.cloud_id c.public_key_raw)
          ≡ encode_message (offer_message c.cloud_id raw) =
        ap (λ (r : Bytes). encode_message (offer_message c.cloud_id r)) own in
      (
        connected,
        channel,
        opened,
        sent
            ∙ ap (λ (line : Bytes). line ∷ encode_message (confirmation_message session_id) ∷ [])
                offered,
        registry,
      )
