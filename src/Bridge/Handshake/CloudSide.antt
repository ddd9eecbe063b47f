-- ===== src/Bridge/Handshake/CloudSide.antt =====
-- The cloud's side of a handshake: cloud/cloud.py, `_establish_session`.
use pqcbridge_legacy_edge_cl.Base.{
  ◌<◌, ◌≤◌, ◌≡◌, ◌≢◌, refl, Bool, some, List, [], ◌∷◌, ◌++◌, All, length, Bytes, AreBytes, Text,
  Eq_text, text_eq,
}
use pqcbridge_legacy_edge_cl.Result.{ok}
use pqcbridge_legacy_edge_cl.Dict.{get}
use pqcbridge_legacy_edge_cl.Json.{str}
use pqcbridge_legacy_edge_cl.Json.Strings.{IsScalar}
use pqcbridge_legacy_edge_cl.Protocol.Aad.{gateway_auth_claims_bytes}
use pqcbridge_legacy_edge_cl.Protocol.Fields.{b64e, encode_message, max_message_bytes}
use pqcbridge_legacy_edge_cl.Protocol.Socket.{Sock, sendall}
use pqcbridge_legacy_edge_cl.Protocol.Stream.Framing.{arriving, read_message-encode_message}
use pqcbridge_legacy_edge_cl.Crypto.Library.{Laws, nonce_length}
use pqcbridge_legacy_edge_cl.Crypto.Aead.{item}
use pqcbridge_legacy_edge_cl.Crypto.Kem.{mlkem_encapsulate, mlkem_decapsulate, derive_session_key}
use pqcbridge_legacy_edge_cl.Crypto.Tags.Verification.{verify_gateway_auth-build_gateway_auth}
use pqcbridge_legacy_edge_cl.Config.{Host, gateway_key}
use pqcbridge_legacy_edge_cl.Gateway.Channel.{encaps_message}
use pqcbridge_legacy_edge_cl.Gateway.Channel.Agreement.{parse_mlkem_encaps-encaps_message}
use pqcbridge_legacy_edge_cl.Cloud.Processing.{verify_gateway_request_auth}
use pqcbridge_legacy_edge_cl.Cloud.Sessions
use pqcbridge_legacy_edge_cl.Cloud.Server.{
  Cloud, open_session, authenticate, agree, establish_session,
}
use pqcbridge_legacy_edge_cl.Bridge.Handshake.Messages.{
  request_message, offer_message, confirmation_message, request-IsSendable, encaps-IsSendable,
  parse_mlkem_request-request,
}
use pqcbridge_legacy_edge_cl.Bridge.Handshake.GatewaySide.{open_sock}

module _ (host : Host) (deep : 0 < host.nesting) (laws : Laws host.library) (c : Cloud)
    (gateway_id : Text) (scalars : All IsScalar gateway_id) (rest : Bytes) (stalls : Bool) where
  authenticate_works :
      (key nonce tag : Bytes) (sock : Sock)
      → gateway_id ≢ []
      → b64e nonce ≢ []
      → b64e tag ≢ []
      → length nonce ≡ nonce_length
      → AreBytes nonce
      → gateway_key host gateway_id ≡ ok key
      → host.library.encrypt key nonce [] (some (gateway_auth_claims_bytes (str gateway_id)))
        ≡ ok tag
      → length (encode_message (request_message gateway_id nonce tag)) ≤ max_message_bytes
      → authenticate host (record {
        cloud = c;
        sock = sock;
        stream = arriving (request_message gateway_id nonce tag) rest stalls;
      })
        ≡ (
          ok gateway_id,
          record { cloud = c; sock = sock; stream = record { buffer = rest; stalls = stalls } },
        )
  unfolding authenticate verify_gateway_request_auth item get text_eq
  authenticate_works key nonce tag sock named drawn tagged sized bytes registered sealed fits = rw (
    read_message-encode_message host.nesting (request_message gateway_id nonce tag) rest stalls
        (request-IsSendable host.nesting deep gateway_id nonce tag scalars) fits,
    parse_mlkem_request-request gateway_id nonce tag named drawn tagged,
    registered,
    verify_gateway_auth-build_gateway_auth host.library laws nonce key gateway_id tag sized bytes
        sealed,
  )

  agree_works :
      (session_id : Text) (draw : Bytes) (sent : List Bytes)
      → let (secret, ciphertext) =
          mlkem_encapsulate host.library (host.library.public_key c.private_key) draw in
        All IsScalar session_id
        → session_id ≢ []
        → length (encode_message (encaps_message gateway_id session_id ciphertext))
          ≤ max_message_bytes
        → let key = derive_session_key host.library secret in
          agree host gateway_id (record {
            cloud = c;
            sock = open_sock sent;
            stream = arriving (encaps_message gateway_id session_id ciphertext) rest stalls;
          })
          ≡ (
            ok (session_id, key),
            record {
              cloud = open_session host.elapsed session_id key gateway_id c;
              sock = open_sock (
                  (sent ++ encode_message (offer_message c.cloud_id c.public_key_raw) ∷ [])
                  ++ encode_message (confirmation_message session_id) ∷ []);
              stream = record { buffer = rest; stalls = stalls };
            },
          )
  unfolding agree mlkem_encapsulate mlkem_decapsulate sendall
  agree_works session_id draw sent shown named fits =
      let own = host.library.public_key c.private_key in
      rw (
        read_message-encode_message host.nesting
            (encaps_message gateway_id session_id (host.library.encapsulate own draw).1) rest stalls
            (encaps-IsSendable host.nesting deep gateway_id session_id
              (host.library.encapsulate own draw).1 scalars shown)
            fits,
        parse_mlkem_encaps-encaps_message gateway_id session_id
            (host.library.encapsulate own draw).1 named (laws.ciphertext_bytes own draw)
            (laws.ciphertext_length own draw),
        laws.decapsulate-encapsulate c.private_key draw,
      )

-- The whole handshake: the session, what was sent, and the registry.
pub establish_session_works :
    (host : Host) (laws : Laws host.library) (c : Cloud) (gateway_id session_id : Text)
    (key nonce tag draw rest : Bytes) (stalls : Bool)
    → 0 < host.nesting
    → All IsScalar gateway_id
    → All IsScalar session_id
    → gateway_id ≢ []
    → session_id ≢ []
    → b64e nonce ≢ []
    → b64e tag ≢ []
    → length nonce ≡ nonce_length
    → AreBytes nonce
    → gateway_key host gateway_id ≡ ok key
    → host.library.encrypt key nonce [] (some (gateway_auth_claims_bytes (str gateway_id))) ≡ ok tag
    → let (secret, ciphertext) =
        mlkem_encapsulate host.library (host.library.public_key c.private_key) draw in
      length (encode_message (request_message gateway_id nonce tag)) ≤ max_message_bytes
      → length (encode_message (encaps_message gateway_id session_id ciphertext))
        ≤ max_message_bytes
      → let (r, l) = establish_session host (record {
        cloud = c;
        sock = open_sock [];
        stream =
            arriving
              (request_message gateway_id nonce tag)
              (encode_message (encaps_message gateway_id session_id ciphertext) ++ rest)
              stalls;
      }) in
        (r ≡ ok (session_id, derive_session_key host.library secret))
        × (l.sock.sent
            ≡ encode_message (offer_message c.cloud_id c.public_key_raw)
              ∷ encode_message (confirmation_message session_id)
              ∷ [])
        × (l.cloud.registry
            ≡ Sessions.add session_id
                (derive_session_key host.library secret)
                gateway_id
                c.registry)
unfolding establish_session open_session
establish_session_works host laws c gateway_id session_id key nonce tag draw rest stalls deep
      scalars shown named session drawn tagged sized bytes registered sealed fits fits' =
    rw
      (
        authenticate_works host deep laws c gateway_id scalars _ stalls key nonce tag (open_sock [])
            named drawn tagged sized bytes registered sealed fits,
        agree_works host deep laws c gateway_id scalars rest stalls session_id draw [] shown session
            fits',
      )
      (refl, refl, refl)
