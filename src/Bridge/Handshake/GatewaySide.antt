-- ===== src/Bridge/Handshake/GatewaySide.antt =====
-- The gateway's side of a handshake: gateway/cloud_channel.py, `_establish_once`.
use pqcbridge_legacy_edge_cl.Base.{
  ℕ, ◌+◌, ◌<◌, ◌≤◌, ◌≡◌, ◌≢◌, refl, Bool, true, false, inl, inr, Option, some, List, [], ◌∷◌, ◌++◌,
  All, length, Bytes, AreBytes, Text,
}
use pqcbridge_legacy_edge_cl.Result.{ok}
use pqcbridge_legacy_edge_cl.Exec.Binds.{Outcome-cases}
use pqcbridge_legacy_edge_cl.Encoding.Hex.{hex}
use pqcbridge_legacy_edge_cl.Json.{str}
use pqcbridge_legacy_edge_cl.Json.Strings.{IsScalar}
use pqcbridge_legacy_edge_cl.Protocol.Aad.{gateway_auth_claims_bytes}
use pqcbridge_legacy_edge_cl.Protocol.Fields.{b64e, encode_message, max_message_bytes}
use pqcbridge_legacy_edge_cl.Protocol.Socket.{Sock, sendall}
use pqcbridge_legacy_edge_cl.Protocol.Stream.{Stream}
use pqcbridge_legacy_edge_cl.Protocol.Stream.Framing.{arriving, read_message-encode_message}
use pqcbridge_legacy_edge_cl.Crypto.Library.{Laws, mlkem768_public_key_bytes}
use pqcbridge_legacy_edge_cl.Crypto.Kem.{load_public_key, mlkem_encapsulate, derive_session_key}
use pqcbridge_legacy_edge_cl.Crypto.Tags.{build_gateway_auth}
use pqcbridge_legacy_edge_cl.Config.{Host, cloud_public_key_sha256}
use pqcbridge_legacy_edge_cl.Gateway.Processing.{verify_cloud_public_key}
use pqcbridge_legacy_edge_cl.Gateway.State.{
  Gateway, connecting, establishing, established, set_channel,
}
use pqcbridge_legacy_edge_cl.Gateway.Channel.{
  Attempt, set_state, next_draw, keep_session, encaps_message, announce, check_offer, accept_offer,
  exchange, handshake, establish_once, try_establish, connect_and_establish,
}
use pqcbridge_legacy_edge_cl.Bridge.Handshake.Messages.{
  request_message, offer_message, confirmation_message, offer-IsSendable, confirmation-IsSendable,
  parse_mlkem_pubkey_reply-offer, parse_mlkem_established_reply-confirmation,
}

-- A socket on which no send fails.
abbrev pub open_sock : List Bytes → Sock
open_sock sent = record { sent = sent; faults = [] }

-- The gateway behind its request.
abbrev announced : Gateway → Gateway
announced g = record g { channel = record g.channel { state = establishing }; drawn = g.drawn + 1 }

module _ (host : Host) (deep : 0 < host.nesting) where
  announce_works :
      (g : Gateway) (sent : List Bytes) (stream : Stream) (tag : Bytes)
      → host.library.encrypt g.channel.gateway_key
          (host.urandom g.drawn)
          []
          (some (gateway_auth_claims_bytes (str g.channel.gateway_id)))
        ≡ ok tag
      → announce host (record { gateway = g; sock = open_sock sent; stream = stream }) ≡ (
        ok tt,
        record {
          gateway = announced g;
          sock = open_sock (
              sent
              ++ encode_message (request_message g.channel.gateway_id (host.urandom g.drawn) tag)
                ∷ []);
          stream = stream;
        },
      )
  unfolding announce set_state set_channel next_draw build_gateway_auth sendall
  announce_works g sent stream tag sealed = rw sealed

  accept_offer_works :
      (laws : Laws host.library) (g : Gateway) (sock : Sock) (cloud_id : Text)
      (private_key rest : Bytes) (stalls : Bool)
      → let raw = host.library.public_key private_key in
        All IsScalar cloud_id
        → cloud_id ≢ []
        → b64e raw ≢ []
        → AreBytes raw
        → length raw ≡ mlkem768_public_key_bytes
        → verify_cloud_public_key host.library raw (cloud_public_key_sha256 host) ≡ ok tt
        → length (encode_message (offer_message cloud_id raw)) ≤ max_message_bytes
        → accept_offer host (record {
          gateway = g;
          sock = sock;
          stream = arriving (offer_message cloud_id raw) rest stalls;
        })
          ≡ (
            ok raw,
            record { gateway = g; sock = sock; stream = record { buffer = rest; stalls = stalls } },
          )
  unfolding accept_offer check_offer load_public_key
  accept_offer_works laws g sock cloud_id private_key rest stalls h named filled bytes sized pinned
        fits =
      let raw = host.library.public_key private_key in
      rw (
        read_message-encode_message host.nesting (offer_message cloud_id raw) rest stalls
            (offer-IsSendable host.nesting deep cloud_id raw h) fits,
        parse_mlkem_pubkey_reply-offer cloud_id raw named filled bytes sized,
        pinned,
        laws.public_key_round_trip private_key,
      )

  exchange_works :
      (attempt : Attempt) (public_key : Bytes) (g : Gateway) (sent : List Bytes) (rest : Bytes)
      (stalls : Bool)
      → let session_id = hex attempt.session_draw in
        let (secret, ciphertext) = mlkem_encapsulate host.library public_key attempt.kem_draw in
        All IsScalar session_id
        → session_id ≢ []
        → length (encode_message (confirmation_message session_id)) ≤ max_message_bytes
        → exchange host attempt public_key (record {
          gateway = g;
          sock = open_sock sent;
          stream = arriving (confirmation_message session_id) rest stalls;
        })
          ≡ (
            ok tt,
            record {
              gateway =
                  keep_session host.elapsed session_id (derive_session_key host.library secret) g;
              sock = open_sock (
                  sent
                  ++ encode_message (encaps_message g.channel.gateway_id session_id ciphertext)
                    ∷ []);
              stream = record { buffer = rest; stalls = stalls };
            },
          )
  unfolding exchange sendall
  exchange_works attempt public_key g sent rest stalls h named fits =
      let session_id = hex attempt.session_draw in
      rw (
        read_message-encode_message host.nesting (confirmation_message session_id) rest stalls
            (confirmation-IsSendable host.nesting deep session_id h) fits,
        parse_mlkem_established_reply-confirmation session_id named,
      )

-- One attempt to connect, whose connection is made and on which every send works; the cloud sends
-- its public key, the confirmation and `rest`.
module _ (host : Host) (deep : 0 < host.nesting) (laws : Laws host.library) (g : Gateway)
    (session_draw kem_draw private_key tag rest : Bytes) (stalls : Bool) (cloud_id : Text)
    (sealed : host.library.encrypt g.channel.gateway_key
        (host.urandom g.drawn)
        []
        (some (gateway_auth_claims_bytes (str g.channel.gateway_id)))
      ≡ ok tag)
    (scalars : All IsScalar cloud_id) (named : cloud_id ≢ [])
    (filled : b64e (host.library.public_key private_key) ≢ [])
    (bytes : AreBytes (host.library.public_key private_key))
    (sized : length (host.library.public_key private_key) ≡ mlkem768_public_key_bytes)
    (pinned : verify_cloud_public_key host.library
        (host.library.public_key private_key)
        (cloud_public_key_sha256 host)
      ≡ ok tt)
    (fits : length (encode_message (offer_message cloud_id (host.library.public_key private_key)))
      ≤ max_message_bytes)
    (shown : All IsScalar (hex session_draw)) (drawn : hex session_draw ≢ [])
    (small : length (encode_message (confirmation_message (hex session_draw)))
      ≤ max_message_bytes) where
  abbrev answered : Attempt
  answered = record {
    reachable = true;
    incoming =
        arriving (offer_message cloud_id (host.library.public_key private_key))
          (encode_message (confirmation_message (hex session_draw)) ++ rest) stalls;
    faults = [];
    session_draw = session_draw;
    kem_draw = kem_draw;
  }

  abbrev shared : Bytes × Bytes
  shared = mlkem_encapsulate host.library (host.library.public_key private_key) kem_draw

  abbrev gateway_lines : List Bytes
  gateway_lines =
      encode_message (request_message g.channel.gateway_id (host.urandom g.drawn) tag)
      ∷ encode_message (encaps_message g.channel.gateway_id (hex session_draw) shared.1)
      ∷ []

  connecting_gateway : Gateway
  connecting_gateway = record g { channel = record g.channel { state = connecting } }

  handshake_works :
      handshake host answered
        (record { gateway = connecting_gateway; sock = open_sock []; stream = answered.incoming })
      ≡ (
        ok tt,
        record {
          gateway =
              keep_session host.elapsed
                (hex session_draw)
                (derive_session_key host.library shared.0)
                (announced connecting_gateway);
          sock = open_sock gateway_lines;
          stream = record { buffer = rest; stalls = stalls };
        },
      )
  unfolding handshake connecting_gateway
  handshake_works = rw (
    announce_works host deep connecting_gateway [] answered.incoming tag sealed,
    accept_offer_works host deep laws (announced connecting_gateway) _ cloud_id private_key _ stalls
        scalars named filled bytes sized pinned fits,
    exchange_works host deep answered (host.library.public_key private_key)
        (announced connecting_gateway) _ rest stalls shown drawn small,
  )

  try_establish_works :
      let (r, g') = try_establish host answered g in
      (r ≡ ok true)
      × (g'.channel ≡ record g.channel {
        state = established;
        session_id = some (hex session_draw);
        session_key = some (derive_session_key host.library shared.0);
        sock = some (open_sock gateway_lines);
      })
  unfolding try_establish establish_once set_state set_channel connecting_gateway keep_session
  try_establish_works = rw handshake_works (refl, refl)

  -- The first attempt succeeds, so the later ones are not made.
  pub connect_and_establish_works :
      (limit : Option ℕ) (later : List Attempt)
      → let (r, g') = connect_and_establish host limit (answered ∷ later) g in
        (r ≡ ok true)
        × (g'.channel ≡ record g.channel {
          state = established;
          session_id = some (hex session_draw);
          session_key = some (derive_session_key host.library shared.0);
          sock = some (open_sock gateway_lines);
        })
  unfolding connect_and_establish
  connect_and_establish_works limit later =
      let (done, channel) = try_establish_works in
      elim (Outcome-cases (try_establish host answered g)) [
        | inl (true, g', e) ↦ rw e (refl, (rw e at channel))
        | inl (false, g', e) ↦ absurd (cc (rw e at done))
        | inr (x, g', e) ↦ absurd (cc (rw e at done))
      ]
