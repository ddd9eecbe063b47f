-- ===== src/Bridge/Delivery.antt =====
-- A reading on its way from the device over the gateway to the store of the cloud, byte for byte.
use pqcbridge_legacy_edge_cl.Base.{
  ℕ, ◌+◌, refl, ◌<◌, ◌≤◌, ◌≡◌, ◌≢◌, ap, ◌∙◌, Bool, some, List, [], ◌∷◌, ◌++◌, All, length, Bytes,
  AreBytes, Text, ℤ, ◌<ℤ◌, codes, Eq_text,
}
use mathlib.Core.Path.{subst}
use pqcbridge_legacy_edge_cl.Result.{ok, >>=-eq-ok, ok-injective}
use pqcbridge_legacy_edge_cl.Dict.{get}
use pqcbridge_legacy_edge_cl.Json.{Message, str, int}
use pqcbridge_legacy_edge_cl.Json.Strings.{IsScalar}
use pqcbridge_legacy_edge_cl.Json.RoundTrip.Printable.{IsShort}
use pqcbridge_legacy_edge_cl.Protocol.Fields.{encode_message, max_message_bytes}
use pqcbridge_legacy_edge_cl.Protocol.Aad.{
  legacy_message_aad, session_message_aad, parse_reading_bytes,
}
use pqcbridge_legacy_edge_cl.Protocol.Stream.Framing.{
  IsSendable, arriving, read_message-encode_message,
}
use pqcbridge_legacy_edge_cl.Protocol.Socket.{Sock}
use pqcbridge_legacy_edge_cl.Crypto.Library.{Library, Laws, nonce_length}
use pqcbridge_legacy_edge_cl.Crypto.Aead.{encrypt_legacy_payload, encrypt_session_payload}
use pqcbridge_legacy_edge_cl.Crypto.Aead.RoundTrip.{aead_encrypt-eq-ok}
use pqcbridge_legacy_edge_cl.Config.{Host}
use pqcbridge_legacy_edge_cl.Replay.{Key, last_seen, check_and_update}
use pqcbridge_legacy_edge_cl.Device.Client.{legacy_reading}
use pqcbridge_legacy_edge_cl.Gateway.Processing.{build_protected_reading}
use pqcbridge_legacy_edge_cl.Gateway.State.{CloudChannel, Gateway}
use pqcbridge_legacy_edge_cl.Gateway.Channel.Works.{working, with_channel}
use pqcbridge_legacy_edge_cl.Gateway.Server.{serve_one, on_stream, on_gateway}
use pqcbridge_legacy_edge_cl.Gateway.Server.Forwarding.{handle_reading_forwards}
use pqcbridge_legacy_edge_cl.Cloud.Store
use pqcbridge_legacy_edge_cl.Cloud.Server.{
  Cloud, receive_one, on_stream as on_cloud_stream, on_cloud,
}
use pqcbridge_legacy_edge_cl.Cloud.Server.Storing.{handle_reading_stores}
use pqcbridge_legacy_edge_cl.Bridge.Hops.{
  legacy_around, protected_around, decrypt_legacy_message-legacy_reading,
  decrypt_protected_reading-build_protected_reading,
}
use pqcbridge_legacy_edge_cl.Bridge.Messages.{legacy_with-IsSendable, protected_with-IsSendable}

legacy_reading-IsSendable :
    (lib : Library) (nesting : ℕ) (nonce key : Bytes) (device_id : Text) (sequence : ℤ)
    (plaintext : Bytes) (message : Message)
    → 0 < nesting
    → All IsScalar device_id
    → IsShort sequence
    → legacy_reading lib nonce key device_id sequence plaintext ≡ ok message
    → IsSendable nesting message
unfolding legacy_reading encrypt_legacy_payload
legacy_reading-IsSendable lib nesting nonce key device_id sequence plaintext message deep h k
      built =
    let (aad, bound, h₁) = >>=-eq-ok (legacy_message_aad device_id sequence) _ built in
    let (envelope, sealed, h₂) =
      >>=-eq-ok (encrypt_legacy_payload lib nonce key plaintext (some aad)) _ h₁ in
    let (c, e, fields) = aead_encrypt-eq-ok lib nonce key plaintext (some aad) envelope sealed in
    subst (IsSendable nesting) (ap (legacy_around device_id sequence) fields ∙ ok-injective h₂)
      (legacy_with-IsSendable nesting deep device_id sequence nonce c h k)

build_protected_reading-IsSendable :
    (lib : Library) (nesting : ℕ) (nonce reading_bytes key : Bytes) (session_id : Text)
    (message : Message)
    → 0 < nesting
    → All IsScalar session_id
    → build_protected_reading lib nonce reading_bytes key session_id ≡ ok message
    → IsSendable nesting message
unfolding build_protected_reading encrypt_session_payload
build_protected_reading-IsSendable lib nesting nonce reading_bytes key session_id message deep h
      built =
    let (aad, bound, h₁) = >>=-eq-ok (session_message_aad session_id) _ built in
    let (envelope, sealed, h₂) =
      >>=-eq-ok (encrypt_session_payload lib nonce key reading_bytes (some aad)) _ h₁ in
    let (c, e, fields) =
      aead_encrypt-eq-ok lib nonce key reading_bytes (some aad) envelope sealed in
    subst (IsSendable nesting) (ap (protected_around session_id) fields ∙ ok-injective h₂)
      (protected_with-IsSendable nesting deep session_id nonce c h)

-- What both ends of a hop agree on, and the sizes that the protocol allows.
module _ (host : Host) (laws : Laws host.library) (deep : 0 < host.nesting) (message : Message)
    (fits : length (encode_message message) ≤ max_message_bytes) (rest : Bytes)
    (stalls : Bool) where
  module _ (g : Gateway) (c : CloudChannel) (session_id : Text) (session_key : Bytes)
      (sent : List Bytes) where
    pub serve_one_forwards :
        (nonce key : Bytes) (device_id : Text) (sequence : ℤ) (plaintext : Bytes)
        (reading protected : Message)
        → All IsScalar device_id
        → IsShort sequence
        → length nonce ≡ nonce_length
        → AreBytes nonce
        → parse_reading_bytes host.nesting plaintext ≡ ok reading
        → legacy_reading host.library nonce key device_id sequence plaintext ≡ ok message
        → last_seen g.replay (Key.text device_id) <ℤ sequence
        → build_protected_reading host.library
            (host.urandom g.drawn)
            plaintext
            session_key
            session_id
          ≡ ok protected
        → let (r, l) = serve_one host device_id key (record {
          gateway = with_channel host g c session_id session_key sent;
          stream = arriving message rest stalls;
        }) in
          (r ≡ ok tt)
          × (l.gateway.channel
              ≡ working c session_id session_key (sent ++ encode_message protected ∷ []))
          × (l.gateway.replay ≡ (check_and_update (Key.text device_id) sequence g.replay).1)
          × (l.gateway.drawn ≡ g.drawn + 1)
          × (l.stream ≡ record { buffer = rest; stalls = stalls })
    unfolding serve_one on_stream on_gateway
    serve_one_forwards nonce key device_id sequence plaintext reading protected h k sized bytes
          parsed built above sealed =
        let sendable =
          legacy_reading-IsSendable host.library host.nesting nonce key device_id sequence plaintext
            message deep h k built in
        let opened =
          decrypt_legacy_message-legacy_reading host.library laws host.nesting nonce key device_id
            sequence plaintext message reading sized bytes parsed built in
        let (returned, channel, replay, drawn) =
          handle_reading_forwards host c session_id session_key sent plaintext protected g device_id
            key message sequence opened above sealed in
        rw (read_message-encode_message host.nesting message rest stalls sendable fits)
          (returned, channel, replay, drawn, refl)

  pub receive_one_stores :
      (k : Cloud) (sock : Sock) (nonce : Bytes) (session_id : Text) (session_key plaintext : Bytes)
      (device_id : Text) (sequence : ℤ) (reading : Message)
      → All IsScalar session_id
      → session_id ≢ []
      → length nonce ≡ nonce_length
      → AreBytes nonce
      → parse_reading_bytes host.nesting plaintext ≡ ok reading
      → get reading (codes "device_id") ≡ some (str device_id)
      → get reading (codes "sequence") ≡ some (int sequence)
      → build_protected_reading host.library nonce plaintext session_key session_id ≡ ok message
      → last_seen k.replay (Key.text device_id) <ℤ sequence
      → let (r, l) =
          receive_one host session_id session_key
            (record { cloud = k; sock = sock; stream = arriving message rest stalls }) in
        (r ≡ ok tt)
        × (l.cloud.store ≡ Store.add reading k.store)
        × (l.cloud.replay ≡ (check_and_update (Key.text device_id) sequence k.replay).1)
        × (l.stream ≡ record { buffer = rest; stalls = stalls })
  unfolding receive_one on_cloud_stream on_cloud
  receive_one_stores k sock nonce session_id session_key plaintext device_id sequence reading h
        named sized bytes parsed is_of numbered sealed above =
      let sendable =
        build_protected_reading-IsSendable host.library host.nesting nonce plaintext session_key
          session_id message deep h sealed in
      let opened =
        decrypt_protected_reading-build_protected_reading host.library laws host.nesting nonce
          session_key session_id plaintext message reading named sized bytes parsed sealed in
      let (returned, store, replay) =
        handle_reading_stores host k reading device_id sequence is_of numbered above session_id
          session_key message opened in
      rw (read_message-encode_message host.nesting message rest stalls sendable fits)
        (returned, store, replay, refl)
