-- ===== src/Bridge/EndToEnd.antt =====
-- A round of the device, a round of the gateway and a round of the cloud, over the bytes that the
-- one sends and the next reads.
use pqcbridge_legacy_edge_cl.Base.{
  ℕ, ◌<◌, ◌≤◌, ◌≡◌, ◌≢◌, refl, Bool, some, List, [], ◌∷◌, ◌++◌, All, length, Bytes, AreBytes, Text,
  ◌<ℤ◌, next_ℤ, codes, Eq_text, text_eq,
}
use mathlib.Core.Path.{subst}
use pqcbridge_legacy_edge_cl.Result.{ok}
use pqcbridge_legacy_edge_cl.Dict.{get}
use pqcbridge_legacy_edge_cl.Json.{Message, str, int}
use pqcbridge_legacy_edge_cl.Json.Strings.{IsScalar}
use pqcbridge_legacy_edge_cl.Json.RoundTrip.Printable.{IsShort, IsDecimal}
use pqcbridge_legacy_edge_cl.Protocol.Fields.{encode_message, max_message_bytes}
use pqcbridge_legacy_edge_cl.Protocol.Stream.Framing.{arriving}
use pqcbridge_legacy_edge_cl.Protocol.Socket.{Sock}
use pqcbridge_legacy_edge_cl.Crypto.Library.{Library, Laws, nonce_length}
use pqcbridge_legacy_edge_cl.Config.{Host}
use pqcbridge_legacy_edge_cl.Replay.{Key, last_seen}
use pqcbridge_legacy_edge_cl.Device.Sensor.{generate_reading, reading_to_bytes}
use pqcbridge_legacy_edge_cl.Device.Sensor.RoundTrip.{parse_reading_bytes-generate_reading}
use pqcbridge_legacy_edge_cl.Device.Counter.Saving.{save_sequence_works}
use pqcbridge_legacy_edge_cl.Device.Client.{Device, legacy_reading, send_one}
use pqcbridge_legacy_edge_cl.Device.Client.Sending.{message_of, sent_lem}
use pqcbridge_legacy_edge_cl.Device.Client.Delivery.{sendall_works}
use pqcbridge_legacy_edge_cl.Gateway.Processing.{build_protected_reading}
use pqcbridge_legacy_edge_cl.Gateway.State.{CloudChannel, Gateway}
use pqcbridge_legacy_edge_cl.Gateway.Channel.Works.{working, with_channel}
use pqcbridge_legacy_edge_cl.Gateway.Server.{serve_one}
use pqcbridge_legacy_edge_cl.Cloud.Store
use pqcbridge_legacy_edge_cl.Cloud.Server.{Cloud, receive_one}
use pqcbridge_legacy_edge_cl.Bridge.Delivery.{serve_one_forwards, receive_one_stores}

-- Every random draw has twelve bytes.
abbrev pub DrawsNonces : Host → Type 0
DrawsNonces host = (i : ℕ) → (length (host.urandom i) ≡ nonce_length) × AreBytes (host.urandom i)

-- The reading of the next round.
abbrev pub next_reading : Text → Text → Device → Message
next_reading timestamp temperature d =
    generate_reading d.device_id (next_ℤ d.sequence) timestamp temperature

pub named_device :
    (timestamp temperature : Text) (d : Device)
    → (get (next_reading timestamp temperature d) (codes "device_id") ≡ some (str d.device_id))
      × (get (next_reading timestamp temperature d) (codes "sequence")
          ≡ some (int (next_ℤ d.sequence)))
unfolding generate_reading get text_eq
named_device timestamp temperature d = (refl, refl)

-- The three processes have the same library, and draw nonces of the right size.
module _ (device gateway cloud : Host) (shared : device.library ≡ gateway.library)
    (common : gateway.library ≡ cloud.library) (laws : Laws gateway.library)
    (device_draws : DrawsNonces device) (gateway_draws : DrawsNonces gateway)
    (gateway_deep : 0 < gateway.nesting) (cloud_deep : 0 < cloud.nesting) where
  -- Under the laws of the library, which the three processes share, with twelve-byte draws,
  -- sockets on which no send and a disk on which no write fails, an established channel, a session
  -- under the key of the channel, texts without surrogates, a session id that is not empty, a
  -- sequence of at most 4300 digits that is above the last accepted one at both guards, a
  -- temperature written with a fraction, and messages within the largest size: one round of the
  -- device sends a message; a round of the gateway that reads the bytes of that message returns,
  -- and has sent the message that it builds for the reading; a round of the cloud that reads those
  -- bytes returns, and has added the reading of the device to the store.
  pub reading_delivered :
      (timestamp temperature : Text) (d : Device) (message : Message) (g : Gateway)
      (c : CloudChannel) (session_id : Text) (session_key : Bytes) (sent : List Bytes)
      (protected : Message) (k : Cloud) (sock : Sock) (rest rest' : Bytes) (stalls stalls' : Bool)
      → All IsScalar d.device_id
      → IsShort (next_ℤ d.sequence)
      → All IsScalar timestamp
      → IsDecimal temperature
      → d.sock.faults ≡ []
      → d.disk.writes ≡ []
      → message_of device timestamp temperature d ≡ ok message
      → length (encode_message message) ≤ max_message_bytes
      → last_seen g.replay (Key.text d.device_id) <ℤ next_ℤ d.sequence
      → All IsScalar session_id
      → session_id ≢ []
      → build_protected_reading gateway.library
          (gateway.urandom g.drawn)
          (reading_to_bytes (next_reading timestamp temperature d))
          session_key
          session_id
        ≡ ok protected
      → length (encode_message protected) ≤ max_message_bytes
      → last_seen k.replay (Key.text d.device_id) <ℤ next_ℤ d.sequence
      → let (sends, d') = send_one device timestamp temperature d in
        let (serves, l) = serve_one gateway d.device_id d.key (record {
          gateway = with_channel gateway g c session_id session_key sent;
          stream = arriving message rest stalls;
        }) in
        let (receives, m) =
          receive_one cloud session_id session_key
            (record { cloud = k; sock = sock; stream = arriving protected rest' stalls' }) in
        (sends ≡ ok tt)
        × (d'.sock.sent ≡ d.sock.sent ++ encode_message message ∷ [])
        × (serves ≡ ok tt)
        × (l.gateway.channel
            ≡ working c session_id session_key (sent ++ encode_message protected ∷ []))
        × (receives ≡ ok tt)
        × (m.cloud.store ≡ Store.add (next_reading timestamp temperature d) k.store)
  reading_delivered timestamp temperature d message g c session_id session_key sent protected k sock
        rest rest' stalls stalls' scalars short timed measured works kept built fits above scalar
        named sealed fits' above' =
      let reading = next_reading timestamp temperature d in
      let plaintext = reading_to_bytes reading in
      let sequence = next_ℤ d.sequence in
      let parsed = λ (nesting : ℕ) (deep : 0 < nesting).
        parse_reading_bytes-generate_reading nesting d.device_id sequence timestamp temperature deep
          scalars short timed measured in
      let sending =
        sent_lem device timestamp temperature d message built _ _
          (sendall_works (encode_message message) d.sock works)
          (save_sequence_works sequence d.disk short kept) in
      let (is_of, numbered) = named_device timestamp temperature d in
      let (serves, channel, _, _, _) =
        serve_one_forwards gateway laws gateway_deep message fits rest stalls g c session_id
          session_key sent (device.urandom d.drawn) d.key d.device_id sequence plaintext reading
          protected scalars short (device_draws d.drawn).0 (device_draws d.drawn).1
          (parsed gateway.nesting gateway_deep)
          (subst
            (λ (lib : Library).
              legacy_reading lib (device.urandom d.drawn) d.key d.device_id sequence plaintext
              ≡ ok message)
            shared built)
          above sealed in
      let (receives, store, _, _) =
        receive_one_stores cloud (subst Laws common laws) cloud_deep protected fits' rest' stalls' k
          sock (gateway.urandom g.drawn) session_id session_key plaintext d.device_id sequence
          reading scalar named (gateway_draws g.drawn).0 (gateway_draws g.drawn).1
          (parsed cloud.nesting cloud_deep) is_of numbered
          (subst
            (λ (lib : Library).
              build_protected_reading lib (gateway.urandom g.drawn) plaintext session_key session_id
              ≡ ok protected)
            common sealed)
          above' in
      rw sending (refl, refl, serves, channel, receives, store)
