-- ===== src/Bridge/Collecting.antt =====
-- The loops of a device, of the gateway and of the cloud, over the bytes that the one sends and the
-- next reads.
use pqcbridge_legacy_edge_cl.Base.{
  ℕ, zero, suc, ◌+◌, ◌<◌, ◌≤◌, ◌≡◌, ◌≢◌, refl, ap, ◌∙◌, arith, false, List, [], ◌∷◌, ◌++◌, All,
  length, Bytes, Text, ℤ, ◌<ℤ◌, next_ℤ,
}
use mathlib.Core.Path.{subst}
use pqcbridge_legacy_edge_cl.Result.{ok, err, connection_closed, keyboard_interrupt}
use pqcbridge_legacy_edge_cl.Exec.{forever}
use pqcbridge_legacy_edge_cl.Json.{Message}
use pqcbridge_legacy_edge_cl.Json.Strings.{IsScalar}
use pqcbridge_legacy_edge_cl.Json.RoundTrip.Printable.{IsShort, IsDecimal}
use pqcbridge_legacy_edge_cl.Protocol.Fields.{encode_message, max_message_bytes}
use pqcbridge_legacy_edge_cl.Protocol.Socket.{Sock}
use pqcbridge_legacy_edge_cl.Crypto.Library.{Library, Laws}
use pqcbridge_legacy_edge_cl.Config.{Host}
use pqcbridge_legacy_edge_cl.Replay.{Key, last_seen}
use pqcbridge_legacy_edge_cl.Replay.Sequences.{accepted_iff, last_seen-accepted}
use pqcbridge_legacy_edge_cl.Device.Sensor.{generate_reading, reading_to_bytes}
use pqcbridge_legacy_edge_cl.Device.Sensor.RoundTrip.{parse_reading_bytes-generate_reading}
use pqcbridge_legacy_edge_cl.Device.Client.{Device, send_all}
use pqcbridge_legacy_edge_cl.Gateway.Processing.{build_protected_reading}
use pqcbridge_legacy_edge_cl.Gateway.State.{CloudChannel, Gateway}
use pqcbridge_legacy_edge_cl.Gateway.Channel.Works.{working, with_channel}
use pqcbridge_legacy_edge_cl.Gateway.Server.{serve_legacy}
use pqcbridge_legacy_edge_cl.Cloud.Store
use pqcbridge_legacy_edge_cl.Cloud.Store.Retention.{add_all}
use pqcbridge_legacy_edge_cl.Cloud.Server.{Cloud, receive_one, receive_readings, on_stream}
use pqcbridge_legacy_edge_cl.Bridge.Delivery.{receive_one_stores}
use pqcbridge_legacy_edge_cl.Bridge.EndToEnd.{DrawsNonces, next_reading, named_device}
use pqcbridge_legacy_edge_cl.Bridge.Streaming.{
  lines, bytes_of, inbound, outbound, behind, Passes, readings_forwarded, encode_message_takes,
  closed_stream, less_next,
}

-- The readings of a device, from behind a sequence on.
abbrev pub readings_of : Text → ℤ → List (Text × Text) → List Message
readings_of device_id n [] = []
readings_of device_id n ((timestamp, temperature) ∷ rounds) =
    generate_reading device_id (next_ℤ n) timestamp temperature
    ∷ readings_of device_id (next_ℤ n) rounds

module _ (device gateway cloud : Host) (session_id : Text) (session_key : Bytes)
    (common : gateway.library ≡ cloud.library) (laws : Laws gateway.library)
    (draws : DrawsNonces gateway) (deep : 0 < cloud.nesting) (scalar : All IsScalar session_id)
    (named : session_id ≢ []) where
  -- One round of the cloud.
  stored :
      (d : Device) (timestamp temperature : Text) (drawn : ℕ) (protected : Message) (rest : Bytes)
      (k : Cloud) (sock : Sock)
      → All IsScalar d.device_id
      → last_seen k.replay (Key.text d.device_id) <ℤ next_ℤ d.sequence
      → IsShort (next_ℤ d.sequence)
      → All IsScalar timestamp
      → IsDecimal temperature
      → build_protected_reading gateway.library
          (gateway.urandom drawn)
          (reading_to_bytes (next_reading timestamp temperature d))
          session_key
          session_id
        ≡ ok protected
      → length (encode_message protected) ≤ max_message_bytes
      → (k' : Cloud) × (sock' : Sock) × (receive_one cloud session_id session_key (record {
        cloud = k;
        sock = sock;
        stream = record { buffer = encode_message protected ++ rest; stalls = false };
      })
          ≡ (
            ok tt,
            record { cloud = k'; sock = sock'; stream = record { buffer = rest; stalls = false } },
          ))
        × (k'.store ≡ Store.add (next_reading timestamp temperature d) k.store)
        × (last_seen k'.replay (Key.text d.device_id) ≡ next_ℤ d.sequence)
  stored d timestamp temperature drawn protected rest k sock scalars above short timed measured
        sealed fits =
      let sequence = next_ℤ d.sequence in
      let reading = next_reading timestamp temperature d in
      let out = receive_one cloud session_id session_key (record {
        cloud = k;
        sock = sock;
        stream = record { buffer = encode_message protected ++ rest; stalls = false };
      }) in
      let (is_of, numbered) = named_device timestamp temperature d in
      let (receives, store, replay, stream) =
        receive_one_stores cloud (subst Laws common laws) deep protected fits rest false k sock
          (gateway.urandom drawn) session_id session_key (reading_to_bytes reading) d.device_id
          sequence reading scalar named (draws drawn).0 (draws drawn).1
          (parse_reading_bytes-generate_reading cloud.nesting d.device_id sequence timestamp
            temperature deep scalars short timed measured)
          is_of numbered
          (subst
            (λ (lib : Library).
              build_protected_reading lib (gateway.urandom drawn) (reading_to_bytes reading)
                session_key session_id
              ≡ ok protected)
            common sealed)
          above in
      (
        out.1.cloud,
        out.1.sock,
        (λ i. (receives i, record out.1 { stream = stream i })),
        store,
        rw replay (
            last_seen-accepted (Key.text d.device_id) sequence k.replay
              ((accepted_iff (Key.text d.device_id) sequence k.replay).1 above)),
      )

  -- The loop of the cloud, on fuel above the bytes that arrive.
  forever_stores :
      (rounds : List (Text × Text)) (d : Device) (drawn : ℕ) (hops : List (Message × Message))
      (k : Cloud) (sock : Sock) (fuel : ℕ)
      → All IsScalar d.device_id
      → last_seen k.replay (Key.text d.device_id) <ℤ next_ℤ d.sequence
      → Passes device gateway session_id session_key rounds d drawn hops
      → length (bytes_of (outbound hops)) < fuel
      → let (r, l) = forever fuel (receive_one cloud session_id session_key) (record {
        cloud = k;
        sock = sock;
        stream = record { buffer = bytes_of (outbound hops); stalls = false };
      }) in
        (r ≡ err connection_closed)
        × (l.cloud.store ≡ add_all (readings_of d.device_id d.sequence rounds) k.store)
  unfolding forever receive_one on_stream add_all
  forever_stores rounds d drawn hops k sock zero scalars above h enough =
      absurd (omega (arith, enough))
  forever_stores [] d drawn [] k sock (suc n) scalars above h enough =
      rw (closed_stream cloud.nesting) (refl, refl)
  forever_stores [] d drawn (hop ∷ hops) k sock (suc n) scalars above h enough = elim h [ ]
  forever_stores ((timestamp, temperature) ∷ rounds) d drawn [] k sock (suc n) scalars above h
        enough =
      elim h [ ]
  forever_stores ((timestamp, temperature) ∷ rounds) d drawn ((message, protected) ∷ hops) k sock
        (suc n) scalars above (short, timed, measured, built, fits, sealed, small, h) enough =
      let rest = bytes_of (outbound hops) in
      let (k', sock', goes, store, last) =
        stored d timestamp temperature drawn protected rest k sock scalars above short timed
          measured sealed small in
      let (ends, all_stored) =
        forever_stores rounds (behind message d) (drawn + 1) hops k' sock' n scalars
          (rw last (less_next (next_ℤ d.sequence))) h
          (omega (arith, encode_message_takes protected rest, enough)) in
      rw goes
        (ends, all_stored ∙ ap (add_all (readings_of d.device_id (next_ℤ d.sequence) rounds)) store)

  -- Under the laws of the library, which the three processes share, with twelve-byte draws,
  -- sockets on which no send and a disk on which no write fails, an established channel, a session
  -- under the key of the channel, a device id and a session id without surrogates and not empty, a
  -- sequence of the device that is not below the last accepted one at either guard, and rounds for
  -- which the device and the gateway have messages within the largest size, with times without
  -- surrogates, temperatures written with a fraction and sequences of at most 4300 digits: the
  -- loop of the device sends one message in each round until it is interrupted; the loop of the
  -- gateway, on the bytes of these messages, ends only where the connection is closed, and has
  -- then sent one message for each of them; and the loop of the cloud, on the bytes of those, ends
  -- only where the connection is closed, and has then added all the readings of the device to the
  -- store, in their order.
  pub readings_delivered :
      (shared : device.library ≡ gateway.library) (device_draws : DrawsNonces device)
      (gateway_deep : 0 < gateway.nesting) (c : CloudChannel) (rounds : List (Text × Text))
      (d : Device) (hops : List (Message × Message)) (g : Gateway) (sent : List Bytes) (k : Cloud)
      (sock : Sock)
      → All IsScalar d.device_id
      → d.sock.faults ≡ []
      → d.disk.writes ≡ []
      → last_seen g.replay (Key.text d.device_id) <ℤ next_ℤ d.sequence
      → last_seen k.replay (Key.text d.device_id) <ℤ next_ℤ d.sequence
      → Passes device gateway session_id session_key rounds d g.drawn hops
      → let (sends, d') = send_all device rounds d in
        let (serves, l) = serve_legacy gateway d.device_id d.key (record {
          gateway = with_channel gateway g c session_id session_key sent;
          stream = record { buffer = bytes_of (inbound hops); stalls = false };
        }) in
        let (receives, m) = receive_readings cloud session_id session_key (record {
          cloud = k;
          sock = sock;
          stream = record { buffer = bytes_of (outbound hops); stalls = false };
        }) in
        (sends ≡ err keyboard_interrupt)
        × (d'.sock.sent ≡ d.sock.sent ++ lines (inbound hops))
        × (serves ≡ err connection_closed)
        × (l.gateway.channel ≡ working c session_id session_key (sent ++ lines (outbound hops)))
        × (receives ≡ err connection_closed)
        × (m.cloud.store ≡ add_all (readings_of d.device_id d.sequence rounds) k.store)
  unfolding receive_readings
  readings_delivered shared device_draws gateway_deep c rounds d hops g sent k sock scalars works
        kept above above' h =
      let (ends, sends, closes, channel) =
        readings_forwarded device gateway session_id session_key shared laws device_draws
          gateway_deep c rounds d hops g sent scalars works kept above h in
      let (leaves, store) =
        forever_stores rounds d g.drawn hops k sock (suc (length (bytes_of (outbound hops))))
          scalars above' h (omega arith) in
      (ends, sends, closes, channel, leaves, store)
