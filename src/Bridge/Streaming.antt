-- ===== src/Bridge/Streaming.antt =====
-- The loop of a device and the loop of the gateway over the bytes that it sends.
use pqcbridge_legacy_edge_cl.Base.{
  ℕ, zero, suc, ◌+◌, ◌<◌, ◌≤◌, ◌≡◌, some, refl, ap, sym, ◌∙◌, arith, false, List, [], ◌∷◌, ◌++◌,
  append_assoc, append-nil, All, length, length-append, Bytes, Text, ℤ, ◌<ℤ◌, next_ℤ, pos, negsuc,
}
use mathlib.Core.Path.{subst}
use pqcbridge_legacy_edge_cl.Result.{ok, err, connection_closed, keyboard_interrupt}
use pqcbridge_legacy_edge_cl.Exec.{forever}
use pqcbridge_legacy_edge_cl.Json.{Message, obj, of_entries}
use pqcbridge_legacy_edge_cl.Json.Dumps.{dumps}
use pqcbridge_legacy_edge_cl.Json.Strings.{IsScalar}
use pqcbridge_legacy_edge_cl.Json.RoundTrip.Printable.{IsShort, IsDecimal}
use pqcbridge_legacy_edge_cl.Protocol.Fields.{encode_message, max_message_bytes}
use pqcbridge_legacy_edge_cl.Protocol.Stream.{
  take_line, ends_with_newline, readline, accept_line, read_message,
}
use pqcbridge_legacy_edge_cl.Crypto.Library.{Library, Laws}
use pqcbridge_legacy_edge_cl.Config.{Host}
use pqcbridge_legacy_edge_cl.Replay.{Key, last_seen}
use pqcbridge_legacy_edge_cl.Replay.Sequences.{accepted_iff, last_seen-accepted}
use pqcbridge_legacy_edge_cl.Device.Sensor.{reading_to_bytes}
use pqcbridge_legacy_edge_cl.Device.Sensor.RoundTrip.{parse_reading_bytes-generate_reading}
use pqcbridge_legacy_edge_cl.Encoding.Decimal.{show_int}
use pqcbridge_legacy_edge_cl.Device.Counter.Saving.{save_sequence_works}
use pqcbridge_legacy_edge_cl.Device.Client.{Device, legacy_reading, send_all}
use pqcbridge_legacy_edge_cl.Device.Client.Sending.{message_of, sent_lem}
use pqcbridge_legacy_edge_cl.Device.Client.Delivery.{sendall_works}
use pqcbridge_legacy_edge_cl.Gateway.Processing.{build_protected_reading}
use pqcbridge_legacy_edge_cl.Gateway.State.{CloudChannel, Gateway}
use pqcbridge_legacy_edge_cl.Gateway.Channel.Works.{working, with_channel}
use pqcbridge_legacy_edge_cl.Gateway.Server.{serve_one, serve_legacy, on_stream}
use pqcbridge_legacy_edge_cl.Bridge.Delivery.{serve_one_forwards}
use pqcbridge_legacy_edge_cl.Bridge.EndToEnd.{DrawsNonces, next_reading}

-- The lines of messages, and their bytes one after the other.
abbrev pub lines : List Message → List Bytes
lines [] = []
lines (m ∷ ms) = encode_message m ∷ lines ms

abbrev pub bytes_of : List Message → Bytes
bytes_of [] = []
bytes_of (m ∷ ms) = encode_message m ++ bytes_of ms

pub encode_message_takes :
    (m : Message) (rest : Bytes) → length rest < length (encode_message m ++ rest)
unfolding encode_message
encode_message_takes m rest = omega (
  arith,
  length-append (encode_message m) rest,
  length-append (dumps (obj (of_entries m))) (10 ∷ []),
)

-- The device when it has sent the message of a round.
abbrev pub behind : Message → Device → Device
behind message d = record d {
  sequence = next_ℤ d.sequence;
  drawn = d.drawn + 1;
  sock = record d.sock { sent = d.sock.sent ++ encode_message message ∷ [] };
  disk = record d.disk { file = some (show_int (next_ℤ d.sequence)) };
}

-- A peer that has closed the connection.
pub closed_stream :
    (nesting : ℕ)
    → read_message nesting (record { buffer = []; stalls = false })
      ≡ (err connection_closed, record { buffer = []; stalls = false })
unfolding read_message readline take_line ends_with_newline accept_line
closed_stream nesting = refl

-- What arrives at the gateway, and what leaves it.
abbrev pub inbound : List (Message × Message) → List Message
inbound [] = []
inbound ((message, protected) ∷ hops) = message ∷ inbound hops

abbrev pub outbound : List (Message × Message) → List Message
outbound [] = []
outbound ((message, protected) ∷ hops) = protected ∷ outbound hops

pub less_next : (n : ℤ) → n <ℤ next_ℤ n
less_next (pos n) = omega arith
less_next (negsuc zero) = omega arith
less_next (negsuc (suc n)) = omega arith

module _ (device gateway : Host) (session_id : Text) (session_key : Bytes) where
  -- Each round of the device has a message, and for each message the gateway has one for the cloud,
  -- with the draw that comes then. All of them are within the largest size.
  abbrev pub Passes : List (Text × Text) → Device → ℕ → List (Message × Message) → Type 0
  Passes [] d drawn [] = Unit {0}
  Passes [] d drawn (_ ∷ _) = ⊥
  Passes (_ ∷ _) d drawn [] = ⊥
  Passes ((timestamp, temperature) ∷ rounds) d drawn ((message, protected) ∷ hops) =
      IsShort (next_ℤ d.sequence)
      × All IsScalar timestamp
      × IsDecimal temperature
      × (message_of device timestamp temperature d ≡ ok message)
      × (length (encode_message message) ≤ max_message_bytes)
      × (build_protected_reading gateway.library (gateway.urandom drawn)
            (reading_to_bytes (next_reading timestamp temperature d)) session_key session_id
          ≡ ok protected)
      × (length (encode_message protected) ≤ max_message_bytes)
      × Passes rounds (behind message d) (drawn + 1) hops

  -- The loop of the device sends the messages, and then is interrupted.
  pub send_all-Passes :
      (rounds : List (Text × Text)) (d : Device) (drawn : ℕ) (hops : List (Message × Message))
      → Passes rounds d drawn hops
      → d.sock.faults ≡ []
      → d.disk.writes ≡ []
      → ((send_all device rounds d).0 ≡ err keyboard_interrupt)
        × ((send_all device rounds d).1.sock.sent ≡ d.sock.sent ++ lines (inbound hops))
  unfolding send_all
  send_all-Passes [] d drawn [] h works kept = (refl, sym (append-nil d.sock.sent))
  send_all-Passes [] d drawn (hop ∷ hops) h works kept = elim h [ ]
  send_all-Passes ((timestamp, temperature) ∷ rounds) d drawn [] h works kept = elim h [ ]
  send_all-Passes ((timestamp, temperature) ∷ rounds) d drawn ((message, protected) ∷ hops)
        (short, timed, measured, built, fits, sealed, _, h) works kept =
      let (ends, sent) = send_all-Passes rounds (behind message d) (drawn + 1) hops h works kept in
      rw
        (sent_lem device timestamp temperature d message built _ _
          (sendall_works (encode_message message) d.sock works)
          (save_sequence_works (next_ℤ d.sequence) d.disk short kept))
        (ends, sent ∙ append_assoc d.sock.sent (encode_message message ∷ []) (lines (inbound hops)))

  module _ (shared : device.library ≡ gateway.library) (laws : Laws gateway.library)
      (draws : DrawsNonces device) (deep : 0 < gateway.nesting) (c : CloudChannel) where
    -- One round of the gateway.
    served :
        (d : Device) (timestamp temperature : Text) (message protected : Message) (rest : Bytes)
        (g : Gateway) (sent : List Bytes)
        → All IsScalar d.device_id
        → last_seen g.replay (Key.text d.device_id) <ℤ next_ℤ d.sequence
        → IsShort (next_ℤ d.sequence)
        → All IsScalar timestamp
        → IsDecimal temperature
        → message_of device timestamp temperature d ≡ ok message
        → length (encode_message message) ≤ max_message_bytes
        → build_protected_reading gateway.library
            (gateway.urandom g.drawn)
            (reading_to_bytes (next_reading timestamp temperature d))
            session_key
            session_id
          ≡ ok protected
        → (g' : Gateway) × (serve_one gateway d.device_id d.key (record {
          gateway = with_channel gateway g c session_id session_key sent;
          stream = record { buffer = encode_message message ++ rest; stalls = false };
        })
            ≡ (
              ok tt,
              record {
                gateway =
                    with_channel gateway g' c session_id session_key
                      (sent ++ encode_message protected ∷ []);
                stream = record { buffer = rest; stalls = false };
              },
            ))
          × (g'.drawn ≡ g.drawn + 1)
          × (last_seen g'.replay (Key.text d.device_id) ≡ next_ℤ d.sequence)
    served d timestamp temperature message protected rest g sent scalars above short timed measured
          built fits sealed =
        let sequence = next_ℤ d.sequence in
        let reading = next_reading timestamp temperature d in
        let out = serve_one gateway d.device_id d.key (record {
          gateway = with_channel gateway g c session_id session_key sent;
          stream = record { buffer = encode_message message ++ rest; stalls = false };
        }) in
        let (serves, channel, replay, drawn, stream) =
          serve_one_forwards gateway laws deep message fits rest false g c session_id session_key
            sent (device.urandom d.drawn) d.key d.device_id sequence (reading_to_bytes reading)
            reading protected scalars short (draws d.drawn).0 (draws d.drawn).1
            (parse_reading_bytes-generate_reading gateway.nesting d.device_id sequence timestamp
              temperature deep scalars short timed measured)
            (subst
              (λ (lib : Library).
                legacy_reading lib (device.urandom d.drawn) d.key d.device_id sequence
                  (reading_to_bytes reading)
                ≡ ok message)
              shared built)
            above sealed in
        (
          out.1.gateway,
          (λ i. (
            serves i,
            record { gateway = record out.1.gateway { channel = channel i }; stream = stream i },
          )),
          drawn,
          rw replay (
              last_seen-accepted (Key.text d.device_id) sequence g.replay
                ((accepted_iff (Key.text d.device_id) sequence g.replay).1 above)),
        )

    -- The loop of the gateway, on fuel above the bytes that arrive.
    forever_forwards :
        (rounds : List (Text × Text)) (d : Device) (hops : List (Message × Message)) (g : Gateway)
        (sent : List Bytes) (fuel : ℕ)
        → All IsScalar d.device_id
        → last_seen g.replay (Key.text d.device_id) <ℤ next_ℤ d.sequence
        → Passes rounds d g.drawn hops
        → length (bytes_of (inbound hops)) < fuel
        → let (r, l) = forever fuel (serve_one gateway d.device_id d.key) (record {
          gateway = with_channel gateway g c session_id session_key sent;
          stream = record { buffer = bytes_of (inbound hops); stalls = false };
        }) in
          (r ≡ err connection_closed)
          × (l.gateway.channel ≡ working c session_id session_key (sent ++ lines (outbound hops)))
    unfolding forever serve_one on_stream
    forever_forwards rounds d hops g sent zero scalars above h enough =
        absurd (omega (arith, enough))
    forever_forwards [] d [] g sent (suc n) scalars above h enough =
        rw (closed_stream gateway.nesting, append-nil sent) (refl, refl)
    forever_forwards [] d (hop ∷ hops) g sent (suc n) scalars above h enough = elim h [ ]
    forever_forwards ((timestamp, temperature) ∷ rounds) d [] g sent (suc n) scalars above h
          enough =
        elim h [ ]
    forever_forwards ((timestamp, temperature) ∷ rounds) d ((message, protected) ∷ hops) g sent
          (suc n) scalars above (short, timed, measured, built, fits, sealed, _, h) enough =
        let rest = bytes_of (inbound hops) in
        let (g', goes, drawn, last) =
          served d timestamp temperature message protected rest g sent scalars above short timed
            measured built fits sealed in
        let (ends, channel) =
          forever_forwards rounds (behind message d) hops g' (sent ++ encode_message protected ∷ [])
            n scalars (rw last (less_next (next_ℤ d.sequence)))
            (subst (λ (k : ℕ). Passes rounds (behind message d) k hops) (sym drawn) h)
            (omega (arith, encode_message_takes message rest, enough)) in
        rw goes (
          ends,
          channel
              ∙ ap (working c session_id session_key)
                  (append_assoc sent (encode_message protected ∷ []) (lines (outbound hops))),
        )

    -- Both loops, over the bytes that the device sends.
    pub readings_forwarded :
        (rounds : List (Text × Text)) (d : Device) (hops : List (Message × Message)) (g : Gateway)
        (sent : List Bytes)
        → All IsScalar d.device_id
        → d.sock.faults ≡ []
        → d.disk.writes ≡ []
        → last_seen g.replay (Key.text d.device_id) <ℤ next_ℤ d.sequence
        → Passes rounds d g.drawn hops
        → let (sends, d') = send_all device rounds d in
          let (serves, l) = serve_legacy gateway d.device_id d.key (record {
            gateway = with_channel gateway g c session_id session_key sent;
            stream = record { buffer = bytes_of (inbound hops); stalls = false };
          }) in
          (sends ≡ err keyboard_interrupt)
          × (d'.sock.sent ≡ d.sock.sent ++ lines (inbound hops))
          × (serves ≡ err connection_closed)
          × (l.gateway.channel ≡ working c session_id session_key (sent ++ lines (outbound hops)))
    unfolding serve_legacy
    readings_forwarded rounds d hops g sent scalars works kept above h =
        let (ends, sends) = send_all-Passes rounds d g.drawn hops h works kept in
        let (closes, channel) =
          forever_forwards rounds d hops g sent (suc (length (bytes_of (inbound hops)))) scalars
            above h (omega arith) in
        (ends, sends, closes, channel)
