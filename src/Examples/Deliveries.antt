-- ===== src/Examples/Deliveries.antt =====
-- The theorems on messages as bytes, at concrete inputs.
use pqcbridge_legacy_edge_cl.Base.{
  ◌≤◌, ◌≡◌, refl, ap, sym, arith, true, false, none, some, some-injective, [], ◌∷◌, ◌++◌, length,
  Bytes, codes, pos, ◌<ℤ◌, inl, Eq_text,
}
use pqcbridge_legacy_edge_cl.Result.{ok}
use pqcbridge_legacy_edge_cl.Dict.{get}
use pqcbridge_legacy_edge_cl.Encoding.Decimal.{show_nat, show_int, low_digits, reversed_onto}
use pqcbridge_legacy_edge_cl.Encoding.Integer.{str_int}
use pqcbridge_legacy_edge_cl.Encoding.Base64.{b64encode}
use pqcbridge_legacy_edge_cl.Encoding.Utf8.{utf8_encode}
use pqcbridge_legacy_edge_cl.Json.{Message, str, int, obj, of_entries}
use pqcbridge_legacy_edge_cl.Protocol.Socket.{Sock}
use pqcbridge_legacy_edge_cl.Protocol.Stream.{read_message}
use pqcbridge_legacy_edge_cl.Protocol.Stream.Framing.{arriving, read_message-encode_message}
use pqcbridge_legacy_edge_cl.Bridge.Messages.{legacy_with-IsSendable}
use pqcbridge_legacy_edge_cl.Json.Dumps.{dumps}
use pqcbridge_legacy_edge_cl.Json.RoundTrip.Printable.{
  IsShort, IsDecimal, IsPrintable, shown-IsScalar,
}
use pqcbridge_legacy_edge_cl.Protocol.Fields.{b64e, encode_message, max_message_bytes}
use pqcbridge_legacy_edge_cl.Protocol.Aad.{
  legacy_message_aad, session_message_aad, encode_utf8, parse_reading_bytes,
}
use pqcbridge_legacy_edge_cl.Crypto.Aead.{encrypt_legacy_payload, encrypt_session_payload}
use pqcbridge_legacy_edge_cl.Config.{Host}
use pqcbridge_legacy_edge_cl.Replay.{Key, last_seen, check_and_update}
use pqcbridge_legacy_edge_cl.Device.Sensor.{reading_to_bytes, generate_reading}
use pqcbridge_legacy_edge_cl.Device.Sensor.RoundTrip.{parse_reading_bytes-generate_reading}
use pqcbridge_legacy_edge_cl.Device.Client.{Device, legacy_reading, send_one}
use pqcbridge_legacy_edge_cl.Device.Client.Sending.{message_of}
use pqcbridge_legacy_edge_cl.Gateway.Processing.{build_protected_reading, decrypt_legacy_message}
use pqcbridge_legacy_edge_cl.Gateway.State.{new_gateway}
use pqcbridge_legacy_edge_cl.Gateway.Channel.Works.{working, with_channel}
use pqcbridge_legacy_edge_cl.Gateway.Server.{serve_one}
use pqcbridge_legacy_edge_cl.Gateway.Threads.{System, waiting, accepted, check, here, next}
use pqcbridge_legacy_edge_cl.Gateway.Threads.Once.{SentOnce, Reach-SentOnce}
use pqcbridge_legacy_edge_cl.Gateway.Threads.Rounds.{IsRun, handle_reading-IsRun}
use pqcbridge_legacy_edge_cl.Bridge.Hops.{decrypt_legacy_message-legacy_reading}
use pqcbridge_legacy_edge_cl.Replay.Sequences.{accepted_iff}
use pqcbridge_legacy_edge_cl.Cloud.Store
use pqcbridge_legacy_edge_cl.Cloud.Server.{receive_one}
use pqcbridge_legacy_edge_cl.Bridge.EndToEnd.{DrawsNonces, next_reading, reading_delivered}
use pqcbridge_legacy_edge_cl.Examples.Clouds.{empty_cloud}
use pqcbridge_legacy_edge_cl.Examples.Toy.{
  toy, toy-Laws, toy_encrypt, sized, context, unary, mark, repeat,
}
use pqcbridge_legacy_edge_cl.Examples.Sample.{sample_host, sample_key, sample_gateway, sample_sock}

-- A process whose draws are all alike: here only their size matters.
abbrev pub steady_host : Host
steady_host = record sample_host { urandom = λ n. repeat 12 1 }

pub steady_draws : DrawsNonces steady_host
unfolding repeat
steady_draws i = (refl, ground arith)

-- A short reading: the ciphertexts of the concrete library are in unary.
abbrev pub meter : Device
meter = record {
  device_id = codes "d";
  key = sample_key;
  sequence = pos 6;
  disk = record { file = none; writes = [] };
  sock = record { sent = []; faults = [] };
  drawn = 1;
}

pub meter_text : Bytes
unfolding reading_to_bytes generate_reading
meter_text = reading_to_bytes (next_reading (codes "t") (codes "2.5") meter)

abbrev sealed_meter : Bytes → Bytes → Bytes
sealed_meter nonce aad = context sample_key nonce (some aad) ++ unary meter_text

abbrev pub meter_message : Message
meter_message =
    (codes "type", str (codes "legacy_reading"))
    ∷ (codes "device_id", str (codes "d"))
    ∷ (codes "seq", int (pos 7))
    ∷ (codes "nonce", str (b64e (repeat 12 1)))
    ∷ (codes "ciphertext", str (b64e (sealed_meter (repeat 12 1) (codes "d:7"))))
    ∷ []

pub meter_built : message_of steady_host (codes "t") (codes "2.5") meter ≡ ok meter_message
unfolding legacy_reading legacy_message_aad str_int show_nat low_digits reversed_onto encode_utf8
    encrypt_legacy_payload toy_encrypt sized repeat utf8_encode show_int meter_text
meter_built = refl

pub meter_fits : length (encode_message meter_message) ≤ max_message_bytes
unfolding encode_message dumps b64e b64encode repeat unary mark context meter_text show_int
meter_fits = omega arith

abbrev pub meter_protected : Message
meter_protected =
    (codes "type", str (codes "protected_reading"))
    ∷ (codes "session_id", str (codes "s1"))
    ∷ (codes "nonce", str (b64e (repeat 12 1)))
    ∷ (codes "ciphertext", str (b64e (sealed_meter (repeat 12 1) (codes "s1"))))
    ∷ []

pub meter_sealed :
    build_protected_reading toy
      (repeat 12 1)
      (reading_to_bytes (next_reading (codes "t") (codes "2.5") meter))
      sample_key
      (codes "s1")
    ≡ ok meter_protected
unfolding build_protected_reading session_message_aad encode_utf8 encrypt_session_payload
    toy_encrypt sized repeat utf8_encode meter_text
meter_sealed = refl

pub protected_fits : length (encode_message meter_protected) ≤ max_message_bytes
unfolding encode_message dumps b64e b64encode repeat unary mark context meter_text show_int
protected_fits = omega arith

pub new_for_gateway : last_seen sample_gateway.replay (Key.text (codes "d")) <ℤ pos 7
unfolding last_seen get new_gateway
new_for_gateway = ground arith

pub new_for_cloud : last_seen empty_cloud.replay (Key.text (codes "d")) <ℤ pos 7
unfolding last_seen get
new_for_cloud = ground arith

pub seven-IsShort : IsShort (pos 7)
unfolding show_nat low_digits reversed_onto
seven-IsShort = omega arith

pub two_and_a_half-IsDecimal : IsDecimal (codes "2.5")
unfolding show_nat low_digits reversed_onto
two_and_a_half-IsDecimal = (false, 2, codes "5", refl, refl, omega arith)

reading_delivered_example :
    let (sends, d') = send_one steady_host (codes "t") (codes "2.5") meter in
    let (serves, l) = serve_one steady_host (codes "d") sample_key (record {
      gateway =
          with_channel steady_host sample_gateway sample_gateway.channel (codes "s1") sample_key [];
      stream = arriving meter_message [] false;
    }) in
    let (receives, m) = receive_one steady_host (codes "s1") sample_key (record {
      cloud = empty_cloud;
      sock = sample_sock;
      stream = arriving meter_protected [] true;
    }) in
    (sends ≡ ok tt)
    × (d'.sock.sent ≡ [] ++ encode_message meter_message ∷ [])
    × (serves ≡ ok tt)
    × (l.gateway.channel
        ≡ working sample_gateway.channel
            (codes "s1")
            sample_key
            ([] ++ encode_message meter_protected ∷ []))
    × (receives ≡ ok tt)
    × (m.cloud.store ≡ Store.add (next_reading (codes "t") (codes "2.5") meter) empty_cloud.store)
reading_delivered_example =
    reading_delivered steady_host steady_host steady_host refl refl toy-Laws steady_draws
      steady_draws (omega arith) (omega arith) (codes "t") (codes "2.5") meter meter_message
      sample_gateway sample_gateway.channel (codes "s1") sample_key [] meter_protected empty_cloud
      sample_sock [] [] false true (shown-IsScalar (codes "d") refl) seven-IsShort
      (shown-IsScalar (codes "t") refl) two_and_a_half-IsDecimal refl refl meter_built meter_fits
      new_for_gateway (shown-IsScalar (codes "s1") refl) (ground arith) meter_sealed protected_fits
      new_for_cloud

deep_enough : IsPrintable 100 (obj (of_entries meter_message))
unfolding show_nat low_digits reversed_onto
deep_enough =
    legacy_with-IsSendable 100 (omega arith) (codes "d") (pos 7) (repeat 12 1)
      (sealed_meter (repeat 12 1) (codes "d:7")) (shown-IsScalar (codes "d") refl) seven-IsShort

read_message-encode_message_example :
    read_message 100
      (record { buffer = encode_message meter_message ++ codes "oops"; stalls = false })
    ≡ (ok meter_message, record { buffer = codes "oops"; stalls = false })
read_message-encode_message_example =
    read_message-encode_message 100 meter_message (codes "oops") false deep_enough meter_fits

parse_reading_bytes-generate_reading_example :
    parse_reading_bytes 100
      (reading_to_bytes (generate_reading (codes "d") (pos 7) (codes "t") (codes "2.5")))
    ≡ ok (generate_reading (codes "d") (pos 7) (codes "t") (codes "2.5"))
parse_reading_bytes-generate_reading_example =
    parse_reading_bytes-generate_reading 100 (codes "d") (pos 7) (codes "t") (codes "2.5")
      (omega arith) (shown-IsScalar (codes "d") refl) seven-IsShort
      (shown-IsScalar (codes "t") refl) two_and_a_half-IsDecimal

-- One thread, whose device sends the message.
abbrev lone : System
lone = record {
  gateway =
      with_channel steady_host sample_gateway sample_gateway.channel (codes "s1") sample_key [];
  threads = waiting (codes "d") sample_key ∷ [];
  opening = [];
  sent = [];
  earlier = [];
}

handle_reading-IsRun_example :
    IsRun steady_host (codes "d") sample_key meter_message [] [] lone refl
handle_reading-IsRun_example =
    handle_reading-IsRun steady_host (codes "d") sample_key meter_message [] [] lone refl

meter_opens :
    decrypt_legacy_message toy 100 meter_message sample_key (codes "d") ≡ ok (meter_text, pos 7)
unfolding meter_text
meter_opens =
    decrypt_legacy_message-legacy_reading toy toy-Laws 100 (repeat 12 1) sample_key (codes "d")
      (pos 7) (reading_to_bytes (next_reading (codes "t") (codes "2.5") meter)) meter_message
      (next_reading (codes "t") (codes "2.5") meter) (steady_draws 1).0 (steady_draws 1).1
      (parse_reading_bytes-generate_reading 100 (codes "d") (pos 7) (codes "t") (codes "2.5")
        (omega arith) (shown-IsScalar (codes "d") refl) seven-IsShort
        (shown-IsScalar (codes "t") refl) two_and_a_half-IsDecimal)
      meter_built

-- The thread with the reading that the guard has accepted.
abbrev loaded : System
loaded = record lone {
  gateway = record lone.gateway {
    replay = (check_and_update (Key.text (codes "d")) (pos 7) lone.gateway.replay).1;
  };
  threads = accepted (codes "d") sample_key (pos 7) meter_text ∷ [];
}

Reach-SentOnce_example : SentOnce loaded
Reach-SentOnce_example =
    Reach-SentOnce steady_host lone loaded
      (next here (
        check [] [] (codes "d") sample_key meter_message meter_text (pos 7) refl meter_opens
          ((accepted_iff (Key.text (codes "d")) (pos 7) lone.gateway.replay).1 new_for_gateway) refl
          refl refl refl refl refl))
      (
        λ p. (omega arith, inl refl),
        λ k there. ap (λ (l : Sock). l.sent) (some-injective (sym there)),
      )
