-- ===== src/Examples/Loops.antt =====
-- The loops of the three processes over two readings.
use pqcbridge_legacy_edge_cl.Base.{
  ◌≤◌, ◌≡◌, refl, arith, false, some, List, [], ◌∷◌, ◌++◌, length, Bytes, Text, codes, pos,
}
use pqcbridge_legacy_edge_cl.Result.{ok, err, connection_closed, keyboard_interrupt}
use pqcbridge_legacy_edge_cl.Encoding.Decimal.{show_nat, show_int, low_digits, reversed_onto}
use pqcbridge_legacy_edge_cl.Encoding.Integer.{str_int}
use pqcbridge_legacy_edge_cl.Encoding.Base64.{b64encode}
use pqcbridge_legacy_edge_cl.Encoding.Utf8.{utf8_encode}
use pqcbridge_legacy_edge_cl.Json.{Message, str, int}
use pqcbridge_legacy_edge_cl.Json.Dumps.{dumps}
use pqcbridge_legacy_edge_cl.Json.RoundTrip.Printable.{IsShort, shown-IsScalar}
use pqcbridge_legacy_edge_cl.Protocol.Fields.{b64e, encode_message, max_message_bytes}
use pqcbridge_legacy_edge_cl.Protocol.Aad.{legacy_message_aad, session_message_aad, encode_utf8}
use pqcbridge_legacy_edge_cl.Crypto.Aead.{encrypt_legacy_payload, encrypt_session_payload}
use pqcbridge_legacy_edge_cl.Device.Sensor.{reading_to_bytes, generate_reading}
use pqcbridge_legacy_edge_cl.Device.Client.{Device, legacy_reading, send_all}
use pqcbridge_legacy_edge_cl.Device.Client.Sending.{message_of}
use pqcbridge_legacy_edge_cl.Gateway.Processing.{build_protected_reading}
use pqcbridge_legacy_edge_cl.Gateway.Channel.Works.{working, with_channel}
use pqcbridge_legacy_edge_cl.Gateway.Server.{serve_legacy}
use pqcbridge_legacy_edge_cl.Cloud.Store.Retention.{add_all}
use pqcbridge_legacy_edge_cl.Cloud.Server.{receive_readings}
use pqcbridge_legacy_edge_cl.Bridge.EndToEnd.{next_reading}
use pqcbridge_legacy_edge_cl.Bridge.Streaming.{lines, bytes_of, inbound, outbound, behind, Passes}
use pqcbridge_legacy_edge_cl.Bridge.Collecting.{readings_of, readings_delivered}
use pqcbridge_legacy_edge_cl.Examples.Clouds.{empty_cloud}
use pqcbridge_legacy_edge_cl.Examples.Toy.{
  toy, toy-Laws, toy_encrypt, sized, context, unary, mark, repeat,
}
use pqcbridge_legacy_edge_cl.Examples.Sample.{sample_key, sample_gateway, sample_sock}
use pqcbridge_legacy_edge_cl.Examples.Deliveries.{
  steady_host, steady_draws, meter, meter_message, meter_built, meter_fits, meter_protected,
  meter_sealed, protected_fits, new_for_gateway, new_for_cloud, seven-IsShort,
  two_and_a_half-IsDecimal,
}

-- The device after its first reading.
abbrev later_meter : Device
later_meter = behind meter_message meter

later_text : Bytes
unfolding reading_to_bytes generate_reading
later_text = reading_to_bytes (next_reading (codes "u") (codes "2.5") later_meter)

abbrev sealed_later : Bytes → Bytes → Bytes
sealed_later nonce aad = context sample_key nonce (some aad) ++ unary later_text

abbrev later_message : Message
later_message =
    (codes "type", str (codes "legacy_reading"))
    ∷ (codes "device_id", str (codes "d"))
    ∷ (codes "seq", int (pos 8))
    ∷ (codes "nonce", str (b64e (repeat 12 1)))
    ∷ (codes "ciphertext", str (b64e (sealed_later (repeat 12 1) (codes "d:8"))))
    ∷ []

later_built : message_of steady_host (codes "u") (codes "2.5") later_meter ≡ ok later_message
unfolding legacy_reading legacy_message_aad str_int show_nat low_digits reversed_onto encode_utf8
    encrypt_legacy_payload toy_encrypt sized repeat utf8_encode show_int later_text
later_built = refl

later_fits : length (encode_message later_message) ≤ max_message_bytes
unfolding encode_message dumps b64e b64encode repeat unary mark context later_text show_int
later_fits = omega arith

abbrev later_protected : Message
later_protected =
    (codes "type", str (codes "protected_reading"))
    ∷ (codes "session_id", str (codes "s1"))
    ∷ (codes "nonce", str (b64e (repeat 12 1)))
    ∷ (codes "ciphertext", str (b64e (sealed_later (repeat 12 1) (codes "s1"))))
    ∷ []

later_sealed :
    build_protected_reading toy
      (repeat 12 1)
      (reading_to_bytes (next_reading (codes "u") (codes "2.5") later_meter))
      sample_key
      (codes "s1")
    ≡ ok later_protected
unfolding build_protected_reading session_message_aad encode_utf8 encrypt_session_payload
    toy_encrypt sized repeat utf8_encode later_text
later_sealed = refl

later_protected_fits : length (encode_message later_protected) ≤ max_message_bytes
unfolding encode_message dumps b64e b64encode repeat unary mark context later_text show_int
later_protected_fits = omega arith

eight-IsShort : IsShort (pos 8)
unfolding show_nat low_digits reversed_onto
eight-IsShort = omega arith

abbrev two_rounds : List (Text × Text)
two_rounds = (codes "t", codes "2.5") ∷ (codes "u", codes "2.5") ∷ []

abbrev two_hops : List (Message × Message)
two_hops = (meter_message, meter_protected) ∷ (later_message, later_protected) ∷ []

two-Passes : Passes steady_host steady_host (codes "s1") sample_key two_rounds meter 0 two_hops
two-Passes = (
  seven-IsShort,
  shown-IsScalar (codes "t") refl,
  two_and_a_half-IsDecimal,
  meter_built,
  meter_fits,
  meter_sealed,
  protected_fits,
  (
    eight-IsShort,
    shown-IsScalar (codes "u") refl,
    two_and_a_half-IsDecimal,
    later_built,
    later_fits,
    later_sealed,
    later_protected_fits,
    tt,
  ),
)

readings_delivered_example :
    let (sends, d') = send_all steady_host two_rounds meter in
    let (serves, l) = serve_legacy steady_host (codes "d") sample_key (record {
      gateway =
          with_channel steady_host sample_gateway sample_gateway.channel (codes "s1") sample_key [];
      stream = record { buffer = bytes_of (inbound two_hops); stalls = false };
    }) in
    let (receives, m) = receive_readings steady_host (codes "s1") sample_key (record {
      cloud = empty_cloud;
      sock = sample_sock;
      stream = record { buffer = bytes_of (outbound two_hops); stalls = false };
    }) in
    (sends ≡ err keyboard_interrupt)
    × (d'.sock.sent ≡ [] ++ lines (inbound two_hops))
    × (serves ≡ err connection_closed)
    × (l.gateway.channel
        ≡ working sample_gateway.channel (codes "s1") sample_key ([] ++ lines (outbound two_hops)))
    × (receives ≡ err connection_closed)
    × (m.cloud.store ≡ add_all (readings_of (codes "d") (pos 6) two_rounds) empty_cloud.store)
readings_delivered_example =
    readings_delivered steady_host steady_host steady_host (codes "s1") sample_key refl toy-Laws
      steady_draws (omega arith) (shown-IsScalar (codes "s1") refl) (ground arith) refl steady_draws
      (omega arith) sample_gateway.channel two_rounds meter two_hops sample_gateway [] empty_cloud
      sample_sock (shown-IsScalar (codes "d") refl) refl refl new_for_gateway new_for_cloud
      two-Passes
