-- ===== src/Examples/Sample.antt =====
-- The concrete inputs of the examples: keys, a nonce, a hello, a reading, and the two servers.
use pqcbridge_legacy_edge_cl.Base.{true, false, none, [], ◌∷◌, ◌++◌, Bytes, Text, codes, pos}
use pqcbridge_legacy_edge_cl.Json.{str, int, float, Message}
use pqcbridge_legacy_edge_cl.Protocol.Fields.{msg_legacy_reading, b64e}
use pqcbridge_legacy_edge_cl.Protocol.Socket.{Sock}
use pqcbridge_legacy_edge_cl.Protocol.Stream.{Stream}
use pqcbridge_legacy_edge_cl.Config.{Host}
use pqcbridge_legacy_edge_cl.Gateway.Server.{Link}
use pqcbridge_legacy_edge_cl.Gateway.State.{Gateway, new_gateway, new_channel}
use pqcbridge_legacy_edge_cl.Cloud.Store.{ReadingStore}
use pqcbridge_legacy_edge_cl.Examples.Toy.{toy, repeat}

abbrev pub sample_key : Bytes
sample_key = repeat 32 5

abbrev pub sample_nonce : Bytes
sample_nonce = repeat 12 9

abbrev pub sample_device : Text
sample_device = codes "dev-01"

abbrev pub sample_host : Host
sample_host = record {
  library = toy;
  nesting = 100;
  urandom = λ n. repeat 12 n;
  elapsed = λ n. n;
  environ = [];
  files = λ path. none;
}

-- A reading as the device sends it, in plain text.
abbrev pub sample_text : Bytes
sample_text =
    codes "{\"device_id\":\"dev-01\",\"timestamp\":\"t\",\"temperature_c\":2.5,\"sequence\":7}"

abbrev pub sample_reading : Message
sample_reading =
    (codes "device_id", str (codes "dev-01"))
    ∷ (codes "timestamp", str (codes "t"))
    ∷ (codes "temperature_c", float (codes "2.5"))
    ∷ (codes "sequence", int (pos 7))
    ∷ []

-- A message that names the device, with a ciphertext that is none.
abbrev pub forged_message : Message
forged_message =
    (codes "type", str msg_legacy_reading)
    ∷ (codes "device_id", str sample_device)
    ∷ (codes "seq", int (pos 7))
    ∷ (codes "nonce", str (b64e sample_nonce))
    ∷ (codes "ciphertext", str (b64e (1 ∷ 2 ∷ 3 ∷ [])))
    ∷ []

abbrev pub sample_gateway : Gateway
sample_gateway = new_gateway (new_channel (codes "gw-01") sample_key true)

-- A peer that sends one line that is no JSON, and an empty object.
abbrev pub sample_stream : Stream
sample_stream = record { buffer = codes "oops" ++ 10 ∷ codes "{}" ++ 10 ∷ []; stalls = false }

abbrev pub sample_sock : Sock
sample_sock = record { sent = []; faults = [] }

abbrev pub device_link : Link
device_link = record { gateway = sample_gateway; stream = sample_stream }

abbrev pub small_store : ReadingStore
small_store = record { readings = sample_reading ∷ []; max_readings = 2 }
