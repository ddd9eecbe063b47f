-- ===== src/Device/Client.antt =====
-- device/device.py: the hello, the loop that sends readings, and `main`.
pub mod Sending
pub mod Delivery
use pqcbridge_legacy_edge_cl.Base.{
  ℕ, ◌+◌, Option, none, some, List, [], ◌∷◌, Bytes, Text, codes, ℤ, next_ℤ,
}
use pqcbridge_legacy_edge_cl.Result.{Exn, Result, ok, err, os_error, keyboard_interrupt}
use pqcbridge_legacy_edge_cl.Result
use pqcbridge_legacy_edge_cl.Exec.{Exec, raise, lift, gets, modify, zoom, ◌>>=◌, ◌>>◌}
use pqcbridge_legacy_edge_cl.Json.{str, int, Message}
use pqcbridge_legacy_edge_cl.Protocol.Fields.{
  msg_legacy_reading, cap_chacha20_poly1305, encode_message,
}
use pqcbridge_legacy_edge_cl.Protocol.Aad.{legacy_message_aad}
use pqcbridge_legacy_edge_cl.Protocol.Socket.{Sock, sendall}
use pqcbridge_legacy_edge_cl.Crypto.Library.{Library}
use pqcbridge_legacy_edge_cl.Crypto.Aead.{encrypt_legacy_payload}
use pqcbridge_legacy_edge_cl.Crypto.Tags.{build_hello}
use pqcbridge_legacy_edge_cl.Config.{Host, local_device_key}
use pqcbridge_legacy_edge_cl.Device.Sensor.{generate_reading, reading_to_bytes}
use pqcbridge_legacy_edge_cl.Device.Counter.{Disk, load_sequence, save_sequence}

-- A running device: its counter, the disk with the file of the counter, its socket and its random
-- draws so far.
pub record Device : Type 0 where
  pub device_id : Text
  pub key : Bytes
  pub sequence : ℤ
  pub disk : Disk
  pub sock : Sock
  pub drawn : ℕ

-- The counter resumes at what the file holds.
unfoldable pub start : Text → Bytes → Disk → Sock → Device
unfolding load_sequence
start device_id key disk sock = record {
  device_id = device_id;
  key = key;
  sequence = load_sequence disk.file;
  disk = disk;
  sock = sock;
  drawn = 0;
}

on_sock : {A : Type 0} → Exec Sock A → Exec Device A
on_sock = zoom (λ d. d.sock) (λ k d. record d { sock = k })

unfoldable pub on_disk : {A : Type 0} → Exec Disk A → Exec Device A
on_disk = zoom (λ d. d.disk) (λ k d. record d { disk = k })

unfoldable pub next_draw : (ℕ → Bytes) → Exec Device Bytes
next_draw urandom d = (ok (urandom d.drawn), record d { drawn = d.drawn + 1 })

-- The message for a reading: its sequence is bound into the envelope.
unfoldable pub legacy_reading : Library → Bytes → Bytes → Text → ℤ → Bytes → Result Message
legacy_reading lib nonce key device_id sequence plaintext =
    Result.◌>>=◌ (legacy_message_aad device_id sequence) λ aad.
      Result.◌>>=◌ (encrypt_legacy_payload lib nonce key plaintext (some aad)) λ envelope. ok (
        (codes "type", str msg_legacy_reading)
        ∷ (codes "device_id", str device_id)
        ∷ (codes "seq", int sequence)
        ∷ envelope)

module _ (host : Host) where
  unfoldable pub send_hello : Exec Device (Unit {0})
  unfolding on_sock next_draw
  send_hello = do
    nonce ← next_draw host.urandom
    device ← gets (λ d. d)
    hello ←
        lift
          (build_hello host.library nonce device.device_id (cap_chacha20_poly1305 ∷ []) device.key)
    on_sock (sendall (encode_message hello))

  -- One round, with the time and the temperature of its reading. The counter is saved only after
  -- the message was sent.
  unfoldable pub send_one : Text → Text → Exec Device (Unit {0})
  unfolding on_sock on_disk next_draw
  send_one timestamp temperature = do
    modify (λ d. record d { sequence = next_ℤ d.sequence })
    device ← gets (λ d. d)
    let reading = generate_reading device.device_id device.sequence timestamp temperature
    nonce ← next_draw host.urandom
    message ← lift (
        legacy_reading host.library nonce device.key device.device_id device.sequence
          (reading_to_bytes reading))
    on_sock (sendall (encode_message message))
    on_disk (save_sequence device.sequence)

  -- The loop. It has no end of its own: the surroundings give the time and the temperature of each
  -- round, and after the last of them interrupt the sleep between two rounds.
  unfoldable pub send_all : List (Text × Text) → Exec Device (Unit {0})
  send_all [] = raise keyboard_interrupt
  send_all ((timestamp, temperature) ∷ rounds) = do send_one timestamp temperature; send_all rounds

  -- The hello and the loop, on a socket that is connected.
  unfoldable pub talk : List (Text × Text) → Exec Device (Unit {0})
  talk rounds = do send_hello; send_all rounds

  connected :
      Text → Bytes → Disk → List (Text × Text) → Result Sock → Result (Unit {0}) × Option Device
  unfolding talk
  connected device_id key disk rounds (err e) = (err e, none)
  connected device_id key disk rounds (ok sock) =
      let (r, d) = talk rounds (start device_id key disk sock) in (r, some d)

  keyed :
      Text
      → Disk
      → List (Text × Text)
      → Result Sock
      → Result Bytes
      → Result (Unit {0}) × Option Device
  unfolding connected
  keyed device_id disk rounds connection (err e) = (err e, none)
  keyed device_id disk rounds connection (ok key) = connected device_id key disk rounds connection

  -- The device, if it got as far as to connect.
  unfoldable pub run :
      Text → Disk → List (Text × Text) → Result Sock → Result (Unit {0}) × Option Device
  unfolding keyed
  run device_id disk rounds connection =
      keyed device_id disk rounds connection (local_device_key host)

  -- except KeyboardInterrupt, and except OSError
  abbrev pub settled : Result (Unit {0}) → Result (Unit {0})
  settled (err keyboard_interrupt) = ok tt
  settled (err os_error) = ok tt
  settled r = r

  unfoldable pub main :
      Text → Disk → List (Text × Text) → Result Sock → Result (Unit {0}) × Option Device
  main device_id disk rounds connection =
      let (r, d) = run device_id disk rounds connection in (settled r, d)
