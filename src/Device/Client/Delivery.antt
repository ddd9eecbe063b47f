-- ===== src/Device/Client/Delivery.antt =====
-- A device whose surroundings work sends every reading.
use pqcbridge_legacy_edge_cl.Base.{
  ℕ, ◌+◌, ◌≡◌, refl, ◌∙◌, arith, some, List, [], ◌∷◌, ◌++◌, All, length, length-append, Bytes, Text,
  ℤ, next_ℤ, codes,
}
use pqcbridge_legacy_edge_cl.Result.{ok, err, keyboard_interrupt}
use pqcbridge_legacy_edge_cl.Encoding.Decimal.{show_int}
use pqcbridge_legacy_edge_cl.Encoding.Utf8.{utf8_encode}
use pqcbridge_legacy_edge_cl.Encoding.Utf8.Ascii.{
  utf8_encode-append, utf8_encode-ascii, show_int-ascii,
}
use pqcbridge_legacy_edge_cl.Json.{Message, str, int}
use pqcbridge_legacy_edge_cl.Protocol.Fields.{encode_message, msg_legacy_reading, b64e}
use pqcbridge_legacy_edge_cl.Protocol.Aad.{legacy_message_aad, encode_utf8}
use pqcbridge_legacy_edge_cl.Protocol.Socket.{Sock, sendall}
use pqcbridge_legacy_edge_cl.Crypto.Library.{Library, Laws, key_length, nonce_length}
use pqcbridge_legacy_edge_cl.Crypto.Aead.{encrypt_legacy_payload}
use pqcbridge_legacy_edge_cl.Config.{Host}
use pqcbridge_legacy_edge_cl.Json.RoundTrip.Printable.{IsShort}
use pqcbridge_legacy_edge_cl.Device.Counter.{Disk}
use pqcbridge_legacy_edge_cl.Device.Counter.Saving.{str_int-IsShort, save_sequence_works}
use pqcbridge_legacy_edge_cl.Device.Client.{Device, legacy_reading, send_all}
use pqcbridge_legacy_edge_cl.Device.Client.Sending.{moved, sent_lem}

legacy_message_aad-ascii :
    (device_id : Text) (raw : Bytes) (n : ℤ)
    → utf8_encode device_id ≡ some raw
    → IsShort n
    → legacy_message_aad device_id n ≡ ok (raw ++ b':' ∷ show_int n)
unfolding legacy_message_aad encode_utf8
legacy_message_aad-ascii device_id raw n h short = rw (
  str_int-IsShort n short,
  utf8_encode-append device_id (b':' ∷ show_int n) raw (b':' ∷ show_int n) h
      (utf8_encode-ascii (b':' ∷ show_int n) (show_int-ascii n)),
)

module _ (lib : Library) (laws : Laws lib) (device_id : Text) (raw : Bytes)
    (encoded : utf8_encode device_id ≡ some raw) where
  legacy_reading_builds :
      (nonce key : Bytes) (n : ℤ) (plaintext : Bytes)
      → length key ≡ key_length
      → length nonce ≡ nonce_length
      → IsShort n
      → (message : Message) × (legacy_reading lib nonce key device_id n plaintext ≡ ok message)
  unfolding legacy_reading encrypt_legacy_payload
  legacy_reading_builds nonce key n plaintext fits drawn short =
      let aad = raw ++ b':' ∷ show_int n in
      let (c, e) = laws.encrypts key nonce plaintext (some aad) fits drawn in
      let message =
        (codes "type", str msg_legacy_reading)
        ∷ (codes "device_id", str device_id)
        ∷ (codes "seq", int n)
        ∷ (codes "nonce", str (b64e nonce))
        ∷ (codes "ciphertext", str (b64e c))
        ∷ [] in
      (message, rw (legacy_message_aad-ascii device_id raw n encoded short, e))

pub sendall_works :
    (payload : Bytes) (s : Sock)
    → s.faults ≡ []
    → sendall payload s ≡ (ok tt, record s { sent = s.sent ++ payload ∷ [] })
unfolding sendall
sendall_works payload s h = rw h

-- The sequences of the next rounds.
abbrev pub sequences : ℤ → List (Text × Text) → List ℤ
sequences n [] = []
sequences n (_ ∷ rounds) = next_ℤ n ∷ sequences (next_ℤ n) rounds

module _ (host : Host) (laws : Laws host.library) (raw : Bytes)
    (drawn : (i : ℕ) → length (host.urandom i) ≡ nonce_length) where
  -- Under the laws of the library, with twelve-byte draws, a device id that UTF-8 encodes, a
  -- 32-byte key, a socket on which no send fails, a disk on which no write fails, and sequences of
  -- at most 4300 digits, the loop of a device sends one message in each round until it is
  -- interrupted.
  pub send_all_delivers :
      (rounds : List (Text × Text)) (d : Device)
      → utf8_encode d.device_id ≡ some raw
      → length d.key ≡ key_length
      → d.sock.faults ≡ []
      → d.disk.writes ≡ []
      → All IsShort (sequences d.sequence rounds)
      → ((send_all host rounds d).0 ≡ err keyboard_interrupt)
        × (length (send_all host rounds d).1.sock.sent ≡ length d.sock.sent + length rounds)
  unfolding send_all
  send_all_delivers [] d encoded fits works kept short = (refl, omega arith)
  send_all_delivers ((timestamp, temperature) ∷ rounds) d encoded fits works kept (short, more) =
      let (message, built) =
        legacy_reading_builds host.library laws d.device_id raw encoded (host.urandom d.drawn) d.key
          (next_ℤ d.sequence) _ fits (drawn d.drawn) short in
      let sock : Sock = record d.sock { sent = d.sock.sent ++ encode_message message ∷ [] } in
      let disk : Disk = record d.disk { file = some (show_int (next_ℤ d.sequence)) } in
      let after : Device = record (moved host sock d) { disk = disk } in
      let sent =
        sent_lem host timestamp temperature d message built sock disk
          (sendall_works (encode_message message) d.sock works)
          (save_sequence_works (next_ℤ d.sequence) d.disk short kept) in
      let (ends, counted) = send_all_delivers rounds after encoded fits works kept more in
      rw sent
        (ends, counted ∙ omega (arith, length-append d.sock.sent (encode_message message ∷ [])))
