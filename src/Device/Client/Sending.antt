-- ===== src/Device/Client/Sending.antt =====
-- The sequences that a device sends.
use pqcbridge_legacy_edge_cl.Base.{
  ℕ, ◌+◌, ◌≡◌, ◌≢◌, ◌⊎◌, arith, some, inl, inr, refl, sym, ◌∙◌, ap, Option, List, [], ◌∷◌, ◌++◌,
  append_assoc, append-nil, Bytes, Text, ℤ, next_ℤ, codes, text_eq, Eq_text,
}
use pqcbridge_legacy_edge_cl.Result.{
  Exn, Result, ok, err, os_error, keyboard_interrupt, Result-cases, >>=-eq-ok, ok-injective,
}
use pqcbridge_legacy_edge_cl.Encoding.Decimal.{show_int}
use pqcbridge_legacy_edge_cl.Encoding.Integer.{str_int}
use pqcbridge_legacy_edge_cl.Protocol.Aad.{legacy_message_aad}
use mathlib.Core.Path.{subst}
use pqcbridge_legacy_edge_cl.Dict.{get}
use pqcbridge_legacy_edge_cl.Json.{Message, str, int, float}
use pqcbridge_legacy_edge_cl.Crypto.Aead.{encrypt_legacy_payload}
use pqcbridge_legacy_edge_cl.Protocol.Fields.{encode_message}
use pqcbridge_legacy_edge_cl.Protocol.Socket.{Sock, sendall, sendall-cases}
use pqcbridge_legacy_edge_cl.Crypto.Library.{Library}
use pqcbridge_legacy_edge_cl.Config.{Host}
use pqcbridge_legacy_edge_cl.Device.Sensor.{generate_reading, reading_to_bytes}
use pqcbridge_legacy_edge_cl.Device.Counter.{Disk, save_sequence}
use pqcbridge_legacy_edge_cl.Device.Counter.Saving.{save_sequence-cases, str_int-eq-ok}
use pqcbridge_legacy_edge_cl.Device.Client.{
  Device, next_draw, legacy_reading, send_one, send_all, on_sock, on_disk,
}

module _ (host : Host) where
  -- The message of a round, and the device that is left when it has been sent.
  abbrev pub message_of : Text → Text → Device → Result Message
  message_of timestamp temperature d =
      legacy_reading host.library (host.urandom d.drawn) d.key d.device_id (next_ℤ d.sequence)
        (reading_to_bytes (generate_reading d.device_id (next_ℤ d.sequence) timestamp temperature))

  abbrev pub moved : Sock → Device → Device
  moved sock d = record d { sequence = next_ℤ d.sequence; drawn = d.drawn + 1; sock = sock }

  module _ (timestamp temperature : Text) (d : Device) where
    pub unbuilt_lem :
        (x : Exn)
        → message_of timestamp temperature d ≡ err x
        → send_one host timestamp temperature d ≡ (err x, moved d.sock d)
    unfolding send_one next_draw
    unbuilt_lem x h = rw h

    module _ (message : Message) (built : message_of timestamp temperature d ≡ ok message)
        (sock : Sock) where
      pub unsent_lem :
          (x : Exn)
          → sendall (encode_message message) d.sock ≡ (err x, sock)
          → send_one host timestamp temperature d ≡ (err x, moved sock d)
      unfolding send_one next_draw on_sock
      unsent_lem x h = rw (built, h)

      module _ (disk : Disk) (sent : sendall (encode_message message) d.sock ≡ (ok tt, sock)) where
        pub unsaved_lem :
            (x : Exn)
            → save_sequence (next_ℤ d.sequence) d.disk ≡ (err x, disk)
            → send_one host timestamp temperature d ≡ (err x, record (moved sock d) { disk = disk })
        unfolding send_one next_draw on_sock on_disk
        unsaved_lem x h = rw (built, sent, h)

        pub sent_lem :
            save_sequence (next_ℤ d.sequence) d.disk ≡ (ok tt, disk)
            → send_one host timestamp temperature d ≡ (ok tt, record (moved sock d) { disk = disk })
        unfolding send_one next_draw on_sock on_disk
        sent_lem h = rw (built, sent, h)

-- What a reading says.
abbrev pub Holds : Text → ℤ → Text → Text → Message → Type 0
Holds device_id n timestamp temperature reading =
    (get reading (codes "device_id") ≡ some (str device_id))
    × (get reading (codes "sequence") ≡ some (int n))
    × (get reading (codes "timestamp") ≡ some (str timestamp))
    × (get reading (codes "temperature_c") ≡ some (float temperature))

generate_reading-Holds :
    (device_id : Text) (n : ℤ) (timestamp temperature : Text)
    → Holds device_id n timestamp temperature (generate_reading device_id n timestamp temperature)
unfolding generate_reading get text_eq
generate_reading-Holds device_id n timestamp temperature = (refl, refl, refl, refl)

-- The messages of the first rounds of a device: each is built for the reading of its round, with the
-- next sequence and the next draw. The sequences go up by one from behind the first number to the
-- last.
pub data Sent (host : Host) (key : Bytes) (device_id : Text)
    : ℕ → ℤ → List (Text × Text) → List Bytes → ℤ → Type 0 where
  none_sent :
      {drawn : ℕ} {n : ℤ} {rounds : List (Text × Text)}
      → Sent host key device_id drawn n rounds [] n
  one_sent :
      {drawn : ℕ} {n m : ℤ} {rounds : List (Text × Text)} {parts : List Bytes}
      (timestamp temperature : Text) (reading message : Message)
      → Holds device_id (next_ℤ n) timestamp temperature reading
      → legacy_reading host.library
          (host.urandom drawn)
          key
          device_id
          (next_ℤ n)
          (reading_to_bytes reading)
        ≡ ok message
      → get message (codes "device_id") ≡ some (str device_id)
      → get message (codes "seq") ≡ some (int (next_ℤ n))
      → Sent host key device_id (drawn + 1) (next_ℤ n) rounds parts m
      → Sent host key device_id drawn n
          ((timestamp, temperature) ∷ rounds)
          (encode_message message ∷ parts)
          m

-- The file of the counter: as it was, or the last sequence that was sent.
abbrev pub saved : Option Text → List Bytes → ℤ → Option Text
saved file [] m = file
saved file (part ∷ parts) m = some (show_int m)

saved_again :
    (host : Host) (key : Bytes) (device_id : Text) (drawn : ℕ) (n : ℤ) (rounds : List (Text × Text))
    (parts : List Bytes) (m : ℤ) (file : Option Text)
    → Sent host key device_id drawn n rounds parts m
    → file ≡ some (show_int n)
    → saved file parts m ≡ some (show_int m)
saved_again host key device_id drawn n rounds [] _ file none_sent is = is
saved_again host key device_id drawn n _ (_ ∷ parts) m file
      (one_sent t c reading message holds built named numbered more) is =
    refl

-- A built message names the device and the sequence.
built_names :
    (lib : Library) (nonce key : Bytes) (device_id : Text) (n : ℤ) (plaintext : Bytes)
    (message : Message)
    → legacy_reading lib nonce key device_id n plaintext ≡ ok message
    → (get message (codes "device_id") ≡ some (str device_id))
      × (get message (codes "seq") ≡ some (int n))
unfolding legacy_reading get text_eq
built_names lib nonce key device_id n plaintext message built =
    let (aad, bound, h₁) = >>=-eq-ok (legacy_message_aad device_id n) _ built in
    let (envelope, sealed, h₂) =
      >>=-eq-ok (encrypt_legacy_payload lib nonce key plaintext (some aad)) _ h₁ in
    subst
      (λ (m : Message).
        (get m (codes "device_id") ≡ some (str device_id)) × (get m (codes "seq") ≡ some (int n)))
      (ok-injective h₂) (refl, refl)

-- A built message has a sequence that `str` prints.
built_short :
    (lib : Library) (nonce key : Bytes) (device_id : Text) (n : ℤ) (plaintext : Bytes)
    (message : Message)
    → legacy_reading lib nonce key device_id n plaintext ≡ ok message
    → str_int n ≡ ok (show_int n)
unfolding legacy_reading legacy_message_aad
built_short lib nonce key device_id n plaintext message built =
    let (aad, bound, _) = >>=-eq-ok (legacy_message_aad device_id n) _ built in
    let (text, shown, _) = >>=-eq-ok (str_int n) _ bound in
    shown ∙ ap (λ (t : Text). ok t) (sym (str_int-eq-ok n text shown))

module _ (host : Host) where
  -- The write of the last sequence failed, which ends the loop.
  abbrev pub Unsaved : Device → Result (Unit {0}) × Device → Type 0
  Unsaved d (r, d') =
      (r ≡ err os_error)
      × (front : List (Option (Option Text))) × (left : Option Text) × (d.disk.writes
          ≡ front ++ some left ∷ d'.disk.writes)
      × (d'.disk.file ≡ left)

  -- What a device has sent and saved when its loop has ended.
  abbrev pub Progress : List (Text × Text) → Device → Result (Unit {0}) × Device → Type 0
  Progress rounds d (r, d') =
      (parts : List Bytes) × (m : ℤ) × (d'.sock.sent ≡ d.sock.sent ++ parts)
      × Sent host d.key d.device_id d.drawn d.sequence rounds parts m
      × ((d'.disk.file ≡ saved d.disk.file parts m) ⊎ ((parts ≢ []) × Unsaved d (r, d')))

  stopped-Progress :
      (rounds : List (Text × Text)) (d : Device) (r : Result (Unit {0})) (d' : Device)
      → d'.sock.sent ≡ d.sock.sent
      → d'.disk.file ≡ d.disk.file
      → Progress rounds d (r, d')
  stopped-Progress rounds d r d' same kept =
      ([], d.sequence, same ∙ sym (append-nil d.sock.sent), none_sent, inl kept)

  module _ (timestamp temperature : Text) (rounds : List (Text × Text)) (d : Device)
      (message : Message) (built : message_of host timestamp temperature d ≡ ok message)
      (sock : Sock) (sent : sock.sent ≡ d.sock.sent ++ encode_message message ∷ [])
      (disk : Disk) where
    abbrev rest_of : Device
    rest_of = record (moved host sock d) { disk = disk }

    next-Sent :
        {m : ℤ} {parts : List Bytes}
        → Sent host d.key d.device_id (d.drawn + 1) (next_ℤ d.sequence) rounds parts m
        → Sent host d.key d.device_id d.drawn d.sequence
            ((timestamp, temperature) ∷ rounds)
            (encode_message message ∷ parts)
            m
    next-Sent more =
        let (named, numbered) = built_names _ _ _ _ _ _ message built in
        one_sent timestamp temperature
          (generate_reading d.device_id (next_ℤ d.sequence) timestamp temperature) message
          (generate_reading-Holds d.device_id (next_ℤ d.sequence) timestamp temperature) built named
          numbered more

    unsaved-Progress :
        (left : Option Text)
        → d.disk.writes ≡ some left ∷ disk.writes
        → disk.file ≡ left
        → Progress ((timestamp, temperature) ∷ rounds) d (err os_error, rest_of)
    unsaved-Progress left writes file = (
      encode_message message ∷ [],
      next_ℤ d.sequence,
      sent,
      next-Sent none_sent,
      inr (ground arith, (refl, [], left, writes, file)),
    )

    further-Progress :
        (out : Result (Unit {0}) × Device) (front : List (Option (Option Text)))
        → disk.file ≡ some (show_int (next_ℤ d.sequence))
        → d.disk.writes ≡ front ++ disk.writes
        → Progress rounds rest_of out
        → Progress ((timestamp, temperature) ∷ rounds) d out
    further-Progress out front file writes (parts, m, behind, more, left) = (
      encode_message message ∷ parts,
      m,
      behind
          ∙ ap (λ (l : List Bytes). l ++ parts) sent
          ∙ append_assoc d.sock.sent (encode_message message ∷ []) parts,
      next-Sent more,
      elim left [
        | inl h ↦ inl (h ∙ saved_again _ _ _ _ _ _ parts m _ more file)
        | inr (some_parts, (ends, front', kept, unsaved, is)) ↦ inr (
          ground arith,
          (
            ends,
            front ++ front',
            kept,
            writes
                ∙ ap (λ (l : List (Option (Option Text))). front ++ l) unsaved
                ∙ sym (append_assoc front front' (some kept ∷ out.1.disk.writes)),
            is,
          ),
        )
      ],
    )

  -- However the loop of a device ends, what it has sent are the messages of its first rounds: each
  -- is built for the reading of its round, which holds the device id, the next sequence, and the
  -- time and the temperature of the round, with the next draw, and names the device and that
  -- sequence. The file of the counter then holds the sequence of the last one, or is as it was if
  -- nothing was sent, or the write of the last one raised OSError, which ended the loop, and the
  -- file holds what that write left.
  pub send_all-Progress :
      (rounds : List (Text × Text)) (d : Device) → Progress rounds d (send_all host rounds d)
  unfolding send_all
  send_all-Progress [] d = stopped-Progress [] d (err keyboard_interrupt) d refl refl
  send_all-Progress ((timestamp, temperature) ∷ rounds) d =
      let all_rounds = (timestamp, temperature) ∷ rounds in
      elim (Result-cases (message_of host timestamp temperature d)) [
        | inr (x, failed) ↦
            rw (unbuilt_lem host timestamp temperature d x failed)
              (stopped-Progress all_rounds d (err x) (moved host d.sock d) refl refl)
        | inl (message, built) ↦
            let (sock, outcome) = sendall-cases (encode_message message) d.sock in
            elim outcome [
              | inr (e, same) ↦
                  rw (unsent_lem host timestamp temperature d message built sock _ e)
                    (stopped-Progress all_rounds d (err os_error) (moved host sock d) same refl)
              | inl (e, sent) ↦
                  let (disk, written) =
                    save_sequence-cases (next_ℤ d.sequence) d.disk
                      (built_short _ _ _ _ _ _ message built) in
                  elim written [
                    | inl (kept, file, front, writes) ↦
                        let after =
                          rest_of timestamp temperature rounds d message built sock sent disk in
                        rw (sent_lem host timestamp temperature d message built sock disk e kept) (
                          further-Progress timestamp temperature rounds d message built sock sent
                            disk (send_all host rounds after) front file writes
                            (send_all-Progress rounds after))
                    | inr (lost, left, writes, file) ↦
                        rw
                          (unsaved_lem host timestamp temperature d message built sock disk e _
                            lost)
                          (unsaved-Progress timestamp temperature rounds d message built sock sent
                            disk left writes file)
                  ]
            ]
      ]
