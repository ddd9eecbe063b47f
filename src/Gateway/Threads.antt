-- ===== src/Gateway/Threads.antt =====
-- gateway/gateway.py and gateway/cloud_channel.py: the connections that `serve_forever` accepts, each
-- in a thread of its own, and the thread that reconnects, over one `Gateway`. A thread that
-- `check_and_update` lets pass builds its message under the session that the channel has then, and
-- sends it under `_send_lock`; between these steps the other threads may run.
pub mod Wire
pub mod Once
pub mod Rounds
use pqcbridge_legacy_edge_cl.Base.{
  ◌≡◌, true, Option, none, some, List, [], ◌∷◌, ◌++◌, Bytes, Text, ℤ,
}
use pqcbridge_legacy_edge_cl.Result.{Exn, ok, err}
use pqcbridge_legacy_edge_cl.Json.{Message}
use pqcbridge_legacy_edge_cl.Protocol.Fields.{encode_message}
use pqcbridge_legacy_edge_cl.Protocol.Socket.{Sock}
use pqcbridge_legacy_edge_cl.Config.{Host}
use pqcbridge_legacy_edge_cl.Replay.{Key, check_and_update}
use pqcbridge_legacy_edge_cl.Gateway.Processing.{decrypt_legacy_message}
use pqcbridge_legacy_edge_cl.Gateway.State.{Gateway}
use pqcbridge_legacy_edge_cl.Gateway.Channel.{Attempt, establish_once}
use pqcbridge_legacy_edge_cl.Gateway.Channel.Sending.{seal, transmit}

-- Where the thread of a device stands: before its next message, with a reading that the guard has
-- accepted, or with the message for it that is not sent.
pub data Pc : Type 0 where
  waiting : Text → Bytes → Pc
  accepted : Text → Bytes → ℤ → Bytes → Pc
  sealed : Text → Bytes → ℤ → Message → Pc

-- A message that was sent, with the device and the sequence of its reading.
abbrev pub Sending : Type 0
Sending = (Key × ℤ) × Message

-- `opening` is what the establishment of the session has sent on the socket of the channel, `sent`
-- what the threads have sent on it since, and `earlier` what they have sent on the sockets before it.
pub record System : Type 0 where
  pub gateway : Gateway
  pub threads : List Pc
  pub opening : List Bytes
  pub sent : List Sending
  pub earlier : List (Key × ℤ)

-- What is accepted and not sent.
abbrev pub in_flight : List Pc → List (Key × ℤ)
in_flight [] = []
in_flight (waiting device_id key ∷ threads) = in_flight threads
in_flight (accepted device_id key n reading ∷ threads) = (Key.text device_id, n) ∷ in_flight threads
in_flight (sealed device_id key n message ∷ threads) = (Key.text device_id, n) ∷ in_flight threads

abbrev pub stamps : List Sending → List (Key × ℤ)
stamps [] = []
stamps ((stamp, message) ∷ sent) = stamp ∷ stamps sent

abbrev pub payloads : List Sending → List Bytes
payloads [] = []
payloads ((stamp, message) ∷ sent) = encode_message message ∷ payloads sent

abbrev pub bytes_on : Option Sock → List Bytes
bytes_on none = []
bytes_on (some sock) = sock.sent

-- Nothing has been sent, and no session has been given up or begun.
abbrev pub IsQuiet : System → System → Type 0
IsQuiet s t =
    (t.gateway.replay ≡ s.gateway.replay)
    × (t.gateway.channel.sock ≡ s.gateway.channel.sock)
    × (t.opening ≡ s.opening)
    × (t.sent ≡ s.sent)
    × (t.earlier ≡ s.earlier)

-- One step of one thread.
pub data Step (host : Host) (s t : System) : Type 0 where
  -- What neither accepts nor sends a reading, and leaves the socket: a new connection and its hello,
  -- a message that is dropped, the metrics, the end of a connection, and the state and the keys of
  -- the channel while a session is established.
  aside : IsQuiet s t → in_flight t.threads ≡ in_flight s.threads → Step host s t
  -- A message of an admitted device, whose sequence the guard accepts.
  check :
      (before after : List Pc) (device_id : Text) (key : Bytes) (message : Message)
      (reading : Bytes) (n : ℤ)
      → s.threads ≡ before ++ waiting device_id key ∷ after
      → decrypt_legacy_message host.library host.nesting message key device_id ≡ ok (reading, n)
      → (check_and_update (Key.text device_id) n s.gateway.replay).0 ≡ true
      → t.gateway.replay ≡ (check_and_update (Key.text device_id) n s.gateway.replay).1
      → t.gateway.channel ≡ s.gateway.channel
      → t.opening ≡ s.opening
      → t.sent ≡ s.sent
      → t.earlier ≡ s.earlier
      → t.threads ≡ before ++ accepted device_id key n reading ∷ after
      → Step host s t
  -- The message for the reading is built under the session of the channel. `is_established` was
  -- tested before, and need not hold any more.
  build :
      (before after : List Pc) (device_id : Text) (key : Bytes) (n : ℤ) (reading : Bytes)
      (message : Message)
      → s.threads ≡ before ++ accepted device_id key n reading ∷ after
      → seal host reading s.gateway ≡ (ok message, t.gateway)
      → t.opening ≡ s.opening
      → t.sent ≡ s.sent
      → t.earlier ≡ s.earlier
      → t.threads ≡ before ++ sealed device_id key n message ∷ after
      → Step host s t
  -- The message is sent under `_send_lock`.
  send :
      (before after : List Pc) (device_id : Text) (key : Bytes) (n : ℤ) (message : Message)
      → s.threads ≡ before ++ sealed device_id key n message ∷ after
      → transmit (encode_message message) s.gateway ≡ (ok tt, t.gateway)
      → t.opening ≡ s.opening
      → t.sent ≡ s.sent ++ ((Key.text device_id, n), message) ∷ []
      → t.earlier ≡ s.earlier
      → t.threads ≡ before ++ waiting device_id key ∷ after
      → Step host s t
  -- The session is not established, or the message cannot be built: the exception ends the thread.
  fail :
      (before after : List Pc) (device_id : Text) (key : Bytes) (n : ℤ) (reading : Bytes)
      → s.threads ≡ before ++ accepted device_id key n reading ∷ after
      → IsQuiet s t
      → t.threads ≡ before ++ after
      → Step host s t
  -- The message cannot be sent.
  fail_send :
      (before after : List Pc) (device_id : Text) (key : Bytes) (n : ℤ) (message : Message)
      (e : Exn)
      → s.threads ≡ before ++ sealed device_id key n message ∷ after
      → transmit (encode_message message) s.gateway ≡ (err e, t.gateway)
      → t.opening ≡ s.opening
      → t.sent ≡ s.sent
      → t.earlier ≡ s.earlier
      → t.threads ≡ before ++ after
      → Step host s t
  -- The socket of a session that `_establish_once` has established, from whatever the gateway was
  -- when it began.
  renew :
      (attempt : Attempt) (g g' : Gateway)
      → establish_once host attempt g ≡ (ok tt, g')
      → t.gateway.channel.sock ≡ g'.channel.sock
      → t.gateway.replay ≡ s.gateway.replay
      → t.opening ≡ bytes_on g'.channel.sock
      → t.sent ≡ []
      → t.earlier ≡ s.earlier ++ stamps s.sent
      → in_flight t.threads ≡ in_flight s.threads
      → Step host s t

pub data Reach (host : Host) (s : System) : System → Type 0 where
  here : Reach host s s
  next : {t u : System} → Reach host s t → Step host t u → Reach host s u
