-- ===== src/Gateway/Server.antt =====
-- gateway/gateway.py: `DeviceServer`, one connection of a device.
pub mod Readings
pub mod Forwarding
pub mod Growth
use pqcbridge_legacy_edge_cl.Base.{
  ℕ, zero, suc, ◌+◌, ◌*◌, Bool, true, false, Option, none, some, List, [], ◌∷◌, if◌then◌else◌,
  length, Bytes, Text, text_eq, codes, ℤ,
}
use pqcbridge_legacy_edge_cl.Result.{
  Exn, Result, ok, err, protocol_error, connection_closed, processing_error,
  legacy_decryption_error, os_error, key_error, is_crypto_error, ◌>>=◌ as bind,
}
use pqcbridge_legacy_edge_cl.Exec.{
  Exec, pure, raise, lift, gets, modify, catch, zoom, recover, continue, forever, ◌>>=◌, ◌>>◌,
}
use pqcbridge_legacy_edge_cl.Dict.{get}
use pqcbridge_legacy_edge_cl.Json.{Json, str, Message}
use pqcbridge_legacy_edge_cl.Protocol.Fields.{require_str}
use pqcbridge_legacy_edge_cl.Protocol.Stream.{Stream, read_message}
use pqcbridge_legacy_edge_cl.Config.{Host, device_key}
use pqcbridge_legacy_edge_cl.Metrics
use pqcbridge_legacy_edge_cl.Replay.{Key, check_and_update}
use pqcbridge_legacy_edge_cl.Gateway.Processing.{
  Decision, allow_fallback, parse_hello, evaluate_hello, decrypt_legacy_message,
}
use pqcbridge_legacy_edge_cl.Gateway.State.{Gateway, count_in}
use pqcbridge_legacy_edge_cl.Gateway.Channel.{observe_time}
use pqcbridge_legacy_edge_cl.Gateway.Channel.Sending.{send_reading}

-- The shared state, and what a device sends on its connection.
pub record Link : Type 0 where
  pub gateway : Gateway
  pub stream : Stream

unfoldable pub on_gateway : {A : Type 0} → Exec Gateway A → Exec Link A
on_gateway = zoom (λ l. l.gateway) (λ g l. record l { gateway = g })

unfoldable pub on_stream : {A : Type 0} → Exec Stream A → Exec Link A
on_stream = zoom (λ l. l.stream) (λ t l. record l { stream = t })

unfoldable pub count : Text → Exec Gateway (Unit {0})
unfolding count_in
count name = modify (count_in name)

-- name in set
unfoldable pub seen : Text → List Text → Bool
seen name [] = false
seen name (x ∷ xs) = if text_eq x name then true else seen name xs

-- The metrics and the set of a device that is let in.
unfoldable pub activate_fallback : Text → Gateway → Gateway
unfolding count_in seen
activate_fallback device_id g =
    let g' = count_in (codes "fallback_activations") g in
    if seen device_id g'.seen_devices
    then g'
    else count_in (codes "legacy_devices_detected")
        (record g' { seen_devices = device_id ∷ g'.seen_devices })

unfoldable pub check_replay : Text → ℤ → Exec Gateway Bool
check_replay device_id sequence g =
    let (fresh, guard) = check_and_update (Key.text device_id) sequence g.replay in
    (ok fresh, record g { replay = guard })

-- except (ProcessingError, LegacyDecryptionError)
abbrev pub is_drop : Exn → Bool
is_drop processing_error = true
is_drop legacy_decryption_error = true
is_drop e = false

abbrev dropped : Result (Bytes × ℤ) → Exec Gateway (Option (Bytes × ℤ))
dropped (ok r) = pure (some r)
dropped (err e) = if is_drop e then (do count (codes "messages_rejected"); pure none) else raise e

module _ (host : Host) where
  -- A fresh reading goes to the cloud.
  unfoldable pub forward : Bytes → Exec Gateway (Unit {0})
  unfolding count observe_time
  forward reading_bytes = do
    count (codes "messages_processed")
    send_reading host reading_bytes
    count (codes "messages_forwarded")
    modify (observe_time host.elapsed (codes "forward_s"))
    modify (λ g. record g {
      metrics =
          Metrics.observe (codes "payload_bytes") (length reading_bytes * 1000000) (codes "bytes")
            g.metrics;
    })

  accept : Text → Option (Bytes × ℤ) → Exec Gateway (Unit {0})
  accept device_id none = pure tt
  accept device_id (some (reading_bytes, sequence)) = do
    fresh ← check_replay device_id sequence
    if fresh then forward reading_bytes else count (codes "messages_rejected")

  -- One message of an admitted device: what the loop of `_serve_legacy` does with it.
  unfoldable pub handle_reading : Text → Bytes → Message → Exec Gateway (Unit {0})
  unfolding count accept
  handle_reading device_id device_key message = do
    count (codes "messages_received")
    found ← dropped (decrypt_legacy_message host.library host.nesting message device_key device_id)
    accept device_id found

  -- One round of the loop.
  unfoldable pub serve_one : Text → Bytes → Exec Link (Unit {0})
  unfolding on_gateway on_stream
  serve_one device_id device_key = do
    message ← on_stream (read_message host.nesting)
    on_gateway (handle_reading device_id device_key message)

  -- The fuel is above what the device still sends: each round reads a byte or more.
  unfoldable pub serve_legacy : Text → Bytes → Exec Link (Unit {0})
  serve_legacy device_id device_key l =
      forever (suc (length l.stream.buffer)) (serve_one device_id device_key) l

  abbrev found_key : Result Bytes → Exec Gateway (Option Bytes)
  found_key (ok key) = pure (some key)
  found_key (err e) = elim e [ key_error ↦ pure none | other ↦ raise other ]

  abbrev admits : Decision → Bool
  admits allow_fallback = true
  admits _ = false

  -- Every decision but ALLOW_FALLBACK counts a rejected message and returns.
  serve_decided : Text → Bytes → Decision → Exec Link (Unit {0})
  unfolding on_gateway count activate_fallback
  serve_decided device_id key decision =
      if admits decision
      then (do on_gateway (modify (activate_fallback device_id)); serve_legacy device_id key)
      else on_gateway (count (codes "messages_rejected"))

  admit_known : Text → Message → Option Bytes → Exec Link (Unit {0})
  unfolding on_gateway count serve_decided
  admit_known device_id hello none = on_gateway (count (codes "messages_rejected"))
  admit_known device_id hello (some key) = do
    decision ← lift (evaluate_hello host.library hello (some key))
    serve_decided device_id key decision

  unfoldable pub admit_or_serve : Message → Exec Link (Unit {0})
  unfolding on_gateway admit_known
  admit_or_serve hello = do
    device_id ← lift (require_str hello (codes "device_id"))
    known ← on_gateway (found_key (device_key host device_id))
    admit_known device_id hello known

  unfoldable pub admit : Exec Link (Unit {0})
  unfolding on_stream
  admit = do
    message ← on_stream (read_message host.nesting)
    hello ← lift (parse_hello message)
    admit_or_serve hello

  -- except (ProtocolError, ProcessingError, CryptoError, OSError)
  abbrev pub is_closing_error : Exn → Bool
  is_closing_error protocol_error = true
  is_closing_error processing_error = true
  is_closing_error os_error = true
  is_closing_error e = is_crypto_error e

  abbrev close_on : Exn → Exec Link (Unit {0})
  close_on connection_closed = pure tt
  close_on e = if is_closing_error e then on_gateway (count (codes "errors")) else raise e

  -- An exception that is left ends the thread of the connection.
  unfoldable pub handle : Exec Link (Unit {0})
  unfolding on_gateway count
  handle = catch admit close_on
