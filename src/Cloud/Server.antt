-- ===== src/Cloud/Server.antt =====
-- cloud/cloud.py: `CloudServer`, one connection of a gateway.
pub mod Admission
pub mod Eviction
pub mod Readings
pub mod Storing
pub mod Ordering
use pqcbridge_legacy_edge_cl.Base.{
  ℕ, suc, ◌+◌, Bool, true, false, Option, none, some, [], ◌∷◌, if◌then◌else◌, length, Bytes, Text,
  Eq_text, codes, ℤ,
}
use pqcbridge_legacy_edge_cl.Result.{
  Exn, Result, ok, err, protocol_error, connection_closed, processing_error, authentication_error,
  os_error, key_error, type_error, is_crypto_error,
}
use pqcbridge_legacy_edge_cl.Exec.{
  Exec, pure, raise, lift, gets, modify, catch, zoom, recover, continue, forever, ◌>>=◌, ◌>>◌,
}
use pqcbridge_legacy_edge_cl.Dict.{get}
use pqcbridge_legacy_edge_cl.Json.{Json, str, int, Message}
use pqcbridge_legacy_edge_cl.Protocol.Fields.{
  msg_mlkem_pubkey, msg_mlkem_established, b64e, encode_message,
}
use pqcbridge_legacy_edge_cl.Protocol.Stream.{Stream, read_message}
use pqcbridge_legacy_edge_cl.Protocol.Socket.{Sock, sendall}
use pqcbridge_legacy_edge_cl.Crypto.Aead.{item}
use pqcbridge_legacy_edge_cl.Crypto.Kem.{mlkem_decapsulate, derive_session_key}
use pqcbridge_legacy_edge_cl.Config.{Host, gateway_key}
use pqcbridge_legacy_edge_cl.Metrics
use pqcbridge_legacy_edge_cl.Metrics.{Metrics}
use pqcbridge_legacy_edge_cl.Replay.{Key, ReplayGuard, hash_key, check_and_update}
use pqcbridge_legacy_edge_cl.Cloud.Processing.{
  parse_mlkem_request, parse_mlkem_encaps, verify_gateway_request_auth, decrypt_protected_reading,
}
use pqcbridge_legacy_edge_cl.Cloud.Store
use pqcbridge_legacy_edge_cl.Cloud.Store.{ReadingStore}
use pqcbridge_legacy_edge_cl.Cloud.Sessions
use pqcbridge_legacy_edge_cl.Cloud.Sessions.{SessionRegistry}

-- What the threads of the cloud share. `measured` counts the measured durations.
pub record Cloud : Type 0 where
  pub cloud_id : Text
  pub private_key : Bytes
  pub public_key_raw : Bytes
  pub registry : SessionRegistry
  pub store : ReadingStore
  pub metrics : Metrics
  pub replay : ReplayGuard
  pub measured : ℕ

-- The shared state with the connection of a gateway.
pub record Link : Type 0 where
  pub cloud : Cloud
  pub sock : Sock
  pub stream : Stream

unfoldable pub on_cloud : {A : Type 0} → Exec Cloud A → Exec Link A
on_cloud = zoom (λ l. l.cloud) (λ c l. record l { cloud = c })

unfoldable pub on_sock : {A : Type 0} → Exec Sock A → Exec Link A
on_sock = zoom (λ l. l.sock) (λ k l. record l { sock = k })

unfoldable pub on_stream : {A : Type 0} → Exec Stream A → Exec Link A
on_stream = zoom (λ l. l.stream) (λ t l. record l { stream = t })

unfoldable pub count_in : Text → Cloud → Cloud
count_in name c = record c { metrics = Metrics.inc name 1 c.metrics }

unfoldable pub count : Text → Exec Cloud (Unit {0})
unfolding count_in
count name = modify (count_in name)

-- The key exists: the duration is observed, the session counted and registered.
unfoldable pub open_session : (ℕ → ℕ) → Text → Bytes → Text → Cloud → Cloud
unfolding count_in
open_session elapsed session_id session_key gateway_id c =
    let timed = record c {
      metrics =
          Metrics.observe (codes "mlkem_decapsulate_s") (elapsed c.measured) (codes "s") c.metrics;
      measured = c.measured + 1;
    } in
    let counted = count_in (codes "mlkem_sessions_established") timed in
    record counted { registry = Sessions.add session_id session_key gateway_id counted.registry }

unfoldable pub check_replay : Key → ℤ → Exec Cloud Bool
check_replay device_id sequence c =
    let (fresh, guard) = check_and_update device_id sequence c.replay in
    (ok fresh, record c { replay = guard })

unfoldable pub keep_reading : Message → Cloud → Cloud
unfolding count_in
keep_reading reading c =
    count_in (codes "messages_processed") (record c { store = Store.add reading c.store })

-- except KeyError: raise AuthenticationError
abbrev unknown_gateway : Exn → Exn
unknown_gateway key_error = authentication_error
unknown_gateway e = e

abbrev key_for : Result Bytes → Result Bytes
key_for (ok key) = ok key
key_for (err e) = err (unknown_gateway e)

-- except (ProcessingError, CryptoError): a ProtocolError is not caught
abbrev pub is_drop : Exn → Bool
is_drop processing_error = true
is_drop e = is_crypto_error e

abbrev dropped : Result Message → Exec Cloud (Option Message)
dropped (ok reading) = pure (some reading)
dropped (err e) = if is_drop e then (do count (codes "messages_rejected"); pure none) else raise e

-- reading.get("sequence"), if it is an integer and no bool
unfoldable pub sequence_of : Message → Option ℤ
sequence_of reading = elim (get reading (codes "sequence")) [
  | none ↦ none
  | some v ↦ elim v [ int n ↦ some n | _ ↦ none ]
]

module _ (host : Host) where
  -- The first half of `_establish_session`: the request, and the gateway's proof of its key.
  unfoldable pub authenticate : Exec Link Text
  unfolding on_stream
  authenticate = do
    request ← on_stream (read_message host.nesting)
    gateway_id ← lift (parse_mlkem_request request)
    key ← lift (key_for (gateway_key host gateway_id))
    lift (verify_gateway_request_auth host.library request key)
    pure gateway_id

  -- The second half: the public key, the ciphertext, the session and its confirmation.
  unfoldable pub agree : Text → Exec Link (Text × Bytes)
  unfolding on_cloud on_sock on_stream
  agree gateway_id = do
    cloud ← on_cloud (gets (λ c. c))
    on_sock (
        sendall (
          encode_message (
            (codes "type", str msg_mlkem_pubkey)
            ∷ (codes "cloud_id", str cloud.cloud_id)
            ∷ (codes "public_key", str (b64e cloud.public_key_raw))
            ∷ [])))
    encaps ← on_stream (read_message host.nesting)
    (session_id, ciphertext) ← lift (parse_mlkem_encaps encaps)
    shared_secret ← lift (mlkem_decapsulate host.library cloud.private_key ciphertext)
    let session_key = derive_session_key host.library shared_secret
    on_cloud (modify (open_session host.elapsed session_id session_key gateway_id))
    on_sock (
        sendall (
          encode_message (
            (codes "type", str msg_mlkem_established)
            ∷ (codes "session_id", str session_id)
            ∷ (codes "status", str (codes "ok"))
            ∷ [])))
    pure (session_id, session_key)

  unfoldable pub establish_session : Exec Link (Text × Bytes)
  establish_session = do gateway_id ← authenticate; agree gateway_id

  unfoldable pub store_fresh : Message → ℤ → Exec Cloud (Unit {0})
  unfolding count keep_reading
  store_fresh reading sequence = do
    device ← lift (item reading (codes "device_id"))
    device_id ← lift (hash_key device)
    fresh ← check_replay device_id sequence
    if fresh then modify (keep_reading reading) else count (codes "messages_rejected")

  accept : Message → Option ℤ → Exec Cloud (Unit {0})
  unfolding count
  accept reading none = count (codes "messages_rejected")
  accept reading (some sequence) = store_fresh reading sequence

  accept_found : Option Message → Exec Cloud (Unit {0})
  unfolding accept
  accept_found none = pure tt
  accept_found (some reading) = accept reading (sequence_of reading)

  -- One message of an established session: what the loop of `_receive_readings` does with it.
  unfoldable pub handle_reading : Text → Bytes → Message → Exec Cloud (Unit {0})
  unfolding count accept_found
  handle_reading session_id session_key message = do
    count (codes "messages_received")
    found ←
        dropped (decrypt_protected_reading host.library host.nesting message session_key session_id)
    accept_found found

  -- One round of the loop.
  unfoldable pub receive_one : Text → Bytes → Exec Link (Unit {0})
  unfolding on_cloud on_stream
  receive_one session_id session_key = do
    message ← on_stream (read_message host.nesting)
    on_cloud (handle_reading session_id session_key message)

  -- The fuel is above what the gateway still sends: each round reads a byte or more.
  unfoldable pub receive_readings : Text → Bytes → Exec Link (Unit {0})
  receive_readings session_id session_key l =
      forever (suc (length l.stream.buffer)) (receive_one session_id session_key) l

  -- except (ProtocolError, ProcessingError, CryptoError, OSError)
  abbrev pub is_closing_error : Exn → Bool
  is_closing_error protocol_error = true
  is_closing_error processing_error = true
  is_closing_error os_error = true
  is_closing_error e = is_crypto_error e

  -- The `except` clauses of `_handle`, in their order.
  unfoldable pub close_on : Exn → Exec Link (Unit {0})
  unfolding on_cloud count
  close_on connection_closed = pure tt
  close_on authentication_error = on_cloud (count (codes "messages_rejected"))
  close_on e = if is_closing_error e then on_cloud (count (codes "errors")) else raise e

  -- `finally`: the session of the connection is evicted, if it got as far as to have one
  unfoldable pub evict : Option Text → Link → Link
  evict none l = l
  evict (some session_id) l = record l {
    cloud = record l.cloud { registry = Sessions.remove session_id l.cloud.registry };
  }

  closed : Option Text → Result (Unit {0}) × Link → Result (Unit {0}) × Link
  unfolding close_on evict
  closed session_id (ok u, l) = (ok u, evict session_id l)
  closed session_id (err e, l) = let (r, l') = close_on e l in (r, evict session_id l')

  after_establishment : Result (Text × Bytes) × Link → Result (Unit {0}) × Link
  unfolding closed
  after_establishment (ok (session_id, session_key), l) =
      closed (some session_id) (receive_readings session_id session_key l)
  after_establishment (err e, l) = closed none (err e, l)

  -- `session_id` is set only when `_establish_session` returns.
  unfoldable pub handle : Exec Link (Unit {0})
  unfolding after_establishment
  handle l = after_establishment (establish_session l)
