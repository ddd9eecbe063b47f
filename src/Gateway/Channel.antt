-- ===== src/Gateway/Channel.antt =====
-- gateway/cloud_channel.py: the client side of the ML-KEM session with the cloud.
pub mod Sending
pub mod Works
pub mod Outcomes
pub mod Handshake
pub mod Agreement
pub mod Endless
use pqcbridge_legacy_edge_cl.Base.{
  ℕ, zero, suc, ◌+◌, Bool, true, false, ◌&&◌, Option, none, some, List, [], ◌∷◌, ◌++◌,
  if◌then◌else◌, leb, Bytes, Text, codes,
}
use pqcbridge_legacy_edge_cl.Result.{
  Exn, Result, ok, err, protocol_error, os_error, is_crypto_error, out_of_fuel,
}
use pqcbridge_legacy_edge_cl.Result
use pqcbridge_legacy_edge_cl.Exec.{
  Exec, pure, raise, lift, gets, modify, catch, zoom, recover, continue, ◌>>=◌, ◌>>◌,
}
use pqcbridge_legacy_edge_cl.Json.{Json, str, Message}
use pqcbridge_legacy_edge_cl.Encoding.Hex.{hex}
use pqcbridge_legacy_edge_cl.Protocol.Fields.{
  msg_mlkem_request_pubkey, msg_mlkem_encaps, b64e, encode_message,
}
use pqcbridge_legacy_edge_cl.Protocol.Stream.{Stream, read_message}
use pqcbridge_legacy_edge_cl.Protocol.Socket.{Sock, sendall}
use pqcbridge_legacy_edge_cl.Crypto.Tags.{build_gateway_auth}
use pqcbridge_legacy_edge_cl.Crypto.Kem.{load_public_key, mlkem_encapsulate, derive_session_key}
use pqcbridge_legacy_edge_cl.Config.{Host, cloud_public_key_sha256}
use pqcbridge_legacy_edge_cl.Metrics
use pqcbridge_legacy_edge_cl.Gateway.Processing.{
  parse_mlkem_pubkey_reply, parse_mlkem_established_reply, verify_cloud_public_key,
}
use pqcbridge_legacy_edge_cl.Gateway.State.{
  State, disconnected, connecting, establishing, established, failed, CloudChannel, Gateway,
  set_channel, count_in,
}

-- One attempt to connect, as the surroundings answer it: whether the connection is made, what the
-- cloud sends, which sends fail, the eight bytes of `secrets.token_hex` and the draw of the
-- encapsulation.
pub record Attempt : Type 0 where
  pub reachable : Bool
  pub incoming : Stream
  pub faults : List Bool
  pub session_draw : Bytes
  pub kem_draw : Bytes

-- The gateway with the socket of an attempt.
pub record Dialog : Type 0 where
  pub gateway : Gateway
  pub sock : Sock
  pub stream : Stream

on_gateway : {A : Type 0} → Exec Gateway A → Exec Dialog A
on_gateway = zoom (λ d. d.gateway) (λ g d. record d { gateway = g })

on_sock : {A : Type 0} → Exec Sock A → Exec Dialog A
on_sock = zoom (λ d. d.sock) (λ k d. record d { sock = k })

on_stream : {A : Type 0} → Exec Stream A → Exec Dialog A
on_stream = zoom (λ d. d.stream) (λ t d. record d { stream = t })

unfoldable pub set_state : State → Exec Gateway (Unit {0})
unfolding set_channel
set_state state = modify (set_channel (λ c. record c { state = state }))

unfoldable pub next_draw : (ℕ → Bytes) → Exec Gateway Bytes
next_draw urandom g = (ok (urandom g.drawn), record g { drawn = g.drawn + 1 })

-- self.metrics.observe(name, time.perf_counter() - start, unit="s")
unfoldable pub observe_time : (ℕ → ℕ) → Text → Gateway → Gateway
observe_time elapsed name g = record g {
  metrics = Metrics.observe name (elapsed g.measured) (codes "s") g.metrics;
  measured = g.measured + 1;
}

-- The session that was agreed on; the socket is stored last.
unfoldable pub keep_session : (ℕ → ℕ) → Text → Bytes → Gateway → Gateway
unfolding set_channel count_in observe_time
keep_session elapsed session_id session_key g = observe_time elapsed (codes "mlkem_establish_s") (
    count_in (codes "mlkem_sessions_established") (
      set_channel (λ c. record c { session_key = some session_key; session_id = some session_id })
        g))

unfoldable pub encaps_message : Text → Text → Bytes → Message
encaps_message gateway_id session_id ciphertext =
    (codes "type", str msg_mlkem_encaps)
    ∷ (codes "gateway_id", str gateway_id)
    ∷ (codes "session_id", str session_id)
    ∷ (codes "ciphertext", str (b64e ciphertext))
    ∷ []

module _ (host : Host) where
  -- What `_establish_once` does on the connection, in three steps: the request, with the proof of the
  -- gateway's key,
  unfoldable pub announce : Exec Dialog (Unit {0})
  unfolding on_gateway on_sock
  announce = do
    on_gateway (set_state establishing)
    nonce ← on_gateway (next_draw host.urandom)
    channel ← on_gateway (gets (λ g. g.channel))
    auth ← lift (build_gateway_auth host.library nonce channel.gateway_id channel.gateway_key)
    on_sock (
        sendall (
          encode_message (
            (codes "type", str msg_mlkem_request_pubkey)
            ∷ (codes "gateway_id", str channel.gateway_id)
            ∷ auth)))

  -- the public key of the cloud, which is checked against the pin,
  unfoldable pub check_offer : Message → Result Bytes
  check_offer offer = Result.◌>>=◌ (parse_mlkem_pubkey_reply offer) λ public_key_raw.
      Result.◌>>◌
        (verify_cloud_public_key host.library public_key_raw (cloud_public_key_sha256 host))
        (load_public_key host.library public_key_raw)

  unfoldable pub accept_offer : Exec Dialog Bytes
  unfolding on_stream
  accept_offer = do offer ← on_stream (read_message host.nesting); lift (check_offer offer)

  -- and the encapsulation, the confirmation of the cloud, and the session.
  unfoldable pub exchange : Attempt → Bytes → Exec Dialog (Unit {0})
  unfolding on_gateway on_sock on_stream
  exchange attempt public_key = do
    channel ← on_gateway (gets (λ g. g.channel))
    let (shared_secret, ciphertext) = mlkem_encapsulate host.library public_key attempt.kem_draw
    on_sock (
        sendall (
          encode_message (encaps_message channel.gateway_id (hex attempt.session_draw) ciphertext)))
    reply ← on_stream (read_message host.nesting)
    lift (parse_mlkem_established_reply reply (hex attempt.session_draw))
    on_gateway (
        modify (
          keep_session host.elapsed (hex attempt.session_draw)
            (derive_session_key host.library shared_secret)))

  unfoldable pub handshake : Attempt → Exec Dialog (Unit {0})
  handshake attempt = do announce; public_key ← accept_offer; exchange attempt public_key

  -- `self._sock = sock` on success; after an exception the socket is closed.
  finish : Result (Unit {0}) × Dialog → Result (Unit {0}) × Gateway
  unfolding set_channel
  finish (ok u, d) = (ok u, set_channel (λ c. record c { sock = some d.sock }) d.gateway)
  finish (err e, d) = (err e, d.gateway)

  unfoldable pub establish_once : Attempt → Exec Gateway (Unit {0})
  unfolding finish
  establish_once attempt g =
      if attempt.reachable
      then finish (
          handshake attempt (record {
            gateway = g;
            sock = record { sent = []; faults = attempt.faults };
            stream = attempt.incoming;
          }))
      else (err os_error, g)

  -- except (OSError, protocol.ProtocolError, crypto.CryptoError)
  abbrev is_attempt_error : Exn → Bool
  is_attempt_error os_error = true
  is_attempt_error protocol_error = true
  is_attempt_error e = is_crypto_error e

  -- One round of `connect_and_establish`: true when the session stands, false after a failure that
  -- may be tried again; any other exception leaves the method.
  unfoldable pub try_establish : Attempt → Exec Gateway Bool
  unfolding count_in set_state
  try_establish attempt = do
    set_state connecting
    catch (do establish_once attempt; set_state established; pure true)
        λ e.
          if is_attempt_error e
          then (do
            modify (count_in (codes "errors"))
            set_state failed
            set_state disconnected
            pure false)
          else raise e

  unfoldable pub is_last : Option ℕ → ℕ → Bool
  is_last none attempts = false
  is_last (some limit) attempts = leb limit attempts

  stop_or : Bool → Exec Gateway Bool → Exec Gateway Bool
  stop_or true later = pure false
  stop_or false later = later

  -- `attempts` counts the rounds so far. Where the list of attempts ends before the method does,
  -- it is still under way: no result.
  connect_from : ℕ → Option ℕ → List Attempt → Exec Gateway Bool
  unfolding is_last stop_or
  connect_from attempts max_attempts [] g = (err out_of_fuel, g)
  connect_from attempts max_attempts (a ∷ later) g =
      continue
        (λ done. elim done [
          | true ↦ pure true
          | false ↦
              stop_or (is_last max_attempts (attempts + 1))
                (connect_from (attempts + 1) max_attempts later)
        ])
        (try_establish a g)

  unfoldable pub connect_and_establish : Option ℕ → List Attempt → Exec Gateway Bool
  unfolding connect_from
  connect_and_establish max_attempts attempts = connect_from 0 max_attempts attempts

  -- `finally`: the flag falls, whatever the outcome
  unfoldable pub reconnect_loop : List Attempt → Exec Gateway Bool
  unfolding connect_and_establish set_channel
  reconnect_loop attempts g =
      let (r, g') = connect_and_establish none attempts g in
      (r, set_channel (λ c. record c { reconnecting = false }) g')
