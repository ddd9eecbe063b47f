-- ===== src/Gateway/Channel/Sending.antt =====
-- gateway/cloud_channel.py: `send_reading`, and what a failed send does to the session.
use pqcbridge_legacy_edge_cl.Base.{◌+◌, true, Option, none, some, if◌then◌else◌, Bytes, Text}
use pqcbridge_legacy_edge_cl.Result.{
  Result, err, crypto_error, os_error, type_error, attribute_error,
}
use pqcbridge_legacy_edge_cl.Exec.{Exec, pure, raise, gets, modify, catch, ◌>>=◌, ◌>>◌}
use pqcbridge_legacy_edge_cl.Json.{Message}
use pqcbridge_legacy_edge_cl.Protocol.Fields.{encode_message}
use pqcbridge_legacy_edge_cl.Protocol.Socket.{Sock, sendall}
use pqcbridge_legacy_edge_cl.Config.{Host}
use pqcbridge_legacy_edge_cl.Gateway.Processing.{build_protected_reading}
use pqcbridge_legacy_edge_cl.Gateway.State.{
  failed, CloudChannel, Gateway, is_established, set_channel,
}

-- `_start_reconnect`: one thread at a time
unfoldable pub start_reconnect : CloudChannel → CloudChannel
start_reconnect c =
    if c.reconnecting then c else record c { reconnecting = true; threads = c.threads + 1 }

-- `_invalidate`
unfoldable pub invalidate : CloudChannel → CloudChannel
unfolding start_reconnect
invalidate c =
    let gone = record c { sock = none; session_key = none; state = failed } in
    if c.auto_reconnect then start_reconnect gone else gone

unfoldable pub send_on : Option Sock → Bytes → Exec Gateway (Unit {0})
unfolding set_channel
send_on none payload g = (err attribute_error, g)
send_on (some sock) payload g =
    let (r, sock') = sendall payload sock in
    (r, set_channel (λ c. record c { sock = some sock' }) g)

-- The part of `send_reading` under `_send_lock`.
unfoldable pub transmit : Bytes → Exec Gateway (Unit {0})
unfolding set_channel
transmit payload = do
  channel ← gets (λ g. g.channel)
  catch (send_on channel.sock payload) (λ e. elim e [
    | os_error ↦ do modify (set_channel invalidate); raise crypto_error
    | other ↦ raise other
  ])

module _ (host : Host) where
  -- With no session left, `encode` on None and the cipher's constructor fail.
  seal_with : Bytes → Option Text → Option Bytes → Bytes → Result Message
  seal_with reading none key nonce = err attribute_error
  seal_with reading (some session_id) none nonce = err type_error
  seal_with reading (some session_id) (some key) nonce =
      build_protected_reading host.library nonce reading key session_id

  -- The message for a reading under the channel's key, with a fresh nonce. The draw is counted also
  -- where the call fails before it.
  unfoldable pub seal : Bytes → Exec Gateway Message
  unfolding seal_with
  seal reading_bytes g = (
    seal_with reading_bytes g.channel.session_id g.channel.session_key (host.urandom g.drawn),
    record g { drawn = g.drawn + 1 },
  )

  unfoldable pub send_reading : Bytes → Exec Gateway (Unit {0})
  send_reading reading_bytes = do
    channel ← gets (λ g. g.channel)
    if is_established channel then pure tt else raise crypto_error
    message ← seal reading_bytes
    transmit (encode_message message)
