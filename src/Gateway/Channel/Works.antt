-- ===== src/Gateway/Channel/Works.antt =====
-- gateway/cloud_channel.py: `send_reading` on an established channel whose socket works.
use pqcbridge_legacy_edge_cl.Base.{◌+◌, ◌≡◌, some, List, [], ◌∷◌, ◌++◌, Bytes, Text}
use pqcbridge_legacy_edge_cl.Result.{ok}
use pqcbridge_legacy_edge_cl.Json.{Message}
use pqcbridge_legacy_edge_cl.Protocol.Fields.{encode_message}
use pqcbridge_legacy_edge_cl.Protocol.Socket.{sendall}
use pqcbridge_legacy_edge_cl.Config.{Host}
use pqcbridge_legacy_edge_cl.Gateway.Processing.{build_protected_reading}
use pqcbridge_legacy_edge_cl.Gateway.State.{
  established, CloudChannel, Gateway, is_established, set_channel,
}
use pqcbridge_legacy_edge_cl.Gateway.Channel.Sending.{send_on, transmit, seal, send_reading}

-- A channel with a session, on a socket that has sent `sent` and on which no send fails.
abbrev pub working : CloudChannel → Text → Bytes → List Bytes → CloudChannel
working c session_id key sent = record c {
  state = established;
  session_id = some session_id;
  session_key = some key;
  sock = some (record { sent = sent; faults = [] });
}

module _ (host : Host) (g : Gateway) (c : CloudChannel) (session_id : Text) (key : Bytes)
    (sent : List Bytes) where
  -- The gateway with the channel, and behind the next message that it sends.
  abbrev pub with_channel : Gateway
  with_channel = record g { channel = working c session_id key sent }

  abbrev pub behind_send : Message → Gateway
  behind_send message = record g {
    channel = working c session_id key (sent ++ encode_message message ∷ []);
    drawn = g.drawn + 1;
  }

  pub send_reading_works :
      (reading : Bytes) (message : Message)
      → build_protected_reading host.library (host.urandom g.drawn) reading key session_id
        ≡ ok message
      → send_reading host reading with_channel ≡ (ok tt, behind_send message)
  unfolding send_reading seal transmit send_on sendall is_established set_channel
  send_reading_works reading message built = rw built
