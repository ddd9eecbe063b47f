-- ===== src/Gateway/Server/Forwarding.antt =====
-- gateway/gateway.py: a fresh reading on an established channel goes to the cloud.
use pqcbridge_legacy_edge_cl.Base.{◌+◌, ◌≡◌, refl, List, [], ◌∷◌, ◌++◌, Bytes, Text, ℤ, ◌<ℤ◌, codes}
use pqcbridge_legacy_edge_cl.Result.{ok}
use pqcbridge_legacy_edge_cl.Json.{Message}
use pqcbridge_legacy_edge_cl.Protocol.Fields.{encode_message}
use pqcbridge_legacy_edge_cl.Config.{Host}
use pqcbridge_legacy_edge_cl.Metrics
use pqcbridge_legacy_edge_cl.Replay.{Key, last_seen, check_and_update}
use pqcbridge_legacy_edge_cl.Replay.Sequences.{accepted_iff}
use pqcbridge_legacy_edge_cl.Gateway.Processing.{decrypt_legacy_message, build_protected_reading}
use pqcbridge_legacy_edge_cl.Gateway.State.{CloudChannel, Gateway, count_in}
use pqcbridge_legacy_edge_cl.Gateway.Channel.{observe_time}
use pqcbridge_legacy_edge_cl.Gateway.Channel.Works.{working, with_channel, send_reading_works}
use pqcbridge_legacy_edge_cl.Gateway.Server.{handle_reading, forward, check_replay}

module _ (host : Host) (c : CloudChannel) (session_id : Text) (session_key : Bytes)
    (sent : List Bytes) (reading : Bytes) (message : Message) where
  -- The message is sent, and neither the guard nor the rest of the channel changes.
  abbrev Forwarded : Gateway → Gateway → Type 0
  Forwarded g g' =
      (g'.channel ≡ working c session_id session_key (sent ++ encode_message message ∷ []))
      × (g'.replay ≡ g.replay)
      × (g'.drawn ≡ g.drawn + 1)

  forward_works :
      (g : Gateway)
      → build_protected_reading host.library (host.urandom g.drawn) reading session_key session_id
        ≡ ok message
      → let (r, g') = forward host reading (with_channel host g c session_id session_key sent) in
        (r ≡ ok tt) × Forwarded g g'
  unfolding forward count_in observe_time
  forward_works g built =
      rw
        (send_reading_works host (count_in (codes "messages_processed") g) c session_id session_key
          sent reading message built)
        (refl, (refl, refl, refl))

  -- A fresh reading of an admitted device is sent to the cloud, and is the last one of its device.
  pub handle_reading_forwards :
      (g : Gateway) (device_id : Text) (key : Bytes) (received : Message) (sequence : ℤ)
      → decrypt_legacy_message host.library host.nesting received key device_id
        ≡ ok (reading, sequence)
      → last_seen g.replay (Key.text device_id) <ℤ sequence
      → build_protected_reading host.library (host.urandom g.drawn) reading session_key session_id
        ≡ ok message
      → let (r, g') =
          handle_reading host device_id key received
            (with_channel host g c session_id session_key sent) in
        (r ≡ ok tt)
        × (g'.channel ≡ working c session_id session_key (sent ++ encode_message message ∷ []))
        × (g'.replay ≡ (check_and_update (Key.text device_id) sequence g.replay).1)
        × (g'.drawn ≡ g.drawn + 1)
  unfolding handle_reading check_replay count_in
  handle_reading_forwards g device_id key received sequence opened above built =
      let fresh = (accepted_iff (Key.text device_id) sequence g.replay).1 above in
      let guarded : Gateway = record g {
        metrics = Metrics.inc (codes "messages_received") 1 g.metrics;
        replay = (check_and_update (Key.text device_id) sequence g.replay).1;
      } in
      let (returned, (channel, replay, drawn)) = forward_works guarded built in
      rw (opened, fresh) (returned, channel, replay, drawn)
