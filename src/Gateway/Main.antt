-- ===== src/Gateway/Main.antt =====
-- gateway/gateway.py: `main`, and the connections that `serve_forever` accepts, one after the other.
pub mod Ready
use pqcbridge_legacy_edge_cl.Base.{Bool, true, none, List, [], ◌∷◌, Text, codes, ℤ}
use pqcbridge_legacy_edge_cl.Result.{Result, ok, err, ◌>>=◌}
use pqcbridge_legacy_edge_cl.Protocol.Stream.{Stream}
use pqcbridge_legacy_edge_cl.Config.{Host, local_gateway_key}
use pqcbridge_legacy_edge_cl.Config.Settings.{Settings}
use pqcbridge_legacy_edge_cl.Gateway.State.{Gateway, new_gateway, new_channel, count_in}
use pqcbridge_legacy_edge_cl.Gateway.Channel.{Attempt, connect_and_establish}
use pqcbridge_legacy_edge_cl.Gateway.Server.{handle}

pub record Args : Type 0 where
  pub gateway_id : Text
  pub listen_host : Text
  pub listen_port : ℤ
  pub cloud_host : Text
  pub cloud_port : ℤ
  pub health_port : ℤ

-- What parse_args gives for an empty command line.
unfoldable pub default_args : Settings → Args
default_args s = record {
  gateway_id = codes "gw-01";
  listen_host = s.gateway_listen_host;
  listen_port = s.gateway_listen_port;
  cloud_host = s.gateway_cloud_host;
  cloud_port = s.gateway_cloud_port;
  health_port = s.gateway_health_port;
}

module _ (host : Host) where
  -- The first half of `main`: the channel is made and connected before the health server and the
  -- server for the devices are started.
  unfoldable pub connected : Args → List Attempt → Result Bool × Gateway → Result Gateway
  connected args attempts (ok done, g) = ok g
  connected args attempts (err e, g) = err e

  unfoldable pub start : Args → List Attempt → Result Gateway
  unfolding connected
  start args attempts = do
    key ← local_gateway_key host
    connected args attempts (
        connect_and_establish host none attempts
          (new_gateway (new_channel args.gateway_id key true)))

  -- A connection is counted and handled. An exception that is left ends only its thread.
  unfoldable pub serve : Stream → Gateway → Gateway
  unfolding count_in
  serve stream g =
      (handle host
        (record { gateway = count_in (codes "device_connections") g; stream = stream })).1.gateway

  unfoldable pub serve_all : List Stream → Gateway → Gateway
  serve_all [] g = g
  serve_all (stream ∷ later) g = serve_all later (serve stream g)
