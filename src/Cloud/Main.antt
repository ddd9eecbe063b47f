-- ===== src/Cloud/Main.antt =====
-- cloud/cloud.py: `main`, and the connections that `serve_forever` accepts, one after the other.
pub mod Restart
use pqcbridge_legacy_edge_cl.Base.{ℕ, [], List, ◌∷◌, Bytes, Text, codes, ℤ}
use pqcbridge_legacy_edge_cl.Exec.{Exec, pure, ◌>>=◌}
use pqcbridge_legacy_edge_cl.Metrics.{new_metrics}
use pqcbridge_legacy_edge_cl.Replay.{new_guard}
use pqcbridge_legacy_edge_cl.Protocol.Stream.{Stream}
use pqcbridge_legacy_edge_cl.Protocol.Socket.{Sock}
use pqcbridge_legacy_edge_cl.Crypto.Kem.{public_key_fingerprint}
use pqcbridge_legacy_edge_cl.Crypto.KeyFile.{KeyFile, public_key_bytes}
use pqcbridge_legacy_edge_cl.Config.{Host}
use pqcbridge_legacy_edge_cl.Config.Settings.{Settings}
use pqcbridge_legacy_edge_cl.Cloud.Keypair.{load_or_generate_keypair}
use pqcbridge_legacy_edge_cl.Cloud.Sessions.{new_registry}
use pqcbridge_legacy_edge_cl.Cloud.Store.{new_store, default_max_readings}
use pqcbridge_legacy_edge_cl.Cloud.Server.{Cloud, count_in, handle}

pub record Args : Type 0 where
  pub cloud_id : Text
  pub listen_host : Text
  pub listen_port : ℤ
  pub health_port : ℤ
  pub key_file : Text

-- What parse_args gives for an empty command line.
unfoldable pub default_args : Settings → Args
default_args s = record {
  cloud_id = codes "cloud-01";
  listen_host = s.cloud_listen_host;
  listen_port = s.cloud_listen_port;
  health_port = s.cloud_health_port;
  key_file = s.cloud_key_file;
}

unfoldable pub new_cloud : Text → Bytes → Bytes → Cloud
new_cloud cloud_id private_key public_key_raw = record {
  cloud_id = cloud_id;
  private_key = private_key;
  public_key_raw = public_key_raw;
  registry = new_registry;
  store = new_store default_max_readings;
  metrics = new_metrics;
  replay = new_guard;
  measured = 0;
}

module _ (host : Host) where
  -- What `main` does before it serves, from the key file and a random draw.
  unfoldable pub start : Args → Bytes → Exec KeyFile Cloud
  unfolding public_key_bytes
  start args draw = do
    private_key ← load_or_generate_keypair host.library draw
    pure (
        new_cloud args.cloud_id private_key
          (public_key_bytes (host.library.public_key private_key)))

  -- The fingerprint that `main` logs for the operator.
  unfoldable pub printed_fingerprint : Cloud → Text
  printed_fingerprint c = public_key_fingerprint host.library c.public_key_raw

  -- A connection is counted and handled. An exception that is left ends only its thread.
  unfoldable pub serve : Sock → Stream → Cloud → Cloud
  unfolding count_in
  serve sock stream c =
      (handle host (record {
        cloud = count_in (codes "gateway_connections") c;
        sock = sock;
        stream = stream;
      })).1.cloud

  unfoldable pub serve_all : List (Sock × Stream) → Cloud → Cloud
  serve_all [] c = c
  serve_all ((sock, stream) ∷ later) c = serve_all later (serve sock stream c)
