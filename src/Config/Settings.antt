-- ===== src/Config/Settings.antt =====
-- common/config.py: the settings that the module reads from the environment when it is imported.
use pqcbridge_legacy_edge_cl.Base.{none, some, Text, Eq_text, codes, ℤ, pos}
use pqcbridge_legacy_edge_cl.Result.{Result, ok, value_error, or_raise, ◌>>=◌}
use pqcbridge_legacy_edge_cl.Dict.{get}
use pqcbridge_legacy_edge_cl.Encoding.Integer.{int_of_text}
use pqcbridge_legacy_edge_cl.Config.{Host}

-- os.environ.get(name, default)
unfoldable pub env : Host → Text → Text → Text
env host name default = elim (get host.environ name) [ none ↦ default | some raw ↦ raw ]

unfoldable pub env_int : Host → Text → ℤ → Result ℤ
unfolding int_of_text
env_int host name default = elim (get host.environ name) [
  | none ↦ ok default
  | some raw ↦ or_raise (int_of_text raw) value_error
]

pub record Settings : Type 0 where
  pub device_gateway_host : Text
  pub device_gateway_port : ℤ
  pub gateway_listen_host : Text
  pub gateway_listen_port : ℤ
  pub gateway_cloud_host : Text
  pub gateway_cloud_port : ℤ
  pub cloud_listen_host : Text
  pub cloud_listen_port : ℤ
  pub gateway_health_port : ℤ
  pub cloud_health_port : ℤ
  pub device_interval_seconds : ℤ
  pub cloud_key_file : Text
  pub device_state_dir : Text

-- A number that is none stops the import.
unfoldable pub settings : Host → Result Settings
unfolding env env_int
settings host = do
  device_port ← env_int host (codes "GATEWAY_PORT") (pos 5001)
  gateway_port ← env_int host (codes "GATEWAY_LISTEN_PORT") (pos 5001)
  to_cloud_port ← env_int host (codes "CLOUD_PORT") (pos 5002)
  cloud_port ← env_int host (codes "CLOUD_LISTEN_PORT") (pos 5002)
  gateway_health ← env_int host (codes "GATEWAY_HEALTH_PORT") (pos 8001)
  cloud_health ← env_int host (codes "CLOUD_HEALTH_PORT") (pos 8002)
  interval ← env_int host (codes "DEVICE_INTERVAL_SECONDS") (pos 5)
  ok (record {
    device_gateway_host = env host (codes "GATEWAY_HOST") (codes "127.0.0.1");
    device_gateway_port = device_port;
    gateway_listen_host = env host (codes "GATEWAY_LISTEN_HOST") (codes "0.0.0.0");
    gateway_listen_port = gateway_port;
    gateway_cloud_host = env host (codes "CLOUD_HOST") (codes "127.0.0.1");
    gateway_cloud_port = to_cloud_port;
    cloud_listen_host = env host (codes "CLOUD_LISTEN_HOST") (codes "0.0.0.0");
    cloud_listen_port = cloud_port;
    gateway_health_port = gateway_health;
    cloud_health_port = cloud_health;
    device_interval_seconds = interval;
    cloud_key_file = env host (codes "CLOUD_KEY_FILE") (codes "cloud_state/cloud.key");
    device_state_dir = env host (codes "DEVICE_STATE_DIR") (codes "device_state");
  })
