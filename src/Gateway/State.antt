-- ===== src/Gateway/State.antt =====
-- The objects that the threads of the gateway share: the metrics, the cloud channel
-- (gateway/cloud_channel.py), and what `DeviceServer` keeps (gateway/gateway.py).
use pqcbridge_legacy_edge_cl.Base.{
  ℕ, Bool, true, false, ◌&&◌, Option, none, some, List, [], Bytes, Text,
}
use pqcbridge_legacy_edge_cl.Metrics
use pqcbridge_legacy_edge_cl.Metrics.{Metrics, new_metrics}
use pqcbridge_legacy_edge_cl.Replay.{ReplayGuard, new_guard}
use pqcbridge_legacy_edge_cl.Protocol.Socket.{Sock}

pub data State : Type 0 where
  disconnected connecting establishing established failed : State

-- `threads` counts the reconnect threads that were started, `reconnecting` is `_reconnecting`.
pub record CloudChannel : Type 0 where
  pub gateway_id : Text
  pub gateway_key : Bytes
  pub state : State
  pub session_id : Option Text
  pub session_key : Option Bytes
  pub sock : Option Sock
  pub auto_reconnect : Bool
  pub reconnecting : Bool
  pub threads : ℕ

unfoldable pub new_channel : Text → Bytes → Bool → CloudChannel
new_channel gateway_id gateway_key auto_reconnect = record {
  gateway_id = gateway_id;
  gateway_key = gateway_key;
  state = disconnected;
  session_id = none;
  session_key = none;
  sock = none;
  auto_reconnect = auto_reconnect;
  reconnecting = false;
  threads = 0;
}

-- `drawn` and `measured` count the random draws and the measured durations of the process.
pub record Gateway : Type 0 where
  pub metrics : Metrics
  pub channel : CloudChannel
  pub replay : ReplayGuard
  pub seen_devices : List Text
  pub drawn : ℕ
  pub measured : ℕ

unfoldable pub new_gateway : CloudChannel → Gateway
new_gateway channel = record {
  metrics = new_metrics;
  channel = channel;
  replay = new_guard;
  seen_devices = [];
  drawn = 0;
  measured = 0;
}

abbrev is_state_established : State → Bool
is_state_established established = true
is_state_established _ = false

abbrev present {ℓ} : {A : Type ℓ} → Option A → Bool
present none = false
present (some a) = true

unfoldable pub is_established : CloudChannel → Bool
is_established c = is_state_established c.state && present c.sock && present c.session_key

unfoldable pub set_channel : (CloudChannel → CloudChannel) → Gateway → Gateway
set_channel f g = record g { channel = f g.channel }

unfoldable pub count_in : Text → Gateway → Gateway
count_in name g = record g { metrics = Metrics.inc name 1 g.metrics }
