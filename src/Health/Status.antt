-- ===== src/Health/Status.antt =====
-- The status that the two services report: the callbacks in `main` of gateway/gateway.py and of
-- cloud/cloud.py. How a number of millionths is printed is a function of its unit and its field.
use pqcbridge_legacy_edge_cl.Base.{
  ℕ, true, Option, none, some, [], ◌∷◌, map, if◌then◌else◌, Text, codes, pos,
}
use pqcbridge_legacy_edge_cl.Dict.{Dict}
use pqcbridge_legacy_edge_cl.Json.{
  Json, null, bool, int, float, str, arr, obj, Message, of_entries, of_elems,
}
use pqcbridge_legacy_edge_cl.Metrics.{Summary, Snapshot, snapshot}
use pqcbridge_legacy_edge_cl.Gateway.State.{
  State, disconnected, connecting, establishing, established, failed, Gateway, is_established,
}
use pqcbridge_legacy_edge_cl.Cloud.Store
use pqcbridge_legacy_edge_cl.Cloud.Sessions
use pqcbridge_legacy_edge_cl.Cloud.Server.{Cloud}

-- the values of the enum
unfoldable pub state_value : State → Text
state_value disconnected = codes "disconnected"
state_value connecting = codes "connecting"
state_value establishing = codes "establishing"
state_value established = codes "established"
state_value failed = codes "failed"

abbrev counter_fields : Dict Text ℕ → Message
counter_fields [] = []
counter_fields ((name, n) ∷ rest) = (name, int (pos n)) ∷ counter_fields rest

abbrev optional_text : Option Text → Json
optional_text none = null
optional_text (some s) = str s

module _ (print : Text → Text → ℕ → Text) where
  abbrev printed : Text → Text → Option ℕ → Json
  printed unit name none = null
  printed unit name (some n) = float (print unit name n)

  timing : Summary → Json
  timing s = obj (
      of_entries (
        (codes "count", int (pos s.count))
        ∷ (codes "avg", printed s.unit (codes "avg") s.average)
        ∷ (codes "min", printed s.unit (codes "min") s.minimum)
        ∷ (codes "max", printed s.unit (codes "max") s.maximum)
        ∷ (codes "unit", str s.unit)
        ∷ []))

  timing_fields : Dict Text Summary → Message
  timing_fields [] = []
  timing_fields ((name, s) ∷ rest) = (name, timing s) ∷ timing_fields rest

  -- the dict of `Metrics.snapshot`
  unfoldable pub snapshot_fields : Snapshot → Message
  unfolding timing timing_fields
  snapshot_fields s =
      (codes "counters", obj (of_entries (counter_fields s.counters)))
      ∷ (codes "timings", obj (of_entries (timing_fields s.timings)))
      ∷ []

  unfoldable pub gateway_status : Gateway → Message
  gateway_status g =
      (codes "status", str (if is_established g.channel then codes "ok" else codes "degraded"))
      ∷ (codes "cloud_session_id", optional_text g.channel.session_id)
      ∷ (codes "cloud_connected", bool (is_established g.channel))
      ∷ (codes "cloud_state", str (state_value g.channel.state))
      ∷ snapshot_fields (snapshot g.metrics)

  unfoldable pub cloud_status : Cloud → Message
  cloud_status c =
      (codes "mlkem_ready", bool true)
      ∷ (codes "stored_readings", int (pos (Store.count c.store)))
      ∷ (codes "active_sessions", int (pos (Sessions.count c.registry)))
      ∷ snapshot_fields (snapshot c.metrics)

-- extra_routes: "/readings" answers with the last ten readings
unfoldable pub readings_route : Cloud → Json
readings_route c = arr (of_elems (map (λ r. obj (of_entries r)) (Store.recent 10 c.store)))
