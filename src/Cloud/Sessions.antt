-- ===== src/Cloud/Sessions.antt =====
-- cloud/cloud.py, `SessionRegistry`: the key and the gateway of each active session. A method runs
-- under the object's lock, so it is one step.
use pqcbridge_legacy_edge_cl.Base.{ℕ, Option, [], length, Bytes, Text, Eq_text}
use pqcbridge_legacy_edge_cl.Dict
use pqcbridge_legacy_edge_cl.Dict.{Dict}

pub record SessionRegistry : Type 0 where
  pub sessions : Dict Text (Bytes × Text)

abbrev pub new_registry : SessionRegistry
new_registry = record { sessions = [] }

unfoldable pub add : Text → Bytes → Text → SessionRegistry → SessionRegistry
add session_id session_key gateway_id r = record {
  sessions = Dict.put r.sessions session_id (session_key, gateway_id);
}

unfoldable pub get : Text → SessionRegistry → Option (Bytes × Text)
get session_id r = Dict.get r.sessions session_id

unfoldable pub remove : Text → SessionRegistry → SessionRegistry
remove session_id r = record { sessions = Dict.remove r.sessions session_id }

unfoldable pub count : SessionRegistry → ℕ
count r = length r.sessions
