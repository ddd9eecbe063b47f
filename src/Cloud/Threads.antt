-- ===== src/Cloud/Threads.antt =====
-- cloud/cloud.py: the connections that `serve_forever` accepts, each in a thread of its own, over
-- one `Cloud`. The replay guard and the store have a lock each, so between the check of a reading
-- and its storage the other threads may run.
pub mod Once
pub mod Rounds
use pqcbridge_legacy_edge_cl.Base.{
  Eq_text, ◌≡◌, true, some, List, [], ◌∷◌, ◌++◌, Bytes, Text, codes, ℤ,
}
use pqcbridge_legacy_edge_cl.Result.{ok}
use pqcbridge_legacy_edge_cl.Dict.{get}
use pqcbridge_legacy_edge_cl.Json.{Json, int, Message}
use pqcbridge_legacy_edge_cl.Config.{Host}
use pqcbridge_legacy_edge_cl.Replay.{Key, hash_key, check_and_update}
use pqcbridge_legacy_edge_cl.Cloud.Processing.{decrypt_protected_reading}
use pqcbridge_legacy_edge_cl.Cloud.Store
use pqcbridge_legacy_edge_cl.Cloud.Server.{Cloud}

-- Where the thread of a session stands: before its next message, or with a reading that the guard
-- has accepted and the store has not got.
pub data Pc : Type 0 where
  waiting : Text → Bytes → Pc
  storing : Text → Bytes → Message → Pc

pub record System : Type 0 where
  pub cloud : Cloud
  pub threads : List Pc

-- The readings that are accepted and not stored.
abbrev pub in_flight : List Pc → List Message
in_flight [] = []
in_flight (waiting session_id key ∷ threads) = in_flight threads
in_flight (storing session_id key reading ∷ threads) = reading ∷ in_flight threads

-- One step of one thread.
pub data Step (host : Host) (s t : System) : Type 0 where
  -- What touches neither the guard nor the store: a new connection and its handshake, a message that
  -- is dropped, the metrics, the end of a connection.
  aside :
      t.cloud.replay ≡ s.cloud.replay
      → t.cloud.store ≡ s.cloud.store
      → in_flight t.threads ≡ in_flight s.threads
      → Step host s t
  -- A message on a session, whose reading the guard accepts.
  check :
      (before after : List Pc) (session_id : Text) (key : Bytes) (message reading : Message)
      (device : Json) (device_id : Key) (sequence : ℤ)
      → s.threads ≡ before ++ waiting session_id key ∷ after
      → decrypt_protected_reading host.library host.nesting message key session_id ≡ ok reading
      → get reading (codes "device_id") ≡ some device
      → hash_key device ≡ ok device_id
      → get reading (codes "sequence") ≡ some (int sequence)
      → (check_and_update device_id sequence s.cloud.replay).0 ≡ true
      → t.cloud.replay ≡ (check_and_update device_id sequence s.cloud.replay).1
      → t.cloud.store ≡ s.cloud.store
      → t.threads ≡ before ++ storing session_id key reading ∷ after
      → Step host s t
  -- An accepted reading is stored.
  store :
      (before after : List Pc) (session_id : Text) (key : Bytes) (reading : Message)
      → s.threads ≡ before ++ storing session_id key reading ∷ after
      → t.cloud.replay ≡ s.cloud.replay
      → t.cloud.store ≡ Store.add reading s.cloud.store
      → t.threads ≡ before ++ waiting session_id key ∷ after
      → Step host s t

pub data Reach (host : Host) (s : System) : System → Type 0 where
  here : Reach host s s
  next : {t u : System} → Reach host s t → Step host t u → Reach host s u
