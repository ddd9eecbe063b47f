-- ===== src/Cloud/Store.antt =====
-- cloud/store.py: a bounded store of readings, `collections.deque(maxlen=…)`, oldest first. A
-- method runs under the object's lock, so it is one step.
pub mod Retention
pub mod Stamps
use pqcbridge_legacy_edge_cl.Base.{
  ℕ, zero, ◌+◌, ◌-◌, ◌≤◌, ◌<◌, ◌≡◌, refl, List, [], ◌∷◌, ◌++◌, append_assoc, arith, length, take,
  drop, length-append, length-drop, if◌then◌else◌, ltb,
}
use pqcbridge_legacy_edge_cl.Json.{Message}

pub record ReadingStore : Type 0 where
  pub readings : List Message
  pub max_readings : ℕ

abbrev pub default_max_readings : ℕ
default_max_readings = 1000

unfoldable pub new_store : ℕ → ReadingStore
new_store max_readings = record { readings = []; max_readings = max_readings }

-- the last `n` of a list: `items[-n:]` for a positive `n`
unfoldable pub keep_last {ℓ} : {A : Type ℓ} → ℕ → List A → List A
keep_last n items = drop (length items - n) items

-- A full deque drops its oldest element.
unfoldable pub add : Message → ReadingStore → ReadingStore
add reading s = record s { readings = keep_last s.max_readings (s.readings ++ reading ∷ []) }

-- `items[-0:]` is the whole list.
unfoldable pub recent : ℕ → ReadingStore → List Message
recent zero s = s.readings
recent n s = keep_last n s.readings

unfoldable pub count : ReadingStore → ℕ
count s = length s.readings
