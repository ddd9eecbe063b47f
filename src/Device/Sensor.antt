-- ===== src/Device/Sensor.antt =====
-- device/sensor.py: readings. The time and the random temperature are arguments, as the texts that
-- JSON shows for them.
pub mod RoundTrip
use pqcbridge_legacy_edge_cl.Base.{[], ◌∷◌, Bytes, Text, codes, ℤ}
use pqcbridge_legacy_edge_cl.Json.{str, int, float, obj, of_entries, Message}
use pqcbridge_legacy_edge_cl.Json.Dumps.{dumps}

abbrev pub reading_unit : Text
reading_unit = codes "celsius"

unfoldable pub generate_reading : Text → ℤ → Text → Text → Message
generate_reading device_id sequence timestamp temperature =
    (codes "device_id", str device_id)
    ∷ (codes "timestamp", str timestamp)
    ∷ (codes "temperature_c", float temperature)
    ∷ (codes "unit", str reading_unit)
    ∷ (codes "sequence", int sequence)
    ∷ []

-- The text of `json.dumps` is ASCII, so it is its own encoding. For a sequence of too many digits it
-- raises the ValueError that `legacy_message_aad` raises next, where it is modelled.
unfoldable pub reading_to_bytes : Message → Bytes
unfolding dumps
reading_to_bytes reading = dumps (obj (of_entries reading))
