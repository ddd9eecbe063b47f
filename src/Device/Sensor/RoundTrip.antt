-- ===== src/Device/Sensor/RoundTrip.antt =====
-- The bytes of a reading are read back as the reading.
use pqcbridge_legacy_edge_cl.Base.{
  ℕ, ◌<◌, ◌≡◌, refl, true, [], append-nil, All, Text, ℤ, codes, Eq_text, text_eq,
}
use pqcbridge_legacy_edge_cl.Result.{ok}
use pqcbridge_legacy_edge_cl.Dict.{get}
use pqcbridge_legacy_edge_cl.Encoding.Utf8.Ascii.{utf8_decode-ascii, shown_ascii}
use pqcbridge_legacy_edge_cl.Json.{obj, of_entries, entries-of_entries}
use pqcbridge_legacy_edge_cl.Json.Dumps.{dumps}
use pqcbridge_legacy_edge_cl.Json.Strings.{IsScalar}
use pqcbridge_legacy_edge_cl.Json.RoundTrip.{loads-dumps}
use pqcbridge_legacy_edge_cl.Json.RoundTrip.Printable.{
  IsShort, IsDecimal, IsPrintable, dumps_shown, shown-IsScalar,
}
use pqcbridge_legacy_edge_cl.Protocol.Aad.{parse_reading_bytes, has_required_fields}
use pqcbridge_legacy_edge_cl.Device.Sensor.{generate_reading, reading_to_bytes, reading_unit}

generate_reading-IsPrintable :
    (nesting : ℕ) (device_id : Text) (sequence : ℤ) (timestamp temperature : Text)
    → 0 < nesting
    → All IsScalar device_id
    → IsShort sequence
    → All IsScalar timestamp
    → IsDecimal temperature
    → IsPrintable nesting
        (obj (of_entries (generate_reading device_id sequence timestamp temperature)))
unfolding IsPrintable generate_reading get text_eq
generate_reading-IsPrintable nesting device_id sequence timestamp temperature deep h k l m = (
  deep,
  (
    shown-IsScalar (codes "device_id") refl,
    refl,
    h,
    (
      shown-IsScalar (codes "timestamp") refl,
      refl,
      l,
      (
        shown-IsScalar (codes "temperature_c") refl,
        refl,
        m,
        (
          shown-IsScalar (codes "unit") refl,
          refl,
          shown-IsScalar reading_unit refl,
          (shown-IsScalar (codes "sequence") refl, refl, k, tt),
        ),
      ),
    ),
  ),
)

-- The required fields are there, whatever the values.
generate_reading-has_required_fields :
    (device_id : Text) (sequence : ℤ) (timestamp temperature : Text)
    → has_required_fields (generate_reading device_id sequence timestamp temperature) ≡ true
unfolding has_required_fields generate_reading get text_eq
generate_reading-has_required_fields device_id sequence timestamp temperature = refl

-- The bytes of a reading that the sensor generates, for texts without surrogates, a sequence of at
-- most 4300 digits and a temperature written with a fraction and without an exponent, are parsed
-- as that reading.
pub parse_reading_bytes-generate_reading :
    (nesting : ℕ) (device_id : Text) (sequence : ℤ) (timestamp temperature : Text)
    → 0 < nesting
    → All IsScalar device_id
    → IsShort sequence
    → All IsScalar timestamp
    → IsDecimal temperature
    → let reading = generate_reading device_id sequence timestamp temperature in
      parse_reading_bytes nesting (reading_to_bytes reading) ≡ ok reading
unfolding parse_reading_bytes reading_to_bytes
parse_reading_bytes-generate_reading nesting device_id sequence timestamp temperature deep h k l m =
    let reading = generate_reading device_id sequence timestamp temperature in
    let v = obj (of_entries reading) in
    let printable =
      generate_reading-IsPrintable nesting device_id sequence timestamp temperature deep h k l m in
    let parsed = rw (append-nil (dumps v)) at (loads-dumps nesting v [] printable refl) in
    rw (
      utf8_decode-ascii (dumps v) (shown_ascii (dumps v) (dumps_shown nesting v printable)),
      parsed,
      entries-of_entries reading,
      generate_reading-has_required_fields device_id sequence timestamp temperature,
    )
