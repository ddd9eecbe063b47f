-- ===== src/Cloud/Server/Storing.antt =====
-- cloud/cloud.py: a fresh reading of a session is stored.
use pqcbridge_legacy_edge_cl.Base.{◌≡◌, refl, some, Bytes, Text, Eq_text, codes, ℤ, ◌<ℤ◌}
use pqcbridge_legacy_edge_cl.Result.{ok}
use pqcbridge_legacy_edge_cl.Dict.{get}
use pqcbridge_legacy_edge_cl.Json.{str, int, Message}
use pqcbridge_legacy_edge_cl.Config.{Host}
use pqcbridge_legacy_edge_cl.Metrics
use pqcbridge_legacy_edge_cl.Replay.{Key, hash_key, last_seen, check_and_update}
use pqcbridge_legacy_edge_cl.Replay.Sequences.{accepted_iff}
use pqcbridge_legacy_edge_cl.Crypto.Aead.{item}
use pqcbridge_legacy_edge_cl.Cloud.Processing.{decrypt_protected_reading}
use pqcbridge_legacy_edge_cl.Cloud.Store
use pqcbridge_legacy_edge_cl.Cloud.Server.{
  Cloud, handle_reading, store_fresh, sequence_of, check_replay, keep_reading, count_in,
}

module _ (host : Host) (c : Cloud) (reading : Message) (device_id : Text) (sequence : ℤ)
    (named : get reading (codes "device_id") ≡ some (str device_id))
    (numbered : get reading (codes "sequence") ≡ some (int sequence))
    (above : last_seen c.replay (Key.text device_id) <ℤ sequence) where
  numbered_sequence : sequence_of reading ≡ some sequence
  unfolding sequence_of
  numbered_sequence = rw (sequence_of, numbered)

  named_device : item reading (codes "device_id") ≡ ok (str device_id)
  unfolding item
  named_device = rw named

  store_fresh_stores :
      let (r, c') = store_fresh host reading sequence c in
      (r ≡ ok tt)
      × (c'.store ≡ Store.add reading c.store)
      × (c'.replay ≡ (check_and_update (Key.text device_id) sequence c.replay).1)
  unfolding store_fresh hash_key check_replay keep_reading count_in
  store_fresh_stores =
      let fresh = (accepted_iff (Key.text device_id) sequence c.replay).1 above in
      rw (named_device, fresh) (refl, refl, refl)

module _ (host : Host) (c : Cloud) (reading : Message) (device_id : Text) (sequence : ℤ)
    (named : get reading (codes "device_id") ≡ some (str device_id))
    (numbered : get reading (codes "sequence") ≡ some (int sequence))
    (above : last_seen c.replay (Key.text device_id) <ℤ sequence) where
  -- The reading is the newest of the store, and its sequence the last one of its device.
  pub handle_reading_stores :
      (session_id : Text) (session_key : Bytes) (message : Message)
      → decrypt_protected_reading host.library host.nesting message session_key session_id
        ≡ ok reading
      → let (r, c') = handle_reading host session_id session_key message c in
        (r ≡ ok tt)
        × (c'.store ≡ Store.add reading c.store)
        × (c'.replay ≡ (check_and_update (Key.text device_id) sequence c.replay).1)
  unfolding handle_reading count_in
  handle_reading_stores session_id session_key message opened =
      let counted : Cloud = record c {
        metrics = Metrics.inc (codes "messages_received") 1 c.metrics;
      } in
      rw (opened, numbered_sequence host c reading device_id sequence named numbered above)
        (store_fresh_stores host counted reading device_id sequence named numbered above)
