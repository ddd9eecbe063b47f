-- ===== src/Cloud/Server/Readings.antt =====
-- What the cloud does with a message on an established session.
use pqcbridge_legacy_edge_cl.Base.{
  ◌≡◌, ◌⊎◌, inl, inr, refl, arith, true, false, none, some, Bytes, Text, Eq_text, codes, ℤ, ◌<ℤ◌,
  Bool-cases, Option-cases,
}
use pqcbridge_legacy_edge_cl.Result.{Exn, ok, err, Result-cases, or_raise-eq-ok, key_error}
use pqcbridge_legacy_edge_cl.Dict.{get}
use pqcbridge_legacy_edge_cl.Json.{Json, int, Message}
use pqcbridge_legacy_edge_cl.Config.{Host}
use pqcbridge_legacy_edge_cl.Metrics
use pqcbridge_legacy_edge_cl.Replay.{Key, hash_key, last_seen, check_and_update}
use pqcbridge_legacy_edge_cl.Replay.Sequences.{accepted_iff, last_seen-accepted}
use pqcbridge_legacy_edge_cl.Crypto.Aead.{item}
use pqcbridge_legacy_edge_cl.Cloud.Processing.{decrypt_protected_reading}
use pqcbridge_legacy_edge_cl.Cloud.Store
use pqcbridge_legacy_edge_cl.Cloud.Server.{
  Cloud, handle_reading, store_fresh, sequence_of, check_replay, keep_reading,
}

-- The readings, the replay guard and the sessions are the same.
abbrev pub Untouched : Cloud → Cloud → Type 0
Untouched c c' = (c'.replay ≡ c.replay) × (c'.store ≡ c.store) × (c'.registry ≡ c.registry)

-- A reading is stored whose sequence is above the last one of its device and becomes the last one.
abbrev pub Stored : Message → Cloud → Cloud → Type 0
Stored reading c c' =
    (device : Json) × (device_id : Key) × (sequence : ℤ) × (get reading (codes "device_id")
      ≡ some device)
    × (hash_key device ≡ ok device_id)
    × (get reading (codes "sequence") ≡ some (int sequence))
    × (last_seen c.replay device_id <ℤ sequence)
    × (last_seen c'.replay device_id ≡ sequence)
    × (c'.replay ≡ (check_and_update device_id sequence c.replay).1)
    × (c'.store ≡ Store.add reading c.store)
    × (c'.registry ≡ c.registry)

sequence_of-eq-some :
    (reading : Message) (n : ℤ)
    → sequence_of reading ≡ some n
    → get reading (codes "sequence") ≡ some (int n)
unfolding sequence_of
sequence_of-eq-some reading n h = ground arith

item-eq-ok : (m : Message) (field : Text) (v : Json) → item m field ≡ ok v → get m field ≡ some v
unfolding item
item-eq-ok m field v h = or_raise-eq-ok (get m field) key_error h

module _ (host : Host) (reading : Message) (c : Cloud) (sequence : ℤ) where
  -- The reading names no device, or nothing that can be a key.
  nameless-Untouched :
      (e : Exn)
      → item reading (codes "device_id") ≡ err e
      → Untouched c (store_fresh host reading sequence c).1
  unfolding store_fresh
  nameless-Untouched e h = rw h (refl, refl, refl)

  module _ (device : Json) (there : item reading (codes "device_id") ≡ ok device) where
    unhashable-Untouched :
        (e : Exn) → hash_key device ≡ err e → Untouched c (store_fresh host reading sequence c).1
    unfolding store_fresh
    unhashable-Untouched e h = rw (there, h) (refl, refl, refl)

    module _ (device_id : Key) (hashed : hash_key device ≡ ok device_id) where
      stale-Untouched :
          (check_and_update device_id sequence c.replay).0 ≡ false
          → Untouched c (store_fresh host reading sequence c).1
      unfolding store_fresh check_replay check_and_update
      stale-Untouched stale = rw (there, hashed, stale) (ground arith)

      fresh-Stored :
          get reading (codes "sequence") ≡ some (int sequence)
          → (check_and_update device_id sequence c.replay).0 ≡ true
          → Stored reading c (store_fresh host reading sequence c).1
      unfolding store_fresh check_replay keep_reading
      fresh-Stored numbered fresh = (
        device,
        device_id,
        sequence,
        item-eq-ok reading (codes "device_id") device there,
        hashed,
        numbered,
        (accepted_iff device_id sequence c.replay).0 fresh,
        rw (there, hashed, fresh) (last_seen-accepted device_id sequence c.replay fresh),
        rw (there, hashed, fresh),
        rw (there, hashed, fresh),
        rw (there, hashed, fresh),
      )

  store_fresh_guarded :
      get reading (codes "sequence") ≡ some (int sequence)
      → Untouched c (store_fresh host reading sequence c).1
        ⊎ Stored reading c (store_fresh host reading sequence c).1
  store_fresh_guarded numbered = elim (Result-cases (item reading (codes "device_id"))) [
    | inr (e, h) ↦ inl (nameless-Untouched e h)
    | inl (device, there) ↦ elim (Result-cases (hash_key device)) [
      | inr (e, h) ↦ inl (unhashable-Untouched device there e h)
      | inl (device_id, hashed) ↦
          elim (Bool-cases (check_and_update device_id sequence c.replay).0) [
            | inl fresh ↦ inr (fresh-Stored device there device_id hashed numbered fresh)
            | inr stale ↦ inl (stale-Untouched device there device_id hashed stale)
          ]
    ]
  ]

module _ (host : Host) (session_id : Text) (session_key : Bytes) (message : Message)
    (c : Cloud) where
  dropped-Untouched :
      (e : Exn)
      → decrypt_protected_reading host.library host.nesting message session_key session_id ≡ err e
      → Untouched c (handle_reading host session_id session_key message c).1
  unfolding handle_reading
  dropped-Untouched e h = rw h (ground arith)

  module _ (reading : Message)
      (opened : decrypt_protected_reading host.library host.nesting message session_key session_id
        ≡ ok reading) where
    unnumbered-Untouched :
        sequence_of reading ≡ none
        → Untouched c (handle_reading host session_id session_key message c).1
    unfolding handle_reading
    unnumbered-Untouched h = rw (opened, h) (refl, refl, refl)

    numbered_guarded :
        (sequence : ℤ)
        → sequence_of reading ≡ some sequence
        → Untouched c (handle_reading host session_id session_key message c).1
          ⊎ Stored reading c (handle_reading host session_id session_key message c).1
    unfolding handle_reading
    numbered_guarded sequence h =
        rw (opened, h)
          (store_fresh_guarded host reading
            (record c { metrics = Metrics.inc (codes "messages_received") 1 c.metrics }) sequence
            (sequence_of-eq-some reading sequence h))

  -- Whatever message arrives on a session, either the replay guard, the store and the registry of
  -- the cloud stay as they are, or the message decrypts under the key and the id of the session to
  -- a reading that is added to the store, and the sequence of the reading is above the last
  -- accepted one of its device and is the last one afterwards.
  pub handle_protected_guarded :
      Untouched c (handle_reading host session_id session_key message c).1
      ⊎ ((reading : Message) × (decrypt_protected_reading host.library host.nesting message
              session_key session_id
            ≡ ok reading)
          × Stored reading c (handle_reading host session_id session_key message c).1)
  handle_protected_guarded =
      elim (Result-cases
        (decrypt_protected_reading host.library host.nesting message session_key session_id)) [
          | inr (e, h) ↦ inl (dropped-Untouched e h)
          | inl (reading, opened) ↦ elim (Option-cases (sequence_of reading)) [
            | inl unnumbered ↦ inl (unnumbered-Untouched reading opened unnumbered)
            | inr (n, numbered) ↦ elim (numbered_guarded reading opened n numbered) [
              | inl same ↦ inl same
              | inr stored ↦ inr (reading, opened, stored)
            ]
          ]
        ]
