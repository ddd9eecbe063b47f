-- ===== src/Cloud/Threads/Rounds.antt =====
-- The steps of the threads are those of `handle_reading`: a message that a session handles without
-- another thread between is a run of them.
use pqcbridge_legacy_edge_cl.Base.{◌≡◌, inl, inr, refl, List, ◌∷◌, ◌++◌, Bytes, Text}
use pqcbridge_legacy_edge_cl.Result.{ok}
use pqcbridge_legacy_edge_cl.Json.{Message}
use pqcbridge_legacy_edge_cl.Config.{Host}
use pqcbridge_legacy_edge_cl.Replay.{check_and_update}
use pqcbridge_legacy_edge_cl.Replay.Sequences.{accepted_iff}
use pqcbridge_legacy_edge_cl.Cloud.Processing.{decrypt_protected_reading}
use pqcbridge_legacy_edge_cl.Cloud.Server.{Cloud, handle_reading}
use pqcbridge_legacy_edge_cl.Cloud.Server.Readings.{Untouched, Stored, handle_protected_guarded}
use pqcbridge_legacy_edge_cl.Cloud.Threads.{
  Pc, waiting, storing, System, aside, check, store, Reach, here, next,
}

module _ (host : Host) (session_id : Text) (key : Bytes) (message : Message)
    (before after : List Pc) (s : System)
    (from : s.threads ≡ before ++ waiting session_id key ∷ after) (c : Cloud) where
  Untouched-Reach : Untouched s.cloud c → Reach host s (record s { cloud = c })
  Untouched-Reach (replay, kept, registry) = next here (aside replay kept refl)

  Stored-Reach :
      (reading : Message)
      → decrypt_protected_reading host.library host.nesting message key session_id ≡ ok reading
      → Stored reading s.cloud c
      → Reach host s (record s { cloud = c })
  Stored-Reach reading opened
        (device, k, n, named, hashed, numbered, above, last, replay, added, registry) =
      let guarded = record s {
        cloud = record s.cloud { replay = (check_and_update k n s.cloud.replay).1 };
        threads = before ++ storing session_id key reading ∷ after;
      } in
      next {t = guarded}
        (next here (
          check before after session_id key message reading device k n from opened named hashed
            numbered ((accepted_iff k n s.cloud.replay).1 above) refl refl refl))
        (store before after session_id key reading refl replay added from)

-- What the cloud does with one message of a session whose thread waits is a run of the steps of
-- the threads.
pub handle_reading-Reach :
    (host : Host) (session_id : Text) (key : Bytes) (message : Message) (before after : List Pc)
    (s : System)
    → s.threads ≡ before ++ waiting session_id key ∷ after
    → Reach host s (record s { cloud = (handle_reading host session_id key message s.cloud).1 })
handle_reading-Reach host session_id key message before after s from =
    let c = (handle_reading host session_id key message s.cloud).1 in
    elim (handle_protected_guarded host session_id key message s.cloud) [
      | inl same ↦ Untouched-Reach host session_id key message before after s from c same
      | inr (reading, opened, stored) ↦
          Stored-Reach host session_id key message before after s from c reading opened stored
    ]
