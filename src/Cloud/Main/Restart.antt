-- ===== src/Cloud/Main/Restart.antt =====
-- The cloud over restarts.
use pqcbridge_legacy_edge_cl.Base.{◌≡◌, ap, true, Bytes, inl, inr}
use pqcbridge_legacy_edge_cl.Result.{Result, ok}
use pqcbridge_legacy_edge_cl.Exec.Binds.{Outcome-cases}
use pqcbridge_legacy_edge_cl.Crypto.Library.{Laws}
use pqcbridge_legacy_edge_cl.Crypto.KeyFile.{KeyFile}
use pqcbridge_legacy_edge_cl.Config.{Host}
use pqcbridge_legacy_edge_cl.Cloud.Keypair.{load_or_generate_keypair}
use pqcbridge_legacy_edge_cl.Cloud.Keypair.Restart.{load_or_generate_keypair_idem}
use pqcbridge_legacy_edge_cl.Cloud.Server.{Cloud}
use pqcbridge_legacy_edge_cl.Cloud.Main.{Args, start}

-- Under the laws of the library, if the key file can be read and the cloud starts, then a later
-- start from the file that this left gives the same cloud, with the same keys, and leaves the same
-- file, whatever is drawn.
pub start_again :
    (host : Host) (args : Args) (draw later_draw : Bytes) (c : Cloud) (f f' : KeyFile)
    → Laws host.library
    → f.readable ≡ true
    → start host args draw f ≡ (ok c, f')
    → start host args later_draw f' ≡ (ok c, f')
unfolding start
start_again host args draw later_draw c f f' laws readable h =
    elim (Outcome-cases (load_or_generate_keypair host.library draw f)) [
      | inr (x, f₁, e) ↦ absurd (cc (rw e at h))
      | inl (key, f₁, e) ↦
          let same_file : f₁ ≡ f' = ap (λ (r : Result Cloud × KeyFile). r.1) (rw e at h) in
          let again =
            load_or_generate_keypair_idem host.library laws draw later_draw key f f₁ readable e in
          rw (← same_file, again) (rw (e, ← same_file) at h)
    ]
