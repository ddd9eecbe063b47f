-- ===== src/Cloud/Keypair.antt =====
-- cloud/cloud.py, `load_or_generate_keypair`.
pub mod Restart
use pqcbridge_legacy_edge_cl.Base.{Bool, true, false, Option, none, some, if◌then◌else◌, Bytes}
use pqcbridge_legacy_edge_cl.Result.{Exn, Result, ok, err, value_error, os_error}
use pqcbridge_legacy_edge_cl.Exec.{Exec, pure, raise, ◌>>=◌, ◌>>◌}
use pqcbridge_legacy_edge_cl.Crypto.Library.{Library}
use pqcbridge_legacy_edge_cl.Crypto.KeyFile.{
  KeyFile, generate_mlkem_keypair, save_mlkem_private_key, load_mlkem_private_key,
}

-- key_path.exists()
abbrev exists : Option Bytes → Bool
exists none = false
exists (some raw) = true

-- except (ValueError, OSError)
abbrev is_load_error : Exn → Bool
is_load_error value_error = true
is_load_error os_error = true
is_load_error e = false

module _ (lib : Library) (draw : Bytes) where
  generate_and_save : Exec KeyFile Bytes
  generate_and_save = do
    let private_key = generate_mlkem_keypair lib draw
    save_mlkem_private_key lib private_key
    pure private_key

  loaded_or_new : Result Bytes → Exec KeyFile Bytes
  unfolding generate_and_save
  loaded_or_new (ok private_key) = pure private_key
  loaded_or_new (err e) = if is_load_error e then generate_and_save else raise e

  unfoldable pub load_or_generate_keypair : Exec KeyFile Bytes
  unfolding loaded_or_new generate_and_save
  load_or_generate_keypair f =
      if exists f.content
      then loaded_or_new (load_mlkem_private_key lib f) f
      else generate_and_save f
