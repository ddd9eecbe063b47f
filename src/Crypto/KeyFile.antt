-- ===== src/Crypto/KeyFile.antt =====
-- common/crypto.py, the ML-KEM private key in its file. The state is the file: what it holds, if it
-- is there, and whether it can be read and written. A write that fails leaves the file as it was.
use pqcbridge_legacy_edge_cl.Base.{Bool, Option, some, if◌then◌else◌, Bytes}
use pqcbridge_legacy_edge_cl.Result.{Result, err, os_error, or_raise, ◌>>=◌}
use pqcbridge_legacy_edge_cl.Exec.{Exec, pure, raise}
use pqcbridge_legacy_edge_cl.Crypto.Library.{Library}

pub record KeyFile : Type 0 where
  pub content : Option Bytes
  pub readable : Bool
  pub writable : Bool

-- Path(path).read_bytes()
read_bytes : KeyFile → Result Bytes
read_bytes f = if f.readable then or_raise f.content os_error else err os_error

module _ (lib : Library) where
  -- A fresh key, from a random draw of the package.
  unfoldable pub generate_mlkem_keypair : Bytes → Bytes
  generate_mlkem_keypair draw = lib.generate draw

  unfoldable pub save_mlkem_private_key : Bytes → Exec KeyFile (Unit {0})
  save_mlkem_private_key private_key f =
      if f.writable
      then pure tt (record f { content = some (lib.private_bytes_raw private_key) })
      else raise os_error f

  unfoldable pub load_mlkem_private_key : KeyFile → Result Bytes
  unfolding read_bytes
  load_mlkem_private_key f = do raw ← read_bytes f; lib.from_seed_bytes raw

-- The raw encoding of a public key, which is how a key object is modelled.
unfoldable pub public_key_bytes : Bytes → Bytes
public_key_bytes public_key = public_key
