-- ===== src/Crypto/Kem.antt =====
-- common/crypto.py: ML-KEM-768, fingerprints and the derivation of the session key.
use pqcbridge_legacy_edge_cl.Base.{Bytes, Text, codes}
use pqcbridge_legacy_edge_cl.Result.{
  Exn, Result, protocol_error, decapsulation_error, value_error, rescue,
}
use pqcbridge_legacy_edge_cl.Encoding.Hex.{hex}
use pqcbridge_legacy_edge_cl.Crypto.Library.{Library}

abbrev pub session_key_info : Bytes
session_key_info = codes "pqc-bridge/gateway-cloud-session/v1"

abbrev bad_public_key : Exn → Exn
bad_public_key value_error = protocol_error
bad_public_key e = e

abbrev bad_ciphertext : Exn → Exn
bad_ciphertext value_error = decapsulation_error
bad_ciphertext e = e

module _ (lib : Library) where
  unfoldable pub public_key_fingerprint : Bytes → Text
  unfolding hex
  public_key_fingerprint raw_public_key = hex (lib.sha256 raw_public_key)

  unfoldable pub load_public_key : Bytes → Result Bytes
  load_public_key raw = rescue (lib.from_public_bytes raw) bad_public_key

  -- The shared secret and the ciphertext, from a random draw of the package.
  unfoldable pub mlkem_encapsulate : Bytes → Bytes → Bytes × Bytes
  mlkem_encapsulate public_key draw = lib.encapsulate public_key draw

  unfoldable pub mlkem_decapsulate : Bytes → Bytes → Result Bytes
  mlkem_decapsulate private_key ciphertext =
      rescue (lib.decapsulate private_key ciphertext) bad_ciphertext

  unfoldable pub derive_session_key : Bytes → Bytes
  derive_session_key shared_secret = lib.hkdf session_key_info shared_secret
