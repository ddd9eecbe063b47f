-- ===== src/Gateway/Processing/Pin.antt =====
-- The pin of the cloud's public key.
use pqcbridge_legacy_edge_cl.Base.{
  ◌≡◌, ◌≢◌, ◌↔◌, true, [], ◌∷◌, arith, Bytes, Text, text_eq_iff, all, ltb,
}
use pqcbridge_legacy_edge_cl.Result.{ok}
use pqcbridge_legacy_edge_cl.Crypto.Library.{Library}
use pqcbridge_legacy_edge_cl.Crypto.Kem.{public_key_fingerprint}
use pqcbridge_legacy_edge_cl.Gateway.Processing.{compare_digest, verify_cloud_public_key}

-- The public key of the cloud is accepted exactly when a pin is configured, the pin is ASCII and
-- it is the fingerprint of the key.
pub verify_cloud_public_key_iff :
    (lib : Library) (raw : Bytes) (pin : Text)
    → (verify_cloud_public_key lib raw pin ≡ ok tt)
      ↔ ((pin ≢ []) × (public_key_fingerprint lib raw ≡ pin) × (all (λ c. ltb c 128) pin ≡ true))
unfolding verify_cloud_public_key compare_digest
verify_cloud_public_key_iff lib raw [] = ground arith
verify_cloud_public_key_iff lib raw (c ∷ pin) =
    ground (arith, text_eq_iff (public_key_fingerprint lib raw) (c ∷ pin))
