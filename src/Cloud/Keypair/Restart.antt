-- ===== src/Cloud/Keypair/Restart.antt =====
-- The key of the cloud over restarts.
use pqcbridge_legacy_edge_cl.Base.{◌≡◌, inl, inr, arith, true, Bytes, Bool-cases}
use pqcbridge_legacy_edge_cl.Result.{ok, Result-cases}
use pqcbridge_legacy_edge_cl.Crypto.Library.{Library, Laws}
use pqcbridge_legacy_edge_cl.Crypto.KeyFile.{
  KeyFile, generate_mlkem_keypair, save_mlkem_private_key, load_mlkem_private_key,
}
use pqcbridge_legacy_edge_cl.Cloud.Keypair.{exists, load_or_generate_keypair, generate_and_save}

module _ (lib : Library) (laws : Laws lib) where
  -- A file that was read: the key comes from it, whatever is drawn.
  loaded_again :
      (draw key : Bytes) (f : KeyFile)
      → exists f.content ≡ true
      → load_mlkem_private_key lib f ≡ ok key
      → load_or_generate_keypair lib draw f ≡ (ok key, f)
  unfolding load_or_generate_keypair
  loaded_again draw key f there h = rw (there, h)

  generated_loads :
      (draw key : Bytes) (f f' : KeyFile)
      → f.readable ≡ true
      → generate_and_save lib draw f ≡ (ok key, f')
      → (exists f'.content ≡ true) × (load_mlkem_private_key lib f' ≡ ok key)
  unfolding generate_and_save save_mlkem_private_key load_mlkem_private_key generate_mlkem_keypair
  generated_loads draw key f f' readable h =
      ground (arith, laws.seed_round_trip (lib.generate draw))

  started_loads :
      (draw key : Bytes) (f f' : KeyFile)
      → f.readable ≡ true
      → load_or_generate_keypair lib draw f ≡ (ok key, f')
      → (exists f'.content ≡ true) × (load_mlkem_private_key lib f' ≡ ok key)
  unfolding load_or_generate_keypair
  started_loads draw key f f' readable h = elim (Bool-cases (exists f.content)) [
    | inr absent ↦ generated_loads draw key f f' readable (rw absent at h)
    | inl there ↦ elim (Result-cases (load_mlkem_private_key lib f)) [
      | inl (k, e) ↦ ground arith
      | inr (x, e) ↦ ground (arith, generated_loads draw key f f' readable)
    ]
  ]

  -- Under the laws of the library, if the key file can be read and the cloud gets a private key at
  -- its start, then a later start from the file that this left gets the same key and leaves the
  -- same file, whatever is drawn.
  pub load_or_generate_keypair_idem :
      (draw later_draw key : Bytes) (f f' : KeyFile)
      → f.readable ≡ true
      → load_or_generate_keypair lib draw f ≡ (ok key, f')
      → load_or_generate_keypair lib later_draw f' ≡ (ok key, f')
  load_or_generate_keypair_idem draw later_draw key f f' readable h =
      let (there, loads) = started_loads draw key f f' readable h in
      loaded_again later_draw key f' there loads
