-- ===== src/Bootstrap/Pin.antt =====
-- The order of the steps of the script: the pin before the gateway.
use pqcbridge_legacy_edge_cl.Base.{◌≡◌, ◌⊎◌, inl, inr, ◌∙◌, arith, some, [], ◌∷◌, ◌++◌, Text}
use pqcbridge_legacy_edge_cl.Result.{ok, Result-cases}
use pqcbridge_legacy_edge_cl.Exec.Binds.{Outcome-cases}
use pqcbridge_legacy_edge_cl.Bootstrap.{
  Answers, Deployment, start_cloud, pin_line, run_compose, extract_fingerprint, write_pin,
  provision, start_services, main,
}

module _ (a : Answers) (d : Deployment) where
  -- The pin in .env is the fingerprint in the logs of the cloud.
  abbrev pub IsPinned : Deployment → Type 0
  IsPinned d' =
      (logs : Text) × (fingerprint : Text) × (a.cloud_logs ≡ ok logs)
      × (extract_fingerprint logs ≡ ok fingerprint)
      × (d'.env_file ≡ some (pin_line fingerprint))

  -- Before the pin is written only the cloud is started.
  provision-commands : (provision a d).1.commands ≡ d.commands ++ start_cloud ∷ []
  unfolding provision run_compose write_pin
  provision-commands = ground arith

  provision-eq-ok : (d' : Deployment) → provision a d ≡ (ok tt, d') → IsPinned d'
  unfolding provision run_compose write_pin
  provision-eq-ok d' h = elim (Result-cases a.cloud_logs) [
    | inl (logs, read) ↦ elim (Result-cases (extract_fingerprint logs)) [
      | inl (fingerprint, found) ↦ (logs, fingerprint, read, found, ground arith)
      | inr (x, missing) ↦ absurd (ground arith)
    ]
    | inr (x, failed) ↦ absurd (ground arith)
  ]

  services_keep_pin : (d' : Deployment) → (start_services a d').1.env_file ≡ d'.env_file
  unfolding start_services run_compose
  services_keep_pin d' = ground arith

  main-IsPinned :
      (d' : Deployment) → IsPinned d' → provision a d ≡ (ok tt, d') → IsPinned (main a d).1
  unfolding main
  main-IsPinned d' (logs, fingerprint, read, found, written) e =
      (logs, fingerprint, read, found, rw e (services_keep_pin d' ∙ written))

  -- When the bootstrap script ends, with or without an exception, either only the cloud was
  -- started, or .env holds the fingerprint that the script found in the logs of the cloud.
  pub main_provisions :
      ((main a d).1.commands ≡ d.commands ++ start_cloud ∷ []) ⊎ IsPinned (main a d).1
  unfolding main
  main_provisions = elim (Outcome-cases (provision a d)) [
    | inl (u, d', e) ↦ inr (main-IsPinned d' (provision-eq-ok d' e) e)
    | inr (x, d', e) ↦ inl (rw e (rw e at provision-commands))
  ]
