-- ===== src/Cloud/Server/Admission.antt =====
-- A session is opened only for a gateway that proved the possession of its key.
use pqcbridge_legacy_edge_cl.Base.{◌≡◌, ◌⊎◌, inl, inr, arith, Bytes, Text, ap, ◌∙◌}
use pqcbridge_legacy_edge_cl.Result.{Result, ok, err, ok-injective}
use mathlib.Core.Path.{subst}
use pqcbridge_legacy_edge_cl.Exec.{lift}
use pqcbridge_legacy_edge_cl.Exec.Binds.{Outcome-cases, bind-eq-ok}
use pqcbridge_legacy_edge_cl.Json.{Message}
use pqcbridge_legacy_edge_cl.Protocol.Stream.{read_message}
use pqcbridge_legacy_edge_cl.Config.{Host, gateway_key}
use pqcbridge_legacy_edge_cl.Cloud.Processing.{parse_mlkem_request, verify_gateway_request_auth}
use pqcbridge_legacy_edge_cl.Cloud.Server.{
  Link, Cloud, on_stream, authenticate, establish_session, key_for,
}

key_for-eq-ok : (r : Result Bytes) (key : Bytes) → key_for r ≡ ok key → r ≡ ok key
key_for-eq-ok (ok k) key h = h
key_for-eq-ok (err e) key h = cc

module _ (host : Host) (l : Link) where
  authenticate-cloud : (authenticate host l).1.cloud ≡ l.cloud
  unfolding authenticate
  authenticate-cloud = ground arith

  -- The first message is a request whose gateway id is registered and whose tag verifies under the
  -- registered key.
  abbrev pub IsAuthenticated : Text → Type 0
  IsAuthenticated gateway_id =
      (request : Message) × (key : Bytes) × ((read_message host.nesting l.stream).0 ≡ ok request)
      × (parse_mlkem_request request ≡ ok gateway_id)
      × (gateway_key host gateway_id ≡ ok key)
      × (verify_gateway_request_auth host.library request key ≡ ok tt)

  authenticate-eq-ok :
      (gateway_id : Text) → (authenticate host l).0 ≡ ok gateway_id → IsAuthenticated gateway_id
  unfolding authenticate
  authenticate-eq-ok gateway_id h =
      let (request, l₁, r_is, h₁) = bind-eq-ok (on_stream (read_message host.nesting)) _ l h in
      let (g, l₂, g_is, h₂) = bind-eq-ok (lift (parse_mlkem_request request)) _ l₁ h₁ in
      let (key, l₃, k_is, h₃) = bind-eq-ok (lift (key_for (gateway_key host g))) _ l₂ h₂ in
      let (u, l₄, v_is, h₄) =
        bind-eq-ok (lift (verify_gateway_request_auth host.library request key)) _ l₃ h₃ in
      let same : g ≡ gateway_id = ok-injective h₄ in
      (
        request,
        key,
        ap (λ (r : Result Message × Link). r.0) r_is,
        ap (λ (r : Result Text × Link). r.0) g_is ∙ ap ok same,
        subst (λ i. gateway_key host i ≡ ok key) same
            (key_for-eq-ok (gateway_key host g) key (ap (λ (r : Result Bytes × Link). r.0) k_is)),
        ap (λ (r : Result (Unit {0}) × Link). r.0) v_is,
      )

  -- A handshake leaves the registry of sessions as it was, or its first message is a request whose
  -- gateway id is registered and whose tag verifies under the registered key.
  pub establish_session_admits :
      ((establish_session host l).1.cloud.registry ≡ l.cloud.registry)
      ⊎ ((gateway_id : Text) × IsAuthenticated gateway_id)
  unfolding establish_session
  establish_session_admits = elim (Outcome-cases (authenticate host l)) [
    | inl (gateway_id, l', e) ↦ inr (gateway_id, authenticate-eq-ok gateway_id (rw e))
    | inr (x, l', e) ↦ inl (rw e (ap (λ (k : Cloud). k.registry) (rw e at authenticate-cloud)))
  ]
