-- ===== src/Gateway/Main/Ready.antt =====
-- The gateway when it starts to serve devices, and over all their connections.
use pqcbridge_legacy_edge_cl.Base.{
  ℕ, ◌≡◌, arith, true, false, none, some, List, [], ◌∷◌, Bytes, Text, Eq_text, codes, ℤ, ◌≤ℤ◌, inl,
  inr, Bool-cases,
}
use mathlib.Core.Path.{subst}
use pqcbridge_legacy_edge_cl.Result.{Exn, ok, >>=-eq-ok, ok-injective}
use pqcbridge_legacy_edge_cl.Exec.Binds.{Outcome-cases}
use pqcbridge_legacy_edge_cl.Dict.{get}
use pqcbridge_legacy_edge_cl.Json.{str}
use pqcbridge_legacy_edge_cl.Protocol.Stream.{Stream}
use pqcbridge_legacy_edge_cl.Crypto.Library.{Laws}
use pqcbridge_legacy_edge_cl.Crypto.Kem.{public_key_fingerprint}
use pqcbridge_legacy_edge_cl.Config.{Host, local_gateway_key, cloud_public_key_sha256}
use pqcbridge_legacy_edge_cl.Replay.{Key, last_seen, check_and_update}
use pqcbridge_legacy_edge_cl.Replay.Sequences.{accepted_iff}
use pqcbridge_legacy_edge_cl.Gateway.State.{Gateway, new_gateway, new_channel, count_in}
use pqcbridge_legacy_edge_cl.Gateway.Channel.{Attempt, connect_and_establish}
use pqcbridge_legacy_edge_cl.Gateway.Channel.Endless.{connect_and_establish-true}
use pqcbridge_legacy_edge_cl.Gateway.Channel.Agreement.{Stands, connect_and_establish-Stands}
use pqcbridge_legacy_edge_cl.Gateway.Server.Growth.{NoLess, handle-NoLess}
use pqcbridge_legacy_edge_cl.Gateway.Main.{Args, connected, start, serve, serve_all}
use pqcbridge_legacy_edge_cl.Health.{health_body}
use pqcbridge_legacy_edge_cl.Health.Status.{gateway_status}
use pqcbridge_legacy_edge_cl.Health.Answers.{gateway_status_iff}

module _ (host : Host) where
  serve-NoLess :
      (stream : Stream) (g g' : Gateway)
      → NoLess g.replay g'
      → NoLess g.replay (serve host stream g')
  unfolding serve count_in
  serve-NoLess stream g g' h =
      handle-NoLess g.replay host
        (record { gateway = count_in (codes "device_connections") g'; stream = stream }) h

  serve_all-NoLess :
      (streams : List Stream) (g g' : Gateway)
      → NoLess g.replay g'
      → NoLess g.replay (serve_all host streams g')
  unfolding serve_all
  serve_all-NoLess [] g g' h = h
  serve_all-NoLess (stream ∷ later) g g' h =
      serve_all-NoLess later g (serve host stream g') (serve-NoLess stream g g' h)

  -- A sequence of a device that is not above the last accepted one is refused also after any
  -- further connections of devices, whatever they send.
  pub serve_all_refuses :
      (streams : List Stream) (g : Gateway) (device_id : Text) (sequence : ℤ)
      → sequence ≤ℤ last_seen g.replay (Key.text device_id)
      → (check_and_update (Key.text device_id) sequence (serve_all host streams g).replay).0 ≡ false
  serve_all_refuses streams g device_id sequence old =
      let kept = serve_all-NoLess streams g g (λ k. omega arith) (Key.text device_id) in
      elim (Bool-cases
        (check_and_update (Key.text device_id) sequence (serve_all host streams g).replay).0) [
          | inr refused ↦ refused
          | inl taken ↦
              let above =
                (accepted_iff (Key.text device_id) sequence (serve_all host streams g).replay).0
                  taken in
              absurd (omega arith)
        ]

module _ (host : Host) (laws : Laws host.library) (private_key : Bytes)
    (only : (raw : Bytes)
      → public_key_fingerprint host.library raw ≡ cloud_public_key_sha256 host
      → raw ≡ host.library.public_key private_key) where
  connected-Stands :
      (args : Args) (attempts : List Attempt) (g g' : Gateway)
      → connected host args attempts (connect_and_establish host none attempts g) ≡ ok g'
      → Stands host laws private_key only g'.channel
  unfolding connected
  connected-Stands args attempts g g' h =
      elim (Outcome-cases (connect_and_establish host none attempts g)) [
        | inr (x, g₁, e) ↦ absurd (cc (rw (e, connected) at h))
        | inl (done, g₁, e) ↦
            let up = connect_and_establish-true host attempts g g₁ done e in
            let stands =
              connect_and_establish-Stands host laws private_key only none attempts g
                (rw (e, up)) in
            subst (λ (k : Gateway). Stands host laws private_key only k.channel)
              (ok-injective (rw (e, connected) at h)) (rw e at stands)
      ]

  -- Under the laws of the library, and if only the public key of the cloud has the configured
  -- fingerprint: when the gateway starts to serve devices, its channel is established with a
  -- session key whose secret the holder of the cloud's private key gets from the last message
  -- sent, and its health answer has the status ok.
  pub start_ready :
      (args : Args) (attempts : List Attempt) (g : Gateway) (class_name : Exn → Text)
      (print : Text → Text → ℕ → Text)
      → start host args attempts ≡ ok g
      → Stands host laws private_key only g.channel
        × (get
              (health_body class_name (codes "gateway") (ok (gateway_status print g)))
              (codes "status")
            ≡ some (str (codes "ok")))
  unfolding start
  start_ready args attempts g class_name print h =
      let (key, found, h₁) = >>=-eq-ok (local_gateway_key host) _ h in
      let stands =
        connected-Stands args attempts (new_gateway (new_channel args.gateway_id key true)) g h₁ in
      (stands, (gateway_status_iff class_name (codes "gateway") print g).1 stands.0)
