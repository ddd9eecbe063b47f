-- ===== src/Gateway/Channel/Endless.antt =====
-- The method without a limit of attempts, as `main` and the reconnect threads call it.
use pqcbridge_legacy_edge_cl.Base.{ℕ, ◌+◌, ◌≡◌, Bool, true, false, none, List, [], ◌∷◌, inl, inr}
use pqcbridge_legacy_edge_cl.Result.{ok}
use pqcbridge_legacy_edge_cl.Exec.Binds.{Outcome-cases}
use pqcbridge_legacy_edge_cl.Config.{Host}
use pqcbridge_legacy_edge_cl.Gateway.State.{Gateway}
use pqcbridge_legacy_edge_cl.Gateway.Channel.{
  Attempt, try_establish, is_last, stop_or, connect_from, connect_and_establish,
}

module _ (host : Host) where
  -- Without a limit there is no return but that with a session.
  connect_from-true :
      (n : ℕ) (attempts : List Attempt) (g g' : Gateway) (done : Bool)
      → connect_from host n none attempts g ≡ (ok done, g')
      → done ≡ true
  unfolding connect_from
  connect_from-true n [] g g' done h = cc
  connect_from-true n (a ∷ later) g g' done h = elim (Outcome-cases (try_establish host a g)) [
    | inr (x, g₁, e) ↦ absurd (cc (rw e at h))
    | inl (true, g₁, e) ↦ cc (rw e at h)
    | inl (false, g₁, e) ↦
        connect_from-true (n + 1) later g₁ g' done (rw (e, is_last, stop_or) at h)
  ]

  pub connect_and_establish-true :
      (attempts : List Attempt) (g g' : Gateway) (done : Bool)
      → connect_and_establish host none attempts g ≡ (ok done, g')
      → done ≡ true
  unfolding connect_and_establish
  connect_and_establish-true attempts g g' done h = connect_from-true 0 attempts g g' done h
