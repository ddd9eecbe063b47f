-- ===== src/Gateway/Threads/Wire.antt =====
-- What `transmit` and `seal` do to the socket and to the replay guard.
use pqcbridge_legacy_edge_cl.Base.{
  ◌≡◌, ◌⊎◌, inl, inr, refl, sym, ap, none, some, [], ◌∷◌, ◌++◌, Bytes, Option-cases,
}
use pqcbridge_legacy_edge_cl.Result.{Exn, Result, ok, err, attribute_error, crypto_error}
use pqcbridge_legacy_edge_cl.Json.{Message}
use pqcbridge_legacy_edge_cl.Protocol.Socket.{Sock, sendall-cases}
use pqcbridge_legacy_edge_cl.Config.{Host}
use pqcbridge_legacy_edge_cl.Gateway.State.{Gateway, set_channel}
use pqcbridge_legacy_edge_cl.Gateway.Channel.Sending.{send_on, seal, transmit}
use pqcbridge_legacy_edge_cl.Gateway.Channel.Outcomes.{invalidate-Invalid}

-- One payload more on the socket, or an exception and the same socket or none.
abbrev pub Wire : Bytes → Gateway → Result (Unit {0}) × Gateway → Type 0
Wire payload g (r, g') =
    (g'.replay ≡ g.replay)
    × (((r ≡ ok tt)
          × (sock : Sock) × (sock' : Sock) × (g.channel.sock ≡ some sock)
          × (g'.channel.sock ≡ some sock')
          × (sock'.sent ≡ sock.sent ++ payload ∷ []))
        ⊎ ((e : Exn) × (r ≡ err e)
            × ((g'.channel.sock ≡ g.channel.sock) ⊎ (g'.channel.sock ≡ none))))

pub transmit-Wire : (payload : Bytes) (g : Gateway) → Wire payload g (transmit payload g)
unfolding transmit send_on set_channel
transmit-Wire payload g = elim (Option-cases g.channel.sock) [
  | inl gone ↦ rw gone (refl, inr (attribute_error, refl, inl refl))
  | inr (sock, there) ↦
      let (sock', outcome) = sendall-cases payload sock in
      elim outcome [
        | inl (e, grown) ↦ rw (there, e) (refl, inl (refl, sock, sock', refl, refl, grown))
        | inr (e, same) ↦
            rw (there, e)
              (
                refl,
                inr (
                  crypto_error,
                  refl,
                  inr (invalidate-Invalid (record g.channel { sock = some sock' })).1,
                ),
              )
      ]
]

pub seal_keeps :
    (host : Host) (reading : Bytes) (g g' : Gateway) (message : Message)
    → seal host reading g ≡ (ok message, g')
    → (g'.replay ≡ g.replay) × (g'.channel ≡ g.channel)
unfolding seal
seal_keeps host reading g g' message h =
    let moved = ap (λ (r : Result Message × Gateway). r.1) h in
    (ap (λ (k : Gateway). k.replay) (sym moved), ap (λ (k : Gateway). k.channel) (sym moved))
