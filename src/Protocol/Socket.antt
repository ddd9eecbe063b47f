-- ===== src/Protocol/Socket.antt =====
-- The sending side of a TCP socket: what was sent, and which of the next sends fail. Behind the end
-- of the list every send succeeds.
use pqcbridge_legacy_edge_cl.Base.{
  ◌≡◌, refl, ◌⊎◌, inl, inr, Bool, true, false, List, [], ◌∷◌, ◌++◌, Bytes,
}
use pqcbridge_legacy_edge_cl.Result.{ok, err, os_error}
use pqcbridge_legacy_edge_cl.Exec.{Exec}

pub record Sock : Type 0 where
  pub sent : List Bytes
  pub faults : List Bool

send_with : List Bool → Bytes → Exec Sock (Unit {0})
send_with [] payload s = (ok tt, record s { sent = s.sent ++ payload ∷ [] })
send_with (true ∷ later) payload s = (err os_error, record s { faults = later })
send_with (false ∷ later) payload s =
    (ok tt, record { sent = s.sent ++ payload ∷ []; faults = later })

-- sock.sendall(payload)
unfoldable pub sendall : Bytes → Exec Sock (Unit {0})
unfolding send_with
sendall payload s = send_with s.faults payload s

send_with-cases :
    (faults : List Bool) (payload : Bytes) (s : Sock)
    → (s' : Sock) × (((send_with faults payload s ≡ (ok tt, s'))
          × (s'.sent ≡ s.sent ++ payload ∷ []))
        ⊎ ((send_with faults payload s ≡ (err os_error, s')) × (s'.sent ≡ s.sent)))
unfolding send_with
send_with-cases [] payload s = (_, inl (refl, refl))
send_with-cases (true ∷ later) payload s = (_, inr (refl, refl))
send_with-cases (false ∷ later) payload s = (_, inl (refl, refl))

-- The whole payload is sent, or nothing of it is seen by the peer and the call raises OSError.
pub sendall-cases :
    (payload : Bytes) (s : Sock)
    → (s' : Sock) × (((sendall payload s ≡ (ok tt, s')) × (s'.sent ≡ s.sent ++ payload ∷ []))
        ⊎ ((sendall payload s ≡ (err os_error, s')) × (s'.sent ≡ s.sent)))
unfolding sendall
sendall-cases payload s = send_with-cases s.faults payload s
