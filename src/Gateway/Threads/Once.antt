-- ===== src/Gateway/Threads/Once.antt =====
-- However the threads take their turns, no reading of a device is sent twice.
use pqcbridge_legacy_edge_cl.Base.{
  ℕ, ◌+◌, ◌≤◌, ◌≡◌, ◌⊎◌, inl, inr, refl, sym, ap, ◌∙◌, arith, true, none, some, some-injective,
  List, [], ◌∷◌, ◌++◌, append_assoc, append-nil, Bytes, Text, ℤ,
}
use pqcbridge_legacy_edge_cl.Result.{Exn, ok, err}
use pqcbridge_legacy_edge_cl.Json.{Message}
use pqcbridge_legacy_edge_cl.Protocol.Fields.{encode_message}
use pqcbridge_legacy_edge_cl.Protocol.Socket.{Sock}
use pqcbridge_legacy_edge_cl.Config.{Host}
use pqcbridge_legacy_edge_cl.Replay.{Key, check_and_update}
use pqcbridge_legacy_edge_cl.Replay.Once.{is_stamp, AtMostOnce, fewer-AtMostOnce, check-AtMostOnce}
use pqcbridge_legacy_edge_cl.Gateway.State.{CloudChannel}
use pqcbridge_legacy_edge_cl.Gateway.Channel.Sending.{transmit}
use pqcbridge_legacy_edge_cl.Gateway.Threads.{
  Pc, waiting, accepted, sealed, Sending, System, in_flight, stamps, payloads, Step, aside, check,
  build, send, fail, fail_send, renew, Reach, here, next,
}
use pqcbridge_legacy_edge_cl.Gateway.Threads.Wire.{transmit-Wire, seal_keeps}

-- How often a device and a sequence stand in a list.
abbrev pub count : Key × ℤ → List (Key × ℤ) → ℕ
count p [] = 0
count p (q ∷ qs) = is_stamp p (some q) + count p qs

count-append : (p : Key × ℤ) (qs rs : List (Key × ℤ)) → count p (qs ++ rs) ≡ count p qs + count p rs
count-append p [] rs = omega arith
count-append p (q ∷ qs) rs = omega (arith, count-append p qs rs)

pub in_flight-append : (a b : List Pc) → in_flight (a ++ b) ≡ in_flight a ++ in_flight b
in_flight-append [] b = refl
in_flight-append (waiting device_id key ∷ a) b = in_flight-append a b
in_flight-append (accepted device_id key n reading ∷ a) b =
    ap (λ (l : List (Key × ℤ)). (Key.text device_id, n) ∷ l) (in_flight-append a b)
in_flight-append (sealed device_id key n message ∷ a) b =
    ap (λ (l : List (Key × ℤ)). (Key.text device_id, n) ∷ l) (in_flight-append a b)

around :
    (p : Key × ℤ) (before after : List Pc)
    → count p (in_flight (before ++ after)) ≡ count p (in_flight before) + count p (in_flight after)
around p before after =
    ap (count p) (in_flight-append before after)
    ∙ count-append p (in_flight before) (in_flight after)

stamps-append : (a b : List Sending) → stamps (a ++ b) ≡ stamps a ++ stamps b
stamps-append [] b = refl
stamps-append ((stamp, message) ∷ a) b = ap (λ (l : List (Key × ℤ)). stamp ∷ l) (stamps-append a b)

payloads-append : (a b : List Sending) → payloads (a ++ b) ≡ payloads a ++ payloads b
payloads-append [] b = refl
payloads-append ((stamp, message) ∷ a) b =
    ap (λ (l : List Bytes). encode_message message ∷ l) (payloads-append a b)

-- How often a device and a sequence were sent or are about to be sent.
abbrev tally : Key × ℤ → System → ℕ
tally p s = count p (in_flight s.threads) + (count p (stamps s.sent) + count p s.earlier)

-- Each device and sequence was sent or is about to be sent at most once, and then is not above the
-- last accepted one.
abbrev IsOnce : System → Type 0
IsOnce s = AtMostOnce (λ p. tally p s) s.gateway.replay

-- Behind what the establishment has sent, the socket of the channel has sent the messages of `sent`,
-- and nothing else.
abbrev IsLogged : System → Type 0
IsLogged s =
    (sock : Sock) → s.gateway.channel.sock ≡ some sock → sock.sent ≡ s.opening ++ payloads s.sent

abbrev pub SentOnce : System → Type 0
SentOnce s = IsOnce s × IsLogged s

module _ (s t : System) where
  fewer-IsOnce :
      t.gateway.replay ≡ s.gateway.replay
      → ((p : Key × ℤ) → tally p t ≤ tally p s)
      → IsOnce s
      → IsOnce t
  fewer-IsOnce replay fewer once =
      rw replay (fewer-AtMostOnce (λ p. tally p s) (λ p. tally p t) s.gateway.replay fewer once)

  check-IsOnce :
      (before after : List Pc) (device_id : Text) (key : Bytes) (n : ℤ) (reading : Bytes)
      → s.threads ≡ before ++ waiting device_id key ∷ after
      → (check_and_update (Key.text device_id) n s.gateway.replay).0 ≡ true
      → t.gateway.replay ≡ (check_and_update (Key.text device_id) n s.gateway.replay).1
      → t.sent ≡ s.sent
      → t.earlier ≡ s.earlier
      → t.threads ≡ before ++ accepted device_id key n reading ∷ after
      → IsOnce s
      → IsOnce t
  check-IsOnce before after device_id key n reading from fresh replay same old to once = rw replay (
      check-AtMostOnce (λ p. tally p s) (λ p. tally p t) s.gateway.replay (Key.text device_id) n
        fresh
        (λ p.
          rw (from, to, same, old)
            (omega (
              arith,
              around p before (waiting device_id key ∷ after),
              around p before (accepted device_id key n reading ∷ after),
            )))
        once)

  -- One thread goes on or ends, and what it leaves is no more than it had.
  turn-IsOnce :
      (before after after' : List Pc) (more : List Sending)
      → t.gateway.replay ≡ s.gateway.replay
      → s.threads ≡ before ++ after
      → t.threads ≡ before ++ after'
      → t.sent ≡ s.sent ++ more
      → t.earlier ≡ s.earlier
      → ((p : Key × ℤ)
          → count p (in_flight after') + count p (stamps more) ≤ count p (in_flight after))
      → IsOnce s
      → IsOnce t
  turn-IsOnce before after after' more replay from to grown old fewer once =
      fewer-IsOnce replay
        (λ p.
          rw (from, to, grown, old, stamps-append s.sent more)
            (omega (
              arith,
              around p before after,
              around p before after',
              count-append p (stamps s.sent) (stamps more),
              fewer p,
            )))
        once

  -- A socket that is as it was, or gone.
  same-IsLogged :
      (t.gateway.channel.sock ≡ s.gateway.channel.sock) ⊎ (t.gateway.channel.sock ≡ none)
      → t.opening ≡ s.opening
      → t.sent ≡ s.sent
      → IsLogged s
      → IsLogged t
  same-IsLogged (inl sock) opening same logged k there =
      rw (opening, same) (logged k (sym sock ∙ there))
  same-IsLogged (inr gone) opening same logged k there = absurd (ground arith)

  send-IsLogged :
      (stamp : Key × ℤ) (message : Message)
      → transmit (encode_message message) s.gateway ≡ (ok tt, t.gateway)
      → t.opening ≡ s.opening
      → t.sent ≡ s.sent ++ (stamp, message) ∷ []
      → IsLogged s
      → (t.gateway.replay ≡ s.gateway.replay) × IsLogged t
  send-IsLogged stamp message e opening grown logged =
      let (replay, wire) = rw e at (transmit-Wire (encode_message message) s.gateway) in
      elim wire [
        | inr (x, raised, _) ↦ absurd (ground arith)
        | inl (_, sock, sock', there, there', more) ↦ (
          replay,
          λ k h.
              ap (λ (k : Sock). k.sent) (some-injective (sym h ∙ there'))
              ∙ more
              ∙ ap (λ (l : List Bytes). l ++ encode_message message ∷ []) (logged sock there)
              ∙ append_assoc s.opening (payloads s.sent) (encode_message message ∷ [])
              ∙ ap (λ (l : List Bytes). s.opening ++ l)
                  (sym (payloads-append s.sent ((stamp, message) ∷ [])))
              ∙ rw (opening, grown) refl,
        )
      ]

  fail_send-IsLogged :
      (payload : Bytes) (x : Exn)
      → transmit payload s.gateway ≡ (err x, t.gateway)
      → t.opening ≡ s.opening
      → t.sent ≡ s.sent
      → IsLogged s
      → (t.gateway.replay ≡ s.gateway.replay) × IsLogged t
  fail_send-IsLogged payload x e opening same logged =
      let (replay, wire) = rw e at (transmit-Wire payload s.gateway) in
      elim wire [
        | inl (returned, _, _, _, _, _) ↦ absurd (ground arith)
        | inr (_, _, sock) ↦ (replay, same-IsLogged sock opening same logged)
      ]

Step-SentOnce : (host : Host) (s t : System) → Step host s t → SentOnce s → SentOnce t
Step-SentOnce host s t (aside (replay, sock, opening, same, old) flight) (once, logged) = (
  fewer-IsOnce s t replay (λ p. rw (same, flight, old) (omega arith)) once,
  same-IsLogged s t (inl sock) opening same logged,
)
Step-SentOnce host s t
      (check before after device_id key message reading n from opened fresh replay channel opening
        same old to)
      (once, logged) =
    (
      check-IsOnce s t before after device_id key n reading from fresh replay same old to once,
      same-IsLogged s t (inl (ap (λ (c : CloudChannel). c.sock) channel)) opening same logged,
    )
Step-SentOnce host s t
      (build before after device_id key n reading message from built opening same old to)
      (once, logged) =
    let (replay, channel) = seal_keeps host reading s.gateway t.gateway message built in
    (
      turn-IsOnce s t before (accepted device_id key n reading ∷ after)
          (sealed device_id key n message ∷ after) [] replay from to
          (same ∙ sym (append-nil s.sent)) old (λ p. omega arith) once,
      same-IsLogged s t (inl (ap (λ (c : CloudChannel). c.sock) channel)) opening same logged,
    )
Step-SentOnce host s t (send before after device_id key n message from sent opening more old to)
      (once, logged) =
    let (replay, logged') =
      send-IsLogged s t (Key.text device_id, n) message sent opening more logged in
    (
      turn-IsOnce s t before (sealed device_id key n message ∷ after)
          (waiting device_id key ∷ after) (((Key.text device_id, n), message) ∷ []) replay from to
          more old (λ p. omega arith) once,
      logged',
    )
Step-SentOnce host s t
      (fail before after device_id key n reading from (replay, sock, opening, same, old) to)
      (once, logged) =
    (
      turn-IsOnce s t before (accepted device_id key n reading ∷ after) after [] replay from to
          (same ∙ sym (append-nil s.sent)) old (λ p. omega arith) once,
      same-IsLogged s t (inl sock) opening same logged,
    )
Step-SentOnce host s t
      (fail_send before after device_id key n message x from raised opening same old to)
      (once, logged) =
    let (replay, logged') =
      fail_send-IsLogged s t (encode_message message) x raised opening same logged in
    (
      turn-IsOnce s t before (sealed device_id key n message ∷ after) after [] replay from to
          (same ∙ sym (append-nil s.sent)) old (λ p. omega arith) once,
      logged',
    )
Step-SentOnce host s t (renew attempt g g' up sock replay opening fresh old flight) (once, logged) =
    (
      fewer-IsOnce s t replay
          (λ p. rw (fresh, flight, old) (omega (arith, count-append p s.earlier (stamps s.sent))))
          once,
      λ k there. rw (opening, fresh, sym sock ∙ there) (sym (append-nil k.sent)),
    )

-- However the threads of the gateway take their turns between the replay guard, the building and
-- the sending of a message, and whatever sessions are given up and established, this is kept: each
-- device and sequence was sent or is about to be sent at most once, and then is not above the last
-- accepted one; and the socket of the channel has sent, behind what the establishment sent on it,
-- the logged messages of the threads and nothing else.
pub Reach-SentOnce : (host : Host) (s t : System) → Reach host s t → SentOnce s → SentOnce t
Reach-SentOnce host s t here once = once
Reach-SentOnce host s t (next {t = u} run step) once =
    Step-SentOnce host u t step (Reach-SentOnce host s u run once)
