-- ===== src/Gateway/Channel/Handshake.antt =====
-- What the steps of the handshake have done where they return.
use pqcbridge_legacy_edge_cl.Base.{
  ◌≡◌, ◌≢◌, inl, inr, ap, some, [], ◌∷◌, ◌++◌, Bytes, Text, text_eq, text_eq_iff, Eq_text, codes,
}
use mathlib.Core.Path.{subst}
use pqcbridge_legacy_edge_cl.Result.{
  Result, ok, >>=-eq-ok, check, check-eq-ok, protocol_error, Result-cases,
}
use pqcbridge_legacy_edge_cl.Exec.{lift}
use pqcbridge_legacy_edge_cl.Exec.Binds.{Outcome-cases, bind-eq-ok}
use pqcbridge_legacy_edge_cl.Encoding.Hex.{hex}
use pqcbridge_legacy_edge_cl.Json.{Message}
use pqcbridge_legacy_edge_cl.Protocol.Fields.Laws.{require_str_iff}
use pqcbridge_legacy_edge_cl.Protocol.Fields.{
  encode_message, require_str, field_is, msg_mlkem_established,
}
use pqcbridge_legacy_edge_cl.Protocol.Stream.{read_message}
use pqcbridge_legacy_edge_cl.Protocol.Socket.{sendall-cases}
use pqcbridge_legacy_edge_cl.Crypto.Kem.{load_public_key, mlkem_encapsulate, derive_session_key}
use pqcbridge_legacy_edge_cl.Config.{Host, cloud_public_key_sha256}
use pqcbridge_legacy_edge_cl.Gateway.Processing.{
  parse_mlkem_pubkey_reply, parse_mlkem_established_reply, verify_cloud_public_key,
}
use pqcbridge_legacy_edge_cl.Gateway.Channel.{
  Attempt, Dialog, on_stream, keep_session, encaps_message, check_offer, accept_offer, exchange,
}

outcome : {A S : Type 0} {r r' : Result A × S} → r ≡ r' → r.0 ≡ r'.0
outcome h = ap (λ p. p.0) h

established_nonempty :
    (reply : Message) (session_id : Text) {u : Unit {0}}
    → parse_mlkem_established_reply reply session_id ≡ ok u
    → session_id ≢ []
unfolding parse_mlkem_established_reply
established_nonempty reply session_id {u} h =
    let (u₁, typed, h₁) =
      >>=-eq-ok (check (field_is reply (codes "type") msg_mlkem_established) protocol_error) _ h in
    let (named, there, h₂) = >>=-eq-ok (require_str reply (codes "session_id")) _ h₁ in
    let same =
      (text_eq_iff named session_id).0 (check-eq-ok (text_eq named session_id) protocol_error h₂) in
    subst (λ (t : Text). t ≢ []) same ((require_str_iff reply (codes "session_id") named).0 there).1

module _ (host : Host) where
  -- A key that was accepted: its raw form carries the pinned fingerprint.
  abbrev pub Pinned : Bytes → Type 0
  Pinned public_key =
      (raw : Bytes) × (verify_cloud_public_key host.library raw (cloud_public_key_sha256 host)
        ≡ ok tt)
      × (load_public_key host.library raw ≡ ok public_key)

  check_offer-Pinned :
      (offer : Message) (public_key : Bytes)
      → check_offer host offer ≡ ok public_key
      → Pinned public_key
  unfolding check_offer
  check_offer-Pinned offer public_key h =
      let (raw, parsed, h₁) = >>=-eq-ok (parse_mlkem_pubkey_reply offer) _ h in
      let (u, verified, h₂) =
        >>=-eq-ok (verify_cloud_public_key host.library raw (cloud_public_key_sha256 host)) _ h₁ in
      (raw, verified, h₂)

  pub accept_offer-Pinned :
      (d : Dialog) (public_key : Bytes)
      → (accept_offer host d).0 ≡ ok public_key
      → Pinned public_key
  unfolding accept_offer
  accept_offer-Pinned d public_key h =
      let (offer, d₁, e, h₁) =
        bind-eq-ok (on_stream (read_message host.nesting)) (λ m. lift (check_offer host m)) d h in
      check_offer-Pinned offer public_key h₁

  module _ (attempt : Attempt) (public_key : Bytes) (d : Dialog) where
    abbrev pub message : Message
    message =
        encaps_message d.gateway.channel.gateway_id (hex attempt.session_draw)
          (mlkem_encapsulate host.library public_key attempt.kem_draw).1

    -- Where the exchange returns, its message was sent and its session is kept.
    abbrev pub Exchanged : Dialog → Type 0
    Exchanged d' =
        (hex attempt.session_draw ≢ [])
        × (d'.sock.sent ≡ d.sock.sent ++ encode_message message ∷ [])
        × (d'.gateway.channel.session_id ≡ some (hex attempt.session_draw))
        × (d'.gateway.channel.session_key
            ≡ some (
                derive_session_key host.library
                  (mlkem_encapsulate host.library public_key attempt.kem_draw).0))

    pub exchange_lem :
        (exchange host attempt public_key d).0 ≡ ok tt
        → Exchanged (exchange host attempt public_key d).1
    unfolding exchange keep_session
    exchange_lem h =
        let (sock, outcome) = sendall-cases (encode_message message) d.sock in
        elim outcome [
          | inr (e, same) ↦ absurd (cc (rw e at h))
          | inl (e, grown) ↦ elim (Outcome-cases (read_message host.nesting d.stream)) [
            | inr (x, stream, r) ↦ absurd (cc (rw (e, r) at h))
            | inl (reply, stream, r) ↦
                elim (Result-cases
                  (parse_mlkem_established_reply reply (hex attempt.session_draw))) [
                    | inr (x, p) ↦ absurd (cc (rw (e, r, p) at h))
                    | inl (u, p) ↦ (
                      established_nonempty reply (hex attempt.session_draw) p,
                      rw (e, r, p) grown,
                      rw (e, r, p),
                      rw (e, r, p),
                    )
                  ]
          ]
        ]
