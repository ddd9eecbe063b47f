-- ===== src/Gateway/Channel/Agreement.antt =====
-- What the gateway has in common with the cloud when a session is established.
use pqcbridge_legacy_edge_cl.Base.{
  ℕ, ◌+◌, ◌≡◌, ◌≢◌, ◌<◌, inl, inr, refl, sym, ap, ◌∙◌, arith, true, false, Option, some, List, [],
  ◌∷◌, ◌++◌, Eq_nat, nat_eq_iff, length, Bytes, AreBytes, Text, text_eq, Eq_text, codes, Bool-cases,
}
use pqcbridge_legacy_edge_cl.Result.{ok, ok-injective, rescue-eq-ok}
use pqcbridge_legacy_edge_cl.Exec.Binds.{Outcome-cases}
use pqcbridge_legacy_edge_cl.Dict.{get}
use pqcbridge_legacy_edge_cl.Encoding.Hex.{hex}
use pqcbridge_legacy_edge_cl.Encoding.Base64.{b64decode}
use pqcbridge_legacy_edge_cl.Json.{Message, str}
use pqcbridge_legacy_edge_cl.Protocol.Fields.{encode_message, b64e, b64d, field_is}
use pqcbridge_legacy_edge_cl.Protocol.Fields.Laws.{b64d-b64e, require_str_iff}
use pqcbridge_legacy_edge_cl.Protocol.Socket.{Sock}
use pqcbridge_legacy_edge_cl.Crypto.Library.{Laws, mlkem768_ciphertext_bytes}
use pqcbridge_legacy_edge_cl.Crypto.Kem.{
  public_key_fingerprint, load_public_key, mlkem_encapsulate, mlkem_decapsulate, derive_session_key,
}
use pqcbridge_legacy_edge_cl.Config.{Host, cloud_public_key_sha256}
use pqcbridge_legacy_edge_cl.Cloud.Processing.{parse_mlkem_encaps}
use pqcbridge_legacy_edge_cl.Gateway.Processing.Pin.{verify_cloud_public_key_iff}
use pqcbridge_legacy_edge_cl.Gateway.State.{
  CloudChannel, Gateway, is_established, connecting, established, set_channel,
}
use pqcbridge_legacy_edge_cl.Gateway.Channel.{
  Attempt, Dialog, set_state, encaps_message, announce, accept_offer, exchange, handshake, finish,
  is_attempt_error, establish_once, try_establish, is_last, stop_or, connect_from,
  connect_and_establish,
}
use pqcbridge_legacy_edge_cl.Gateway.Channel.Handshake.{
  Pinned, accept_offer-Pinned, Exchanged, exchange_lem,
}

empty_field : b64d (str []) ≡ ok []
unfolding b64d b64decode
empty_field = refl

pub b64e_nonempty : (bs : Bytes) → AreBytes bs → 0 < length bs → b64e bs ≢ []
b64e_nonempty bs bytes long empty =
    let none : [] ≡ bs =
      ok-injective
        (sym empty_field ∙ ap (λ (t : Text). b64d (str t)) (sym empty) ∙ b64d-b64e bs bytes) in
    absurd (omega (arith, long, ap length none))

pub parse_mlkem_encaps-encaps_message :
    (gateway_id session_id : Text) (ciphertext : Bytes)
    → session_id ≢ []
    → AreBytes ciphertext
    → length ciphertext ≡ mlkem768_ciphertext_bytes
    → parse_mlkem_encaps (encaps_message gateway_id session_id ciphertext)
      ≡ ok (session_id, ciphertext)
unfolding parse_mlkem_encaps encaps_message field_is get text_eq
parse_mlkem_encaps-encaps_message gateway_id session_id ciphertext named bytes sized =
    let m = encaps_message gateway_id session_id ciphertext in
    let filled = b64e_nonempty ciphertext bytes (omega arith) in
    rw (
      (require_str_iff m (codes "session_id") session_id).1 (refl, named),
      (require_str_iff m (codes "ciphertext") (b64e ciphertext)).1 (refl, filled),
      b64d-b64e ciphertext bytes,
      (nat_eq_iff _ _).1 sized,
    )

module _ (host : Host) (laws : Laws host.library) (private_key : Bytes)
    (only : (raw : Bytes)
      → public_key_fingerprint host.library raw ≡ cloud_public_key_sha256 host
      → raw ≡ host.library.public_key private_key) where
  Pinned_lem :
      (public_key : Bytes)
      → Pinned host public_key
      → public_key ≡ host.library.public_key private_key
  unfolding load_public_key
  Pinned_lem public_key (raw, verified, loaded) =
      let (set, same, ascii) =
        (verify_cloud_public_key_iff host.library raw (cloud_public_key_sha256 host)).0 verified in
      let e = rescue-eq-ok (host.library.from_public_bytes raw) _ loaded in
      ok-injective (sym (rw (only raw same) at e) ∙ laws.public_key_round_trip private_key)

  -- The last message that the gateway sent is one from which the holder of the private key gets the
  -- session id and the session key of the channel.
  abbrev pub Agreed : CloudChannel → Type 0
  Agreed c =
      (sock : Sock) × (before : List Bytes) × (message : Message) × (session_id : Text)
      × (ciphertext secret : Bytes) × (c.sock ≡ some sock)
      × (sock.sent ≡ before ++ encode_message message ∷ [])
      × (parse_mlkem_encaps message ≡ ok (session_id, ciphertext))
      × (mlkem_decapsulate host.library private_key ciphertext ≡ ok secret)
      × (c.session_id ≡ some session_id)
      × (c.session_key ≡ some (derive_session_key host.library secret))

  exchange-Agreed :
      (attempt : Attempt) (public_key : Bytes) (d d' : Dialog)
      → Pinned host public_key
      → Exchanged host attempt public_key d d'
      → Agreed (record d'.gateway.channel { sock = some d'.sock })
  unfolding mlkem_decapsulate mlkem_encapsulate
  exchange-Agreed attempt public_key d d' pinned (named, sent, id, key) =
      let owner = Pinned_lem public_key pinned in
      let lib = host.library in
      let draw = attempt.kem_draw in
      let own = lib.public_key private_key in
      (
        d'.sock,
        d.sock.sent,
        encaps_message d.gateway.channel.gateway_id (hex attempt.session_draw)
            (lib.encapsulate public_key draw).1,
        hex attempt.session_draw,
        (lib.encapsulate public_key draw).1,
        (lib.encapsulate public_key draw).0,
        refl,
        sent,
        parse_mlkem_encaps-encaps_message d.gateway.channel.gateway_id (hex attempt.session_draw)
            (lib.encapsulate public_key draw).1 named (laws.ciphertext_bytes public_key draw)
            (laws.ciphertext_length public_key draw),
        rw (owner, laws.decapsulate-encapsulate private_key draw),
        id,
        key,
      )

  handshake-Agreed :
      (attempt : Attempt) (d : Dialog)
      → (handshake host attempt d).0 ≡ ok tt
      → Agreed (record (handshake host attempt d).1.gateway.channel {
        sock = some (handshake host attempt d).1.sock;
      })
  unfolding handshake
  handshake-Agreed attempt d h = elim (Outcome-cases (announce host d)) [
    | inr (x, d₁, e) ↦ absurd (cc (rw e at h))
    | inl (u, d₁, e) ↦ elim (Outcome-cases (accept_offer host d₁)) [
      | inr (x, d₂, k) ↦ absurd (cc (rw (e, k) at h))
      | inl (public_key, d₂, k) ↦
          rw (e, k)
            (exchange-Agreed attempt public_key d₂ (exchange host attempt public_key d₂).1
              (accept_offer-Pinned host d₁ public_key (rw k))
              (exchange_lem host attempt public_key d₂ (rw (e, k) at h)))
    ]
  ]

  finish-Agreed :
      (attempt : Attempt) (d : Dialog)
      → (finish host (handshake host attempt d)).0 ≡ ok tt
      → Agreed (finish host (handshake host attempt d)).1.channel
  unfolding finish
  finish-Agreed attempt d h = elim (Outcome-cases (handshake host attempt d)) [
    | inr (x, d₁, e) ↦ absurd (cc (rw e at h))
    | inl (u, d₁, e) ↦ rw (e, finish) (rw e at (handshake-Agreed attempt d (rw e)))
  ]

  establish_once-Agreed :
      (attempt : Attempt) (g : Gateway)
      → (establish_once host attempt g).0 ≡ ok tt
      → Agreed (establish_once host attempt g).1.channel
  unfolding establish_once handshake exchange
  establish_once-Agreed attempt g h = elim (Bool-cases attempt.reachable) [
    | inr unreachable ↦ absurd (cc (rw unreachable at h))
    | inl reachable ↦ rw reachable (
        finish-Agreed attempt
          (record {
            gateway = g;
            sock = record { sent = []; faults = attempt.faults };
            stream = attempt.incoming;
          })
          (rw reachable at h))
  ]

  -- The session stands, and the cloud can derive its key.
  abbrev pub Stands : CloudChannel → Type 0
  Stands c = (is_established c ≡ true) × Agreed c

  Agreed-Stands : (c : CloudChannel) → Agreed c → Stands (record c { state = established })
  unfolding is_established
  Agreed-Stands c agreed =
      let (
        sock, before, message, session_id, ciphertext, secret, there, sent, parsed, opened, id, key,
      ) =
        agreed in
      (rw (there, key), agreed)

  try_establish-Stands :
      (attempt : Attempt) (g : Gateway)
      → (try_establish host attempt g).0 ≡ ok true
      → Stands (try_establish host attempt g).1.channel
  unfolding try_establish set_state set_channel
  try_establish-Stands attempt g h =
      let g₁ = record g { channel = record g.channel { state = connecting } } in
      elim (Outcome-cases (establish_once host attempt g₁)) [
        | inl (u, g₂, e) ↦
            rw e (Agreed-Stands g₂.channel (rw e at (establish_once-Agreed attempt g₁ (rw e))))
        | inr (x, g₂, e) ↦ elim (Bool-cases (is_attempt_error host x)) [
          | inl known ↦ absurd (cc (rw (e, known) at h))
          | inr other ↦ absurd (cc (rw (e, other) at h))
        ]
      ]

  connect_from-Stands :
      (n : ℕ) (limit : Option ℕ) (attempts : List Attempt) (g : Gateway)
      → (connect_from host n limit attempts g).0 ≡ ok true
      → Stands (connect_from host n limit attempts g).1.channel
  unfolding connect_from
  connect_from-Stands n limit [] g h = cc
  connect_from-Stands n limit (a ∷ later) g h = elim (Outcome-cases (try_establish host a g)) [
    | inr (x, g₁, e) ↦ absurd (cc (rw e at h))
    | inl (true, g₁, e) ↦ rw e (rw e at (try_establish-Stands a g (rw e)))
    | inl (false, g₁, e) ↦ elim (Bool-cases (is_last host limit (n + 1))) [
      | inl last ↦ absurd (cc (rw (e, last, stop_or) at h))
      | inr more ↦
          rw (e, more, stop_or)
            (connect_from-Stands (n + 1) limit later g₁ (rw (e, more, stop_or) at h))
    ]
  ]

  -- Under the laws of the library, and if only the public key of the cloud has the configured
  -- fingerprint: where connect_and_establish returns True, the channel is established, and the
  -- last message that the gateway sent is one from which the holder of the cloud's private key
  -- parses and decapsulates the session id and the shared secret of the channel's session key.
  pub connect_and_establish-Stands :
      (limit : Option ℕ) (attempts : List Attempt) (g : Gateway)
      → (connect_and_establish host limit attempts g).0 ≡ ok true
      → Stands (connect_and_establish host limit attempts g).1.channel
  unfolding connect_and_establish
  connect_and_establish-Stands limit attempts g h = connect_from-Stands 0 limit attempts g h
