-- ===== src/Gateway/Channel/Outcomes.antt =====
-- gateway/cloud_channel.py: every outcome of `send_reading`.
use pqcbridge_legacy_edge_cl.Base.{
  ◌≡◌, ◌⊎◌, ◌+◌, inl, inr, refl, ap, arith, true, false, none, some, [], ◌∷◌, ◌++◌, Bytes, Text,
  Bool-cases, Option-cases,
}
use pqcbridge_legacy_edge_cl.Result.{Exn, Result, ok, err, crypto_error, Result-cases}
use pqcbridge_legacy_edge_cl.Json.{Message}
use pqcbridge_legacy_edge_cl.Protocol.Fields.{encode_message}
use pqcbridge_legacy_edge_cl.Protocol.Socket.{Sock, sendall-cases}
use pqcbridge_legacy_edge_cl.Config.{Host}
use pqcbridge_legacy_edge_cl.Gateway.Processing.{build_protected_reading}
use pqcbridge_legacy_edge_cl.Gateway.State.{
  failed, CloudChannel, Gateway, is_established, set_channel,
}
use pqcbridge_legacy_edge_cl.Gateway.Channel.Sending.{
  start_reconnect, invalidate, send_on, transmit, seal, send_reading,
}

-- With `auto_reconnect`, one more reconnect thread was started, unless the flag was set before.
abbrev pub Reconnects : CloudChannel → CloudChannel → Type 0
Reconnects c c' =
    ((c.auto_reconnect ≡ false) × (c'.threads ≡ c.threads) × (c'.reconnecting ≡ c.reconnecting))
    ⊎ ((c.auto_reconnect ≡ true)
        × (c.reconnecting ≡ true)
        × (c'.threads ≡ c.threads)
        × (c'.reconnecting ≡ true))
    ⊎ ((c.auto_reconnect ≡ true)
        × (c.reconnecting ≡ false)
        × (c'.threads ≡ c.threads + 1)
        × (c'.reconnecting ≡ true))

-- The session of the first channel cannot be used any more.
abbrev pub Invalid : CloudChannel → CloudChannel → Type 0
Invalid c c' = (c'.state ≡ failed) × (c'.sock ≡ none) × (c'.session_key ≡ none) × Reconnects c c'

pub invalidate-Invalid : (c : CloudChannel) → Invalid c (invalidate c)
unfolding invalidate start_reconnect
invalidate-Invalid c = elim (Bool-cases c.auto_reconnect) [
  | inr off ↦ rw off (refl, refl, refl, inl (refl, refl, refl))
  | inl on ↦ elim (Bool-cases c.reconnecting) [
    | inl under_way ↦ rw (on, under_way) (refl, refl, refl, inr (inl (refl, refl, refl, refl)))
    | inr idle ↦ rw (on, idle) (refl, refl, refl, inr (inr (refl, refl, refl, refl)))
  ]
]

-- The message was built under the session of the channel and is the last one that the socket sent.
abbrev pub Sent : Host → Bytes → Gateway → Gateway → Type 0
Sent host reading g g' =
    (sock sock' : Sock) × (session_id : Text) × (key : Bytes) × (message : Message)
    × (g.channel.sock ≡ some sock)
    × (g.channel.session_id ≡ some session_id)
    × (g.channel.session_key ≡ some key)
    × (build_protected_reading host.library (host.urandom g.drawn) reading key session_id
        ≡ ok message)
    × (sock'.sent ≡ sock.sent ++ encode_message message ∷ [])
    × (g'.channel ≡ record g.channel { sock = some sock' })

-- `transmit` under a socket: it sends, or it gives the session up.
transmit_with :
    (payload : Bytes) (g : Gateway) (sock : Sock)
    → g.channel.sock ≡ some sock
    → ((sock' : Sock) × (transmit payload g
          ≡ (ok tt, set_channel (λ c. record c { sock = some sock' }) g))
        × (sock'.sent ≡ sock.sent ++ payload ∷ []))
      ⊎ (((transmit payload g).0 ≡ err crypto_error)
          × Invalid g.channel (transmit payload g).1.channel)
unfolding transmit send_on
transmit_with payload g sock there =
    let (sock', sent) = sendall-cases payload sock in
    elim sent [
      | inl (e, grown) ↦ inl (sock', rw (there, e), grown)
      | inr (e, same) ↦ inr (
        rw (there, e),
        rw (there, e) (invalidate-Invalid (record g.channel { sock = some sock' })),
      )
    ]

established-parts :
    (c : CloudChannel)
    → is_established c ≡ true
    → (sock : Sock) × (key : Bytes) × (c.sock ≡ some sock) × (c.session_key ≡ some key)
unfolding is_established
established-parts c up = elim (Option-cases c.sock) [
  | inl gone ↦ absurd (ground arith)
  | inr (sock, there) ↦ elim (Option-cases c.session_key) [
    | inl gone ↦ absurd (ground arith)
    | inr (key, known) ↦ (sock, key, there, known)
  ]
]

module _ (host : Host) (reading : Bytes) (g : Gateway) where
  -- The reading was sent, or an exception was raised; the channel is then as it was or given up.
  abbrev pub Outcome : Result (Unit {0}) × Gateway → Type 0
  Outcome (r, g') =
      ((r ≡ ok tt) × Sent host reading g g')
      ⊎ ((e : Exn) × (r ≡ err e)
          × ((g'.channel ≡ g.channel) ⊎ ((e ≡ crypto_error) × Invalid g.channel g'.channel)))

  module _ (up : is_established g.channel ≡ true) (sock : Sock) (key : Bytes)
      (there : g.channel.sock ≡ some sock) (known : g.channel.session_key ≡ some key) where
    nameless-Outcome : g.channel.session_id ≡ none → Outcome (send_reading host reading g)
    unfolding send_reading seal
    nameless-Outcome h = rw (up, h) (inr (_, refl, inl refl))

    module _ (session_id : Text) (named : g.channel.session_id ≡ some session_id) where
      unsealed-Outcome :
          (e : Exn)
          → build_protected_reading host.library (host.urandom g.drawn) reading key session_id
            ≡ err e
          → Outcome (send_reading host reading g)
      unfolding send_reading seal
      unsealed-Outcome e h = rw (up, named, known, h) (inr (_, refl, inl refl))

      seal-ok :
          (message : Message)
          → build_protected_reading host.library (host.urandom g.drawn) reading key session_id
            ≡ ok message
          → seal host reading g ≡ (ok message, record g { drawn = g.drawn + 1 })
      unfolding seal
      seal-ok message h =
          ap (λ (r : Result Message). (r, record g { drawn = g.drawn + 1 })) (rw (named, known) h)

      sealed-Outcome :
          (message : Message)
          → build_protected_reading host.library (host.urandom g.drawn) reading key session_id
            ≡ ok message
          → Outcome (send_reading host reading g)
      unfolding send_reading set_channel
      sealed-Outcome message h =
          elim (transmit_with (encode_message message) (record g { drawn = g.drawn + 1 }) sock
            there) [
              | inl (sock', e, grown) ↦ inl (
                rw (up, seal-ok message h, e),
                (
                  sock,
                  sock',
                  session_id,
                  key,
                  message,
                  there,
                  named,
                  known,
                  h,
                  grown,
                  rw (up, seal-ok message h, e),
                ),
              )
              | inr (raised, gone) ↦ inr (
                crypto_error,
                rw (up, seal-ok message h) raised,
                inr (refl, rw (up, seal-ok message h) gone),
              )
            ]

    named-Outcome :
        (session_id : Text)
        → g.channel.session_id ≡ some session_id
        → Outcome (send_reading host reading g)
    named-Outcome session_id named =
        elim (Result-cases
          (build_protected_reading host.library (host.urandom g.drawn) reading key session_id)) [
            | inl (message, h) ↦ sealed-Outcome session_id named message h
            | inr (e, h) ↦ unsealed-Outcome session_id named e h
          ]

  down-Outcome : is_established g.channel ≡ false → Outcome (send_reading host reading g)
  unfolding send_reading
  down-Outcome down = rw down (inr (_, refl, inl refl))

  -- Either send_reading returns, and a message that was built for the reading under the session of
  -- the channel is the last thing sent; or it raises and leaves the channel as it was; or it
  -- raises CryptoError, the state is failed without a socket and a key, and with auto_reconnect
  -- one more reconnect thread was started and _reconnecting is set, unless _reconnecting was set
  -- before.
  pub send_reading-Outcome : Outcome (send_reading host reading g)
  send_reading-Outcome = elim (Bool-cases (is_established g.channel)) [
    | inr down ↦ down-Outcome down
    | inl up ↦
        let (sock, key, there, known) = established-parts g.channel up in
        elim (Option-cases g.channel.session_id) [
          | inl nameless ↦ nameless-Outcome up sock key there known nameless
          | inr (session_id, named) ↦ named-Outcome up sock key there known session_id named
        ]
  ]
