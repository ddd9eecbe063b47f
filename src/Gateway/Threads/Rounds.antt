-- ===== src/Gateway/Threads/Rounds.antt =====
-- The steps of the threads are those of `handle_reading`: a message that a thread handles without
-- another thread between is a run of them.
use pqcbridge_legacy_edge_cl.Base.{
  ◌≡◌, ◌⊎◌, inl, inr, refl, sym, ap, ◌∙◌, true, List, [], ◌∷◌, ◌++◌, Bytes, Text, ℤ, codes,
  Bool-cases,
}
use pqcbridge_legacy_edge_cl.Result.{Exn, Result, ok, err, crypto_error, Result-cases}
use pqcbridge_legacy_edge_cl.Exec.Binds.{Outcome-cases}
use pqcbridge_legacy_edge_cl.Json.{Message}
use pqcbridge_legacy_edge_cl.Protocol.Fields.{encode_message}
use pqcbridge_legacy_edge_cl.Config.{Host}
use pqcbridge_legacy_edge_cl.Metrics
use pqcbridge_legacy_edge_cl.Replay.{Key, check_and_update}
use pqcbridge_legacy_edge_cl.Gateway.Processing.{decrypt_legacy_message}
use pqcbridge_legacy_edge_cl.Gateway.State.{CloudChannel, Gateway, is_established, count_in}
use pqcbridge_legacy_edge_cl.Gateway.Channel.{observe_time}
use pqcbridge_legacy_edge_cl.Gateway.Channel.Sending.{seal, transmit, send_reading}
use pqcbridge_legacy_edge_cl.Gateway.Server.{handle_reading, forward, check_replay}
use pqcbridge_legacy_edge_cl.Gateway.Server.Readings.{
  Untouched, dropped-Untouched, stale-Untouched, fresh_kept,
}
use pqcbridge_legacy_edge_cl.Gateway.Threads.{
  Pc, waiting, accepted, sealed, System, in_flight, aside, check, build, send, fail, fail_send,
  Reach, here, next,
}
use pqcbridge_legacy_edge_cl.Gateway.Threads.Wire.{transmit-Wire, seal_keeps}
use pqcbridge_legacy_edge_cl.Gateway.Threads.Once.{in_flight-append}

module _ (host : Host) (reading : Bytes) (g : Gateway) where
  -- The two parts of `send_reading`, or where it stops.
  abbrev Parts : Result (Unit {0}) × Gateway → Type 0
  Parts out =
      ((e : Exn) × (out.0 ≡ err e) × (out.1.channel ≡ g.channel))
      ⊎ ((message : Message) × (sealing : Gateway) × (seal host reading g ≡ (ok message, sealing))
          × (transmit (encode_message message) sealing ≡ out))

  seal_stops :
      (x : Exn) (stopped : Gateway)
      → seal host reading g ≡ (err x, stopped)
      → stopped.channel ≡ g.channel
  unfolding seal
  seal_stops x stopped e = ap (λ (r : Result Message × Gateway). r.1.channel) (sym e)

  send_reading-Parts : Parts (send_reading host reading g)
  unfolding send_reading
  send_reading-Parts = elim (Bool-cases (is_established g.channel)) [
    | inr down ↦ rw down (inl (crypto_error, refl, refl))
    | inl up ↦ elim (Outcome-cases (seal host reading g)) [
      | inl (message, sealing, e) ↦ rw (up, e) (inr (message, sealing, refl, refl))
      | inr (x, stopped, e) ↦ rw (up, e) (inl (x, refl, seal_stops x stopped e))
    ]
  ]

module _ (host : Host) (device_id : Text) (key : Bytes) (message : Message) (before after : List Pc)
    (s : System) (from : s.threads ≡ before ++ waiting device_id key ∷ after) where
  abbrev result : Result (Unit {0})
  result = (handle_reading host device_id key message s.gateway).0

  abbrev handled : Gateway
  handled = (handle_reading host device_id key message s.gateway).1

  -- Where the call returns, the thread waits again, and nothing was sent or the one message for a
  -- reading of the device; where it raises, the thread has ended and nothing was sent.
  abbrev Ends : System → Type 0
  Ends t =
      (((result ≡ ok tt)
          × (t.threads ≡ before ++ waiting device_id key ∷ after)
          × ((t.sent ≡ s.sent)
              ⊎ ((n : ℤ) × (protected : Message) × (t.sent
                    ≡ s.sent ++ ((Key.text device_id, n), protected) ∷ []))))
        ⊎ ((e : Exn) × (result ≡ err e) × (t.threads ≡ before ++ after) × (t.sent ≡ s.sent)))
      × (t.opening ≡ s.opening)
      × (t.earlier ≡ s.earlier)

  -- What the thread has done is a run of the steps to such an end.
  abbrev pub IsRun : Type 0
  IsRun = (t : System) × Reach host s t × (t.gateway ≡ handled) × Ends t

  idle : in_flight (before ++ after) ≡ in_flight s.threads
  idle =
      in_flight-append before after
      ∙ sym (in_flight-append before (waiting device_id key ∷ after))
      ∙ ap in_flight (sym from)

  untouched-IsRun : Untouched host s.gateway handled → IsRun
  untouched-IsRun (replay, channel) =
      let quiet = ap (λ (c : CloudChannel). c.sock) channel in
      elim (Result-cases result) [
        | inl (_, returned) ↦ (
          record s { gateway = handled },
          next here (aside (replay, quiet, refl, refl, refl) refl),
          refl,
          (inl (returned, from, inl refl), refl, refl),
        )
        | inr (e, raised) ↦ (
          record s { gateway = handled; threads = before ++ after },
          next here (aside (replay, quiet, refl, refl, refl) idle),
          refl,
          (inr (e, raised, refl, refl), refl, refl),
        )
      ]

  module _ (reading : Bytes) (n : ℤ)
      (opened : decrypt_legacy_message host.library host.nesting message key device_id
        ≡ ok (reading, n))
      (fresh : (check_and_update (Key.text device_id) n s.gateway.replay).0 ≡ true) where
    -- The gateway when the thread begins to send, and the system as the other threads see it.
    guarded : Gateway
    guarded = count_in (codes "messages_processed") (record s.gateway {
      metrics = Metrics.inc (codes "messages_received") 1 s.gateway.metrics;
      replay = (check_and_update (Key.text device_id) n s.gateway.replay).1;
    })

    abbrev sends : Result (Unit {0}) × Gateway
    sends = send_reading host reading guarded

    checked : System
    checked = record s {
      gateway = guarded;
      threads = before ++ accepted device_id key n reading ∷ after;
    }

    checked-Reach : Reach host s checked
    unfolding guarded checked count_in
    checked-Reach = next here (
        check before after device_id key message reading n from opened fresh refl refl refl refl
          refl refl)

    forward_sends :
        (g : Gateway)
        → let out = send_reading host reading (count_in (codes "messages_processed") g) in
          ((forward host reading g).0 ≡ out.0)
          × ((forward host reading g).1.channel ≡ out.1.channel)
    unfolding forward observe_time
    forward_sends g =
        elim (Outcome-cases (send_reading host reading (count_in (codes "messages_processed") g))) [
          | inl (_, g', e) ↦ rw e (refl, refl)
          | inr (x, g', e) ↦ rw e (refl, refl)
        ]

    handled_sends :
        ((handle_reading host device_id key message s.gateway).0 ≡ sends.0)
        × ((handle_reading host device_id key message s.gateway).1.channel ≡ sends.1.channel)
    unfolding handle_reading check_replay guarded
    handled_sends =
        rw (opened, fresh)
          (forward_sends (record s.gateway {
            metrics = Metrics.inc (codes "messages_received") 1 s.gateway.metrics;
            replay = (check_and_update (Key.text device_id) n s.gateway.replay).1;
          }))

    handled_replay : handled.replay ≡ guarded.replay
    unfolding guarded count_in
    handled_replay = fresh_kept host device_id key message s.gateway reading n opened fresh

    stopped-IsRun : (e : Exn) → sends.0 ≡ err e → sends.1.channel ≡ guarded.channel → IsRun
    unfolding checked
    stopped-IsRun e raised same =
        let (returned, channel) = handled_sends in
        (
          record s { gateway = handled; threads = before ++ after },
          next checked-Reach (
              fail before after device_id key n reading refl
                (
                  handled_replay,
                  ap (λ (c : CloudChannel). c.sock) (channel ∙ same),
                  refl,
                  refl,
                  refl,
                )
                refl),
          refl,
          (inr (e, returned ∙ raised, refl, refl), refl, refl),
        )

    module _ (protected : Message) (sealing : Gateway)
        (built : seal host reading guarded ≡ (ok protected, sealing)) where
      built-Reach : Reach host s (record s {
        gateway = sealing;
        threads = before ++ sealed device_id key n protected ∷ after;
      })
      unfolding checked
      built-Reach =
          next checked-Reach
            (build before after device_id key n reading protected refl built refl refl refl refl)

      module _ (g' : Gateway) (same : sends.1 ≡ g') (replay : g'.replay ≡ sealing.replay) where
        -- Behind the sending only the metrics change.
        quiet : (handled.replay ≡ g'.replay) × (handled.channel.sock ≡ g'.channel.sock)
        quiet = (
          handled_replay
              ∙ sym (seal_keeps host reading guarded sealing protected built).0
              ∙ sym replay,
          ap (λ (c : CloudChannel). c.sock) (handled_sends.1)
              ∙ ap (λ (g : Gateway). g.channel.sock) same,
        )

        sent-IsRun :
            transmit (encode_message protected) sealing ≡ (ok tt, g') → sends.0 ≡ ok tt → IsRun
        sent-IsRun e returned =
            let there = record s {
              gateway = g';
              sent = s.sent ++ ((Key.text device_id, n), protected) ∷ [];
              threads = before ++ waiting device_id key ∷ after;
            } in
            (
              record there { gateway = handled },
              next {t = there}
                  (next built-Reach
                    (send before after device_id key n protected refl e refl refl refl refl))
                  (aside (quiet.0, quiet.1, refl, refl, refl) refl),
              refl,
              (inl (handled_sends.0 ∙ returned, refl, inr (n, protected, refl)), refl, refl),
            )

        unsent-IsRun :
            (x : Exn)
            → transmit (encode_message protected) sealing ≡ (err x, g')
            → sends.0 ≡ err x
            → IsRun
        unsent-IsRun x e raised =
            let there = record s { gateway = g'; threads = before ++ after } in
            (
              record there { gateway = handled },
              next {t = there}
                  (next built-Reach
                    (fail_send before after device_id key n protected x refl e refl refl refl refl))
                  (aside (quiet.0, quiet.1, refl, refl, refl) refl),
              refl,
              (inr (x, handled_sends.0 ∙ raised, refl, refl), refl, refl),
            )

      built-IsRun : transmit (encode_message protected) sealing ≡ sends → IsRun
      built-IsRun is =
          let replay = (transmit-Wire (encode_message protected) sealing).0 in
          elim (Outcome-cases sends) [
            | inl (_, g', e) ↦
                sent-IsRun g' (ap (λ (r : Result (Unit {0}) × Gateway). r.1) e)
                  (rw (is ∙ e) at replay) (is ∙ e) (ap (λ (r : Result (Unit {0}) × Gateway). r.0) e)
            | inr (x, g', e) ↦
                unsent-IsRun g' (ap (λ (r : Result (Unit {0}) × Gateway). r.1) e)
                  (rw (is ∙ e) at replay) x (is ∙ e)
                  (ap (λ (r : Result (Unit {0}) × Gateway). r.0) e)
          ]

    fresh-IsRun : IsRun
    fresh-IsRun = elim (send_reading-Parts host reading guarded) [
      | inl (e, raised, same) ↦ stopped-IsRun e raised same
      | inr (protected, sealing, built, is) ↦ built-IsRun protected sealing built is
    ]

  -- What the gateway does with one message of a device whose thread waits is a run of the steps of
  -- the threads: where it returns, the thread waits again and has sent nothing, or one message for
  -- one sequence of the device; where it raises, the thread has ended and has sent nothing; in
  -- both cases the gateway at the end of the run is the one that handle_reading leaves.
  pub handle_reading-IsRun : IsRun
  handle_reading-IsRun =
      elim (Result-cases (decrypt_legacy_message host.library host.nesting message key device_id)) [
        | inr (x, e) ↦ untouched-IsRun (dropped-Untouched host device_id key message s.gateway x e)
        | inl ((reading, n), e) ↦
            elim (Bool-cases (check_and_update (Key.text device_id) n s.gateway.replay).0) [
              | inl fresh ↦ fresh-IsRun reading n e fresh
              | inr stale ↦
                  untouched-IsRun
                    (stale-Untouched host device_id key message s.gateway reading n e stale)
            ]
      ]
