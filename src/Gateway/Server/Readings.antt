-- ===== src/Gateway/Server/Readings.antt =====
-- What the gateway does with the messages of an admitted device.
use pqcbridge_legacy_edge_cl.Base.{
  suc, ◌<◌, ◌≡◌, ◌≢◌, ◌⊎◌, inl, inr, refl, arith, true, false, Option, none, some, length, Bytes,
  Text, codes, ap, sym, ◌∙◌, ℤ, ◌<ℤ◌, Bool-cases,
}
use pqcbridge_legacy_edge_cl.Result.{Exn, Result, ok, err, Result-cases}
use pqcbridge_legacy_edge_cl.Exec.Loop.{forever_ends}
use pqcbridge_legacy_edge_cl.Exec.Binds.{Outcome-cases, bind_inv}
use pqcbridge_legacy_edge_cl.Json.{Message}
use pqcbridge_legacy_edge_cl.Protocol.Fields.{encode_message}
use pqcbridge_legacy_edge_cl.Protocol.Socket.{Sock}
use pqcbridge_legacy_edge_cl.Protocol.Stream.{Stream, read_message}
use pqcbridge_legacy_edge_cl.Protocol.Stream.Bounds.{read_message-consumes}
use pqcbridge_legacy_edge_cl.Config.{Host}
use pqcbridge_legacy_edge_cl.Metrics
use pqcbridge_legacy_edge_cl.Replay.{Key, last_seen, check_and_update}
use pqcbridge_legacy_edge_cl.Replay.Sequences.{accepted_iff, last_seen-accepted}
use pqcbridge_legacy_edge_cl.Gateway.Processing.{decrypt_legacy_message}
use pqcbridge_legacy_edge_cl.Gateway.State.{Gateway, is_established, count_in}
use pqcbridge_legacy_edge_cl.Gateway.Channel.Sending.{send_reading, seal, transmit, send_on}
use pqcbridge_legacy_edge_cl.Gateway.Server.{
  Link, handle_reading, serve_one, serve_legacy, forward, check_replay,
}

send_on_replay :
    (sock : Option Sock) (payload : Bytes) (g : Gateway)
    → (send_on sock payload g).1.replay ≡ g.replay
unfolding send_on
send_on_replay none payload g = refl
send_on_replay (some sock) payload g = refl

transmit_replay : (payload : Bytes) (g : Gateway) → (transmit payload g).1.replay ≡ g.replay
unfolding transmit
transmit_replay payload g = ground (arith, send_on_replay g.channel.sock payload g)

module _ (host : Host) where
  send_reading_replay :
      (reading : Bytes) (g : Gateway) → (send_reading host reading g).1.replay ≡ g.replay
  unfolding send_reading seal
  send_reading_replay reading g = elim (Bool-cases (is_established g.channel)) [
    | inl up ↦ rw up (
        bind_inv (λ k. k.replay ≡ g.replay) (seal host reading)
          (λ message. transmit (encode_message message)) g refl
          (λ message s e. transmit_replay (encode_message message) s ∙ e))
    | inr down ↦ rw down
  ]

  forward_replay : (reading : Bytes) (g : Gateway) → (forward host reading g).1.replay ≡ g.replay
  unfolding forward
  forward_replay reading g =
      ground (arith, send_reading_replay reading (count_in (codes "messages_processed") g))

  serve_one_stream :
      (device_id : Text) (key : Bytes) (l : Link)
      → (serve_one host device_id key l).1.stream ≡ (read_message host.nesting l.stream).1
  unfolding serve_one
  serve_one_stream device_id key l = ground arith

  serve_one_raises :
      (device_id : Text) (key : Bytes) (l : Link) (x : Exn) (s' : Stream)
      → read_message host.nesting l.stream ≡ (err x, s')
      → (serve_one host device_id key l).0 ≢ ok tt
  unfolding serve_one
  serve_one_raises device_id key l x s' e h = ground arith

  serve_one_consumes :
      (device_id : Text) (key : Bytes) (l : Link) (u : Unit {0}) (l' : Link)
      → serve_one host device_id key l ≡ (ok u, l')
      → length l'.stream.buffer < length l.stream.buffer
  serve_one_consumes device_id key l u l' h =
      elim (Outcome-cases (read_message host.nesting l.stream)) [
        | inl (m, s', e) ↦ omega (
          arith,
          read_message-consumes host.nesting l.stream m (rw e),
          ap (λ (t : Stream). length t.buffer)
              (sym (ap (λ (r : Result (Unit {0}) × Link). r.1.stream) h)
                ∙ serve_one_stream device_id key l),
        )
        | inr (x, s', e) ↦ absurd (serve_one_raises device_id key l x s' e (rw h))
      ]

  -- The loop over the messages of an admitted device ends with the exception of one of its rounds,
  -- and so the fuel is enough for whatever the device sends.
  pub serve_legacy_ends :
      (device_id : Text) (key : Bytes) (l : Link)
      → (t : Link) × (x : Exn) × (t' : Link) × (serve_one host device_id key t ≡ (err x, t'))
        × (serve_legacy host device_id key l ≡ (err x, t'))
  unfolding serve_legacy
  serve_legacy_ends device_id key l =
      forever_ends (serve_one host device_id key) (λ k. length k.stream.buffer)
        (serve_one_consumes device_id key) (suc (length l.stream.buffer)) l (omega arith)

  abbrev pub Untouched : Gateway → Gateway → Type 0
  Untouched g g' = (g'.replay ≡ g.replay) × (g'.channel ≡ g.channel)

  -- The message decrypts under the device's key and id, and its sequence is above the last accepted
  -- one and is the last accepted one afterwards.
  abbrev pub Fresh : Text → Bytes → Message → Gateway → Gateway → Type 0
  Fresh device_id key message g g' =
      (plaintext : Bytes) × (sequence : ℤ) × (decrypt_legacy_message host.library host.nesting
          message key device_id
        ≡ ok (plaintext, sequence))
      × (last_seen g.replay (Key.text device_id) <ℤ sequence)
      × (last_seen g'.replay (Key.text device_id) ≡ sequence)

  pub dropped-Untouched :
      (device_id : Text) (key : Bytes) (message : Message) (g : Gateway) (e : Exn)
      → decrypt_legacy_message host.library host.nesting message key device_id ≡ err e
      → Untouched g (handle_reading host device_id key message g).1
  unfolding handle_reading
  dropped-Untouched device_id key message g e h = rw h (ground arith)

  module _ (device_id : Text) (key : Bytes) (message : Message) (g : Gateway) (plaintext : Bytes)
      (sequence : ℤ)
      (opened : decrypt_legacy_message host.library host.nesting message key device_id
        ≡ ok (plaintext, sequence)) where
    pub stale-Untouched :
        (check_and_update (Key.text device_id) sequence g.replay).0 ≡ false
        → Untouched g (handle_reading host device_id key message g).1
    unfolding handle_reading check_replay check_and_update
    stale-Untouched stale = rw (opened, stale) (ground arith)

    pub fresh_kept :
        (check_and_update (Key.text device_id) sequence g.replay).0 ≡ true
        → (handle_reading host device_id key message g).1.replay
          ≡ (check_and_update (Key.text device_id) sequence g.replay).1
    unfolding handle_reading check_replay
    fresh_kept fresh =
        rw (opened, fresh)
          (forward_replay plaintext (record g {
            metrics = Metrics.inc (codes "messages_received") 1 g.metrics;
            replay = (check_and_update (Key.text device_id) sequence g.replay).1;
          }))

    guarded :
        Untouched g (handle_reading host device_id key message g).1
        ⊎ Fresh device_id key message g (handle_reading host device_id key message g).1
    guarded = elim (Bool-cases (check_and_update (Key.text device_id) sequence g.replay).0) [
      | inl fresh ↦ inr (
        plaintext,
        sequence,
        opened,
        (accepted_iff (Key.text device_id) sequence g.replay).0 fresh,
        rw (fresh_kept fresh) (last_seen-accepted (Key.text device_id) sequence g.replay fresh),
      )
      | inr stale ↦ inl (stale-Untouched stale)
    ]

  -- Whatever message an admitted device sends, either the replay guard and the channel to the
  -- cloud stay as they are, or the message decrypts under the device's key and id, its sequence is
  -- above the last accepted one of the device, and it is the last accepted one afterwards.
  pub handle_reading_guarded :
      (device_id : Text) (key : Bytes) (message : Message) (g : Gateway)
      → Untouched g (handle_reading host device_id key message g).1
        ⊎ Fresh device_id key message g (handle_reading host device_id key message g).1
  handle_reading_guarded device_id key message g =
      elim (Result-cases (decrypt_legacy_message host.library host.nesting message key device_id)) [
        | inl (r, e) ↦ guarded device_id key message g r.0 r.1 e
        | inr (x, e) ↦ inl (dropped-Untouched device_id key message g x e)
      ]

  -- The guard after a message: as it was, or as one call of check_and_update leaves it.
  pub handle_reading_replay :
      (device_id : Text) (key : Bytes) (message : Message) (g : Gateway)
      → ((handle_reading host device_id key message g).1.replay ≡ g.replay)
        ⊎ ((sequence : ℤ) × ((handle_reading host device_id key message g).1.replay
              ≡ (check_and_update (Key.text device_id) sequence g.replay).1))
  handle_reading_replay device_id key message g =
      elim (Result-cases (decrypt_legacy_message host.library host.nesting message key device_id)) [
        | inr (x, e) ↦ inl (dropped-Untouched device_id key message g x e).0
        | inl ((plaintext, n), e) ↦
            elim (Bool-cases (check_and_update (Key.text device_id) n g.replay).0) [
              | inl fresh ↦ inr (n, fresh_kept device_id key message g plaintext n e fresh)
              | inr stale ↦ inl (stale-Untouched device_id key message g plaintext n e stale).0
            ]
      ]
