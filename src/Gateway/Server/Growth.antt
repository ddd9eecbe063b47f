-- ===== src/Gateway/Server/Growth.antt =====
-- The last accepted sequences never fall, whatever the devices send.
use pqcbridge_legacy_edge_cl.Base.{
  suc, ◌≡◌, inl, inr, arith, Option, none, some, length, Bytes, Text, codes, ◌≤ℤ◌, Bool-cases,
}
use pqcbridge_legacy_edge_cl.Result.{Exn, Result}
use pqcbridge_legacy_edge_cl.Exec.{lift}
use pqcbridge_legacy_edge_cl.Exec.Binds.{Outcome-cases, bind_inv}
use pqcbridge_legacy_edge_cl.Exec.Loop.{forever_inv}
use pqcbridge_legacy_edge_cl.Json.{Message}
use pqcbridge_legacy_edge_cl.Protocol.Fields.{require_str}
use pqcbridge_legacy_edge_cl.Protocol.Stream.{read_message}
use pqcbridge_legacy_edge_cl.Config.{Host, device_key}
use pqcbridge_legacy_edge_cl.Replay.{Key, ReplayGuard, last_seen}
use pqcbridge_legacy_edge_cl.Replay.Sequences.{last_seen_grows}
use pqcbridge_legacy_edge_cl.Gateway.Processing.{Decision, parse_hello, evaluate_hello}
use pqcbridge_legacy_edge_cl.Gateway.State.{Gateway, count_in}
use pqcbridge_legacy_edge_cl.Gateway.Server.{
  Link, on_gateway, on_stream, count, activate_fallback, handle_reading, serve_one, serve_legacy,
  found_key, serve_decided, admit_known, admit_or_serve, admit, admits, close_on, handle,
}
use pqcbridge_legacy_edge_cl.Gateway.Server.Readings.{handle_reading_replay}

module _ (start : ReplayGuard) where
  -- The guard has forgotten nothing since the start.
  abbrev pub NoLess : Gateway → Type 0
  NoLess g = (k : Key) → last_seen start k ≤ℤ last_seen g.replay k

  abbrev LinkNoLess : Link → Type 0
  LinkNoLess l = NoLess l.gateway

  same-NoLess : (g g' : Gateway) → g'.replay ≡ g.replay → NoLess g → NoLess g'
  same-NoLess g g' same h k = rw same (h k)

  module _ (host : Host) where
    handle_reading-NoLess :
        (device_id : Text) (key : Bytes) (message : Message) (g : Gateway)
        → NoLess g
        → NoLess (handle_reading host device_id key message g).1
    handle_reading-NoLess device_id key message g h =
        elim (handle_reading_replay host device_id key message g) [
          | inl same ↦ same-NoLess g (handle_reading host device_id key message g).1 same h
          | inr (n, updated) ↦ λ k.
              rw updated (omega (arith, h k, last_seen_grows (Key.text device_id) n g.replay k))
        ]

    serve_one-NoLess :
        (device_id : Text) (key : Bytes) (l : Link)
        → LinkNoLess l
        → LinkNoLess (serve_one host device_id key l).1
    unfolding serve_one
    serve_one-NoLess device_id key l h =
        bind_inv LinkNoLess (on_stream (read_message host.nesting))
          (λ message. on_gateway (handle_reading host device_id key message)) l h
          (λ message l' h'. handle_reading-NoLess device_id key message l'.gateway h')

    serve_legacy-NoLess :
        (device_id : Text) (key : Bytes) (l : Link)
        → LinkNoLess l
        → LinkNoLess (serve_legacy host device_id key l).1
    unfolding serve_legacy
    serve_legacy-NoLess device_id key l h =
        forever_inv (serve_one host device_id key) LinkNoLess (serve_one-NoLess device_id key)
          (suc (length l.stream.buffer)) l h

    activated : (device_id : Text) (g : Gateway) → (activate_fallback device_id g).replay ≡ g.replay
    unfolding activate_fallback
    activated device_id g = ground arith

    serve_decided-NoLess :
        (device_id : Text) (key : Bytes) (decision : Decision) (l : Link)
        → LinkNoLess l
        → LinkNoLess (serve_decided host device_id key decision l).1
    unfolding serve_decided
    serve_decided-NoLess device_id key decision l h = elim (Bool-cases (admits host decision)) [
      | inl admitted ↦
          let after : Link = record l { gateway = activate_fallback device_id l.gateway } in
          rw (admitted, serve_decided)
            (serve_legacy-NoLess device_id key after
              (same-NoLess l.gateway after.gateway (activated device_id l.gateway) h))
      | inr rejected ↦ rw (rejected, serve_decided) h
    ]

    admit_known-NoLess :
        (device_id : Text) (hello : Message) (known : Option Bytes) (l : Link)
        → LinkNoLess l
        → LinkNoLess (admit_known host device_id hello known l).1
    unfolding admit_known
    admit_known-NoLess device_id hello none l h = h
    admit_known-NoLess device_id hello (some key) l h =
        bind_inv LinkNoLess (lift (evaluate_hello host.library hello (some key)))
          (λ decision. serve_decided host device_id key decision) l h
          (λ decision l' h'. serve_decided-NoLess device_id key decision l' h')

    found_key_replay :
        (r : Result Bytes) (l : Link)
        → (on_gateway (found_key host r) l).1.gateway.replay ≡ l.gateway.replay
    unfolding on_gateway
    found_key_replay r l = ground arith

    admit-NoLess : (l : Link) → LinkNoLess l → LinkNoLess (admit host l).1
    unfolding admit admit_or_serve
    admit-NoLess l h =
        bind_inv LinkNoLess (on_stream (read_message host.nesting)) _ l h λ message l₁ h₁.
          bind_inv LinkNoLess (lift (parse_hello message)) _ l₁ h₁ λ hello l₂ h₂.
            bind_inv LinkNoLess (lift (require_str hello (codes "device_id"))) _ l₂ h₂
              λ device_id l₃ h₃.
                bind_inv LinkNoLess (on_gateway (found_key host (device_key host device_id)))
                  (λ known. admit_known host device_id hello known) l₃
                  (same-NoLess l₃.gateway
                    (on_gateway (found_key host (device_key host device_id)) l₃).1.gateway
                    (found_key_replay (device_key host device_id) l₃) h₃)
                  (λ known l₄ h₄. admit_known-NoLess device_id hello known l₄ h₄)

    close_on_replay : (e : Exn) (l : Link) → (close_on host e l).1.gateway.replay ≡ l.gateway.replay
    unfolding on_gateway count count_in
    close_on_replay e l = ground arith

    pub handle-NoLess : (l : Link) → LinkNoLess l → LinkNoLess (handle host l).1
    unfolding handle
    handle-NoLess l h = elim (Outcome-cases (admit host l)) [
      | inl (u, l₁, e) ↦ rw e (rw e at (admit-NoLess l h))
      | inr (x, l₁, e) ↦ rw e (
          same-NoLess l₁.gateway (close_on host x l₁).1.gateway (close_on_replay x l₁)
            (rw e at (admit-NoLess l h)))
    ]
