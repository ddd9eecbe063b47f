-- ===== src/Cloud/Server/Ordering.antt =====
-- The order of the readings in the cloud's store, over the whole connection of a gateway.
use pqcbridge_legacy_edge_cl.Base.{
  suc, ◌≡◌, inl, inr, arith, Option, none, some, List, [], ◌∷◌, ◌++◌, All, All-append, length,
  Bytes, Text, ℤ, ◌≤ℤ◌, ◌<ℤ◌,
}
use pqcbridge_legacy_edge_cl.Result.{Exn, Result, ok, err}
use pqcbridge_legacy_edge_cl.Protocol.Stream.{read_message}
use pqcbridge_legacy_edge_cl.Exec.Binds.{bind_inv}
use pqcbridge_legacy_edge_cl.Exec.Loop.{forever_inv}
use pqcbridge_legacy_edge_cl.Json.{Message}
use pqcbridge_legacy_edge_cl.Config.{Host}
use pqcbridge_legacy_edge_cl.Replay.{Key, key_eq_iff, ReplayGuard, last_seen}
use pqcbridge_legacy_edge_cl.Replay.Sequences.{Later, AscendByDevice, All-imp, last_seen_grows}
use pqcbridge_legacy_edge_cl.Cloud.Store
use pqcbridge_legacy_edge_cl.Cloud.Store.{ReadingStore, keep_last}
use pqcbridge_legacy_edge_cl.Cloud.Store.Stamps.{
  stamps, stamp-eq-some, drop-AscendByDevice, stamps-drop-All, stamps-append, append-AscendByDevice,
}
use pqcbridge_legacy_edge_cl.Cloud.Server.{
  Cloud, Link, on_cloud, on_stream, handle_reading, receive_one, receive_readings, authenticate,
  agree, establish_session, open_session, close_on, closed, evict, after_establishment, handle,
}
use pqcbridge_legacy_edge_cl.Cloud.Server.Readings.{Stored, handle_protected_guarded}

-- Not above the last accepted sequence of its device.
abbrev Below : ReplayGuard → Key × ℤ → Type 0
Below g q = q.1 ≤ℤ last_seen g q.0

-- The stored sequences of each device ascend, and none is above the last accepted one.
abbrev pub InOrder : Cloud → Type 0
InOrder c =
    AscendByDevice (stamps c.store.readings) × All (Below c.replay) (stamps c.store.readings)

Later-Below :
    (g : ReplayGuard) (k : Key) (n : ℤ) (q : Key × ℤ)
    → last_seen g k <ℤ n
    → Below g q
    → Later q.0 q.1 (k, n)
Later-Below g k n q h below = ground (arith, key_eq_iff k q.0)

added-AscendByDevice :
    (g : ReplayGuard) (k : Key) (n : ℤ) (rs : List Message) (r : Message)
    → AscendByDevice (stamps rs)
    → All (Below g) (stamps rs)
    → last_seen g k <ℤ n
    → AscendByDevice (stamps rs ++ (k, n) ∷ [])
added-AscendByDevice g k n rs r ordered below h =
    append-AscendByDevice (stamps rs) (k, n) ordered
      (All-imp (Below g) (λ q. Later q.0 q.1 (k, n)) (λ q b. Later-Below g k n q h b) (stamps rs)
        below)

module _ (g : ReplayGuard) (k : Key) (n : ℤ) (rs : List Message) (r : Message)
    (stamped : stamps (rs ++ r ∷ []) ≡ stamps rs ++ (k, n) ∷ [])
    (ordered : AscendByDevice (stamps rs) × All (Below g) (stamps rs)) where
  stamps-All-Below :
      (g' : ReplayGuard)
      → ((other : Key) → last_seen g other ≤ℤ last_seen g' other)
      → last_seen g' k ≡ n
      → All (Below g') (stamps (rs ++ r ∷ []))
  stamps-All-Below g' grows last = rw stamped (
      All-append (Below g') (stamps rs) ((k, n) ∷ [])
        (All-imp (Below g) (Below g') (λ q b. omega (arith, grows q.0)) (stamps rs) ordered.1)
        (rw last (omega arith), tt))

  all_ascend : last_seen g k <ℤ n → AscendByDevice (stamps (rs ++ r ∷ []))
  all_ascend h = rw stamped (added-AscendByDevice g k n rs r ordered.0 ordered.1 h)

Stored-InOrder : (reading : Message) (c c' : Cloud) → Stored reading c c' → InOrder c → InOrder c'
unfolding Store.add keep_last
Stored-InOrder reading c c' stored ordered =
    let (device, k, n, there, hashed, numbered, above, last, replay, store, same) = stored in
    let stamped =
      stamps-append c.store.readings reading (k, n)
        (stamp-eq-some reading device k n there hashed numbered) in
    let grows : (other : Key) → last_seen c.replay other ≤ℤ last_seen c'.replay other =
      λ other. rw replay (last_seen_grows k n c.replay other) in
    rw store (
      drop-AscendByDevice _ _
          (all_ascend c.replay k n c.store.readings reading stamped ordered above),
      stamps-drop-All (Below c'.replay) _ _ (
          stamps-All-Below c.replay k n c.store.readings reading stamped ordered c'.replay grows
            last),
    )

handle_reading-InOrder :
    (host : Host) (session_id : Text) (session_key : Bytes) (message : Message) (c : Cloud)
    → InOrder c
    → InOrder (handle_reading host session_id session_key message c).1
handle_reading-InOrder host session_id session_key message c ordered =
    elim (handle_protected_guarded host session_id session_key message c) [
      | inl (replay, store, registry) ↦ rw (replay, store) ordered
      | inr (reading, opened, stored) ↦
          Stored-InOrder reading c (handle_reading host session_id session_key message c).1 stored
            ordered
    ]

abbrev LinkInOrder : Link → Type 0
LinkInOrder l = InOrder l.cloud

module _ (host : Host) where
  receive_one-InOrder :
      (session_id : Text) (session_key : Bytes) (l : Link)
      → LinkInOrder l
      → LinkInOrder (receive_one host session_id session_key l).1
  unfolding receive_one
  receive_one-InOrder session_id session_key l h =
      bind_inv LinkInOrder (on_stream (read_message host.nesting))
        (λ message. on_cloud (handle_reading host session_id session_key message)) l h
        (λ message l' h'. handle_reading-InOrder host session_id session_key message l'.cloud h')

  receive_readings-InOrder :
      (session_id : Text) (session_key : Bytes) (l : Link)
      → LinkInOrder l
      → LinkInOrder (receive_readings host session_id session_key l).1
  unfolding receive_readings
  receive_readings-InOrder session_id session_key l h =
      forever_inv (receive_one host session_id session_key) LinkInOrder
        (receive_one-InOrder session_id session_key) (suc (length l.stream.buffer)) l h

  authenticate-InOrder : (l : Link) → LinkInOrder l → LinkInOrder (authenticate host l).1
  unfolding authenticate
  authenticate-InOrder l h = ground (arith, h)

  agree_keeps :
      (gateway_id : Text) (l : Link)
      → ((agree host gateway_id l).1.cloud.store ≡ l.cloud.store)
        × ((agree host gateway_id l).1.cloud.replay ≡ l.cloud.replay)
  unfolding agree open_session
  agree_keeps gateway_id l = (ground arith, ground arith)

  agree-InOrder :
      (gateway_id : Text) (l : Link) → LinkInOrder l → LinkInOrder (agree host gateway_id l).1
  agree-InOrder gateway_id l h =
      let (store, replay) = agree_keeps gateway_id l in rw (store, replay) h

  close_on_keeps :
      (e : Exn) (l : Link)
      → ((close_on host e l).1.cloud.store ≡ l.cloud.store)
        × ((close_on host e l).1.cloud.replay ≡ l.cloud.replay)
  unfolding close_on
  close_on_keeps e l = (ground arith, ground arith)

  close_on-InOrder : (e : Exn) (l : Link) → LinkInOrder l → LinkInOrder (close_on host e l).1
  close_on-InOrder e l h = let (store, replay) = close_on_keeps e l in rw (store, replay) h

  closed-InOrder :
      (session_id : Option Text) (r : Result (Unit {0}) × Link)
      → LinkInOrder r.1
      → LinkInOrder (closed host session_id r).1
  unfolding closed evict
  closed-InOrder none (ok u, l) h = h
  closed-InOrder (some session_id) (ok u, l) h = h
  closed-InOrder none (err e, l) h = close_on-InOrder e l h
  closed-InOrder (some session_id) (err e, l) h = close_on-InOrder e l h

  establish_session-InOrder : (l : Link) → LinkInOrder l → LinkInOrder (establish_session host l).1
  unfolding establish_session
  establish_session-InOrder l h =
      bind_inv LinkInOrder (authenticate host) (agree host) l (authenticate-InOrder l h)
        agree-InOrder

  after_establishment-InOrder :
      (r : Result (Text × Bytes) × Link)
      → LinkInOrder r.1
      → LinkInOrder (after_establishment host r).1
  unfolding after_establishment
  after_establishment-InOrder (ok (session_id, session_key), l) h =
      closed-InOrder (some session_id) (receive_readings host session_id session_key l)
        (receive_readings-InOrder session_id session_key l h)
  after_establishment-InOrder (err e, l) h = closed-InOrder none (err e, l) h

  -- If the sequences of the stored readings ascend for each device and none is above the last
  -- accepted one of its device, then this holds again when a whole connection of a gateway has
  -- been handled, whatever the gateway sends.
  pub handle-InOrder : (l : Link) → InOrder l.cloud → InOrder (handle host l).1.cloud
  unfolding handle
  handle-InOrder l h =
      after_establishment-InOrder (establish_session host l) (establish_session-InOrder l h)
