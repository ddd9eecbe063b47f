-- ===== src/Cloud/Server/Eviction.antt =====
-- What is left of a session when the connection of its gateway ends.
use pqcbridge_legacy_edge_cl.Base.{◌≡◌, arith, none, some, Bytes, Text, Eq_text, inl, inr}
use pqcbridge_legacy_edge_cl.Result.{Exn, Result, ok, err, ok-injective}
use pqcbridge_legacy_edge_cl.Exec.Binds.{Outcome-cases}
use pqcbridge_legacy_edge_cl.Dict.{get-remove_self}
use pqcbridge_legacy_edge_cl.Config.{Host}
use pqcbridge_legacy_edge_cl.Cloud.Sessions
use pqcbridge_legacy_edge_cl.Cloud.Sessions.{SessionRegistry}
use pqcbridge_legacy_edge_cl.Cloud.Server.{
  Link, establish_session, handle, closed, close_on, receive_readings,
}

get-remove :
    (session_id : Text) (r : SessionRegistry)
    → Sessions.get session_id (Sessions.remove session_id r) ≡ none
unfolding Sessions.get Sessions.remove
get-remove session_id r = get-remove_self r.sessions session_id

closed-evicts :
    (host : Host) (session_id : Text) (r : Result (Unit {0}) × Link)
    → Sessions.get session_id (closed host (some session_id) r).1.cloud.registry ≡ none
unfolding closed
closed-evicts host session_id (ok u, l) = get-remove session_id l.cloud.registry
closed-evicts host session_id (err e, l) =
    get-remove session_id (close_on host e l).1.cloud.registry

close_on-registry :
    (host : Host) (e : Exn) (l : Link) → (close_on host e l).1.cloud.registry ≡ l.cloud.registry
unfolding close_on
close_on-registry host e l = ground arith

module _ (host : Host) (l : Link) where
  -- If the establishment returned a session, then the registry does not hold it when the
  -- connection has been handled, whatever the gateway sends on it and whatever exception ends it.
  pub handle_evicts :
      (session_id : Text) (session_key : Bytes)
      → (establish_session host l).0 ≡ ok (session_id, session_key)
      → Sessions.get session_id (handle host l).1.cloud.registry ≡ none
  unfolding handle
  handle_evicts session_id session_key h = elim (Outcome-cases (establish_session host l)) [
    | inl (x, l', e) ↦
        let same : x ≡ (session_id, session_key) = ok-injective (rw e at h) in
        rw (e, same)
          (closed-evicts host session_id (receive_readings host session_id session_key l'))
    | inr (x, l', e) ↦ absurd (cc (h, e))
  ]

  -- If the establishment raises, the registry holds afterwards what the establishment had left in
  -- it: a session that it had already registered is not evicted.
  pub handle_keeps_unfinished :
      (x : Exn)
      → (establish_session host l).0 ≡ err x
      → (handle host l).1.cloud.registry ≡ (establish_session host l).1.cloud.registry
  unfolding handle
  handle_keeps_unfinished x h = elim (Outcome-cases (establish_session host l)) [
    | inl (x, l', e) ↦ absurd (cc (h, e))
    | inr (x, l', e) ↦ rw e (close_on-registry host x l')
  ]
