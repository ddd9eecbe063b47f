-- ===== src/Cloud/Threads/Once.antt =====
-- However the threads take their turns, no reading is stored twice.
use pqcbridge_legacy_edge_cl.Base.{
  ℕ, zero, suc, ◌+◌, ◌-◌, ◌≤◌, ◌≡◌, refl, ap, ◌∙◌, arith, true, some, List, [], ◌∷◌, ◌++◌, length,
  drop, Bytes, Text, ℤ,
}
use pqcbridge_legacy_edge_cl.Json.{Message}
use pqcbridge_legacy_edge_cl.Config.{Host}
use pqcbridge_legacy_edge_cl.Replay.{Key, check_and_update}
use pqcbridge_legacy_edge_cl.Replay.Once.{is_stamp, AtMostOnce, fewer-AtMostOnce, check-AtMostOnce}
use pqcbridge_legacy_edge_cl.Cloud.Store
use pqcbridge_legacy_edge_cl.Cloud.Store.{keep_last}
use pqcbridge_legacy_edge_cl.Cloud.Store.Stamps.{stamp, stamp-eq-some}
use pqcbridge_legacy_edge_cl.Cloud.Server.{Cloud}
use pqcbridge_legacy_edge_cl.Cloud.Threads.{
  Pc, waiting, storing, System, in_flight, Step, aside, check, store, Reach, here, next,
}

-- How often a device and a sequence stand among readings.
abbrev pub count : Key × ℤ → List Message → ℕ
count p [] = 0
count p (r ∷ rs) = is_stamp p (stamp r) + count p rs

count-append :
    (p : Key × ℤ) (rs rs' : List Message) → count p (rs ++ rs') ≡ count p rs + count p rs'
count-append p [] rs' = omega arith
count-append p (r ∷ rs) rs' = omega (arith, count-append p rs rs')

count-drop : (p : Key × ℤ) (n : ℕ) (rs : List Message) → count p (drop n rs) ≤ count p rs
count-drop p zero rs = omega arith
count-drop p (suc n) [] = omega arith
count-drop p (suc n) (r ∷ rs) = omega (arith, count-drop p n rs)

in_flight-append : (a b : List Pc) → in_flight (a ++ b) ≡ in_flight a ++ in_flight b
in_flight-append [] b = refl
in_flight-append (waiting session_id key ∷ a) b = in_flight-append a b
in_flight-append (storing session_id key reading ∷ a) b =
    ap (λ (l : List Message). reading ∷ l) (in_flight-append a b)

-- How often a device and a sequence are stored or about to be stored.
abbrev tally : Key × ℤ → System → ℕ
tally p s = count p (in_flight s.threads) + count p s.cloud.store.readings

abbrev pub Once : System → Type 0
Once s = AtMostOnce (λ p. tally p s) s.cloud.replay

stored_count :
    (p : Key × ℤ) (r : Message) (c : Cloud)
    → count p (Store.add r c.store).readings ≤ count p c.store.readings + is_stamp p (stamp r)
unfolding Store.add keep_last
stored_count p r c = omega (
  arith,
  count-drop p (length (c.store.readings ++ r ∷ []) - c.store.max_readings)
      (c.store.readings ++ r ∷ []),
  count-append p c.store.readings (r ∷ []),
)

around :
    (p : Key × ℤ) (before after : List Pc) (pc : Pc)
    → count p (in_flight (before ++ pc ∷ after))
      ≡ count p (in_flight before) + count p (in_flight (pc ∷ after))
around p before after pc =
    ap (count p) (in_flight-append before (pc ∷ after))
    ∙ count-append p (in_flight before) (in_flight (pc ∷ after))

module _ (s t : System) (replay : t.cloud.replay ≡ s.cloud.replay) where
  fewer-Once : ((p : Key × ℤ) → tally p t ≤ tally p s) → Once s → Once t
  fewer-Once fewer once =
      rw replay (fewer-AtMostOnce (λ p. tally p s) (λ p. tally p t) s.cloud.replay fewer once)

  aside-Once :
      t.cloud.store ≡ s.cloud.store → in_flight t.threads ≡ in_flight s.threads → Once s → Once t
  aside-Once kept same once = fewer-Once (λ p. rw (kept, same) (omega arith)) once

  store-Once :
      (before after : List Pc) (session_id : Text) (key : Bytes) (reading : Message)
      → s.threads ≡ before ++ storing session_id key reading ∷ after
      → t.cloud.store ≡ Store.add reading s.cloud.store
      → t.threads ≡ before ++ waiting session_id key ∷ after
      → Once s
      → Once t
  store-Once before after session_id key reading from added to once =
      fewer-Once
        (λ p.
          rw (from, added, to)
            (omega (
              arith,
              around p before after (storing session_id key reading),
              around p before after (waiting session_id key),
              stored_count p reading s.cloud,
            )))
        once

module _ (s t : System) (before after : List Pc) (session_id : Text) (key : Bytes)
    (reading : Message) (k : Key) (n : ℤ) (stamped : stamp reading ≡ some (k, n))
    (from : s.threads ≡ before ++ waiting session_id key ∷ after)
    (fresh : (check_and_update k n s.cloud.replay).0 ≡ true)
    (replay : t.cloud.replay ≡ (check_and_update k n s.cloud.replay).1)
    (kept : t.cloud.store ≡ s.cloud.store)
    (to : t.threads ≡ before ++ storing session_id key reading ∷ after) where
  checked_tally : (p : Key × ℤ) → tally p t ≡ is_stamp p (some (k, n)) + tally p s
  checked_tally p =
      rw (from, to, kept)
        (omega (
          arith,
          around p before after (storing session_id key reading),
          around p before after (waiting session_id key),
          ap (is_stamp p) stamped,
        ))

  check-Once : Once s → Once t
  check-Once once = rw replay (
      check-AtMostOnce (λ p. tally p s) (λ p. tally p t) s.cloud.replay k n fresh checked_tally
        once)

Step-Once : (host : Host) (s t : System) → Step host s t → Once s → Once t
Step-Once host s t (aside replay kept same) = aside-Once s t replay kept same
Step-Once host s t
      (check before after session_id key message reading device k n from opened named hashed
        numbered fresh replay kept to) =
    check-Once s t before after session_id key reading k n
      (stamp-eq-some reading device k n named hashed numbered) from fresh replay kept to
Step-Once host s t (store before after session_id key reading from replay added to) =
    store-Once s t replay before after session_id key reading from added to

-- However the threads of the cloud take their turns between the replay guard and the store, if
-- each device and sequence is stored or about to be stored at most once, and then is not above the
-- last accepted one of the device, this holds again.
pub Reach-Once : (host : Host) (s t : System) → Reach host s t → Once s → Once t
Reach-Once host s t here once = once
Reach-Once host s t (next {t = u} run step) once =
    Step-Once host u t step (Reach-Once host s u run once)
