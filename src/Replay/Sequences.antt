-- ===== src/Replay/Sequences.antt =====
-- What the replay guard guarantees, over one call and over any run of calls.
use pqcbridge_legacy_edge_cl.Base.{
  true, ◌≡◌, ◌≢◌, ◌↔◌, ◌⊎◌, List, [], ◌∷◌, arith, ℤ, ◌≤ℤ◌, ◌<ℤ◌, if◌then◌else◌, All, Bool-cases,
  inl, inr,
}
use pqcbridge_legacy_edge_cl.Dict.{get-put}
use pqcbridge_legacy_edge_cl.Replay.{
  Key, key_eq, key_eq_iff, Eq_key, ReplayGuard, last_seen, check_and_update,
}

-- A call is accepted exactly when the sequence is above the last one of its device.
pub accepted_iff :
    (device_id : Key) (sequence : ℤ) (g : ReplayGuard)
    → ((check_and_update device_id sequence g).0 ≡ true) ↔ (last_seen g device_id <ℤ sequence)
unfolding check_and_update
accepted_iff device_id sequence g = ground arith

-- After a call of check_and_update the last sequence of a device is the one given, if the call was
-- accepted and for that device, and the former one otherwise.
pub last_seen-check_and_update :
    (device_id other : Key) (sequence : ℤ) (g : ReplayGuard)
    → last_seen (check_and_update device_id sequence g).1 other ≡ (
        if (check_and_update device_id sequence g).0
        then (if key_eq device_id other then sequence else last_seen g other)
        else last_seen g other)
unfolding check_and_update last_seen
last_seen-check_and_update device_id other sequence g =
    ground (arith, get-put g.last_sequence device_id other sequence)

pub last_seen-accepted :
    (device_id : Key) (sequence : ℤ) (g : ReplayGuard)
    → (check_and_update device_id sequence g).0 ≡ true
    → last_seen (check_and_update device_id sequence g).1 device_id ≡ sequence
last_seen-accepted device_id sequence g h = ground (
  arith,
  last_seen-check_and_update device_id device_id sequence g,
  key_eq_iff device_id device_id,
)

module _ (device_id : Key) (sequence : ℤ) (g : ReplayGuard) where
  -- The last sequence of a device never falls.
  pub last_seen_grows :
      (other : Key) → last_seen g other ≤ℤ last_seen (check_and_update device_id sequence g).1 other
  last_seen_grows other = ground (
    arith,
    last_seen-check_and_update device_id other sequence g,
    accepted_iff device_id sequence g,
    key_eq_iff device_id other,
  )

-- The calls of a run that are accepted, in order.
unfoldable pub accepted : ReplayGuard → List (Key × ℤ) → List (Key × ℤ)
accepted g [] = []
accepted g ((device_id, sequence) ∷ calls) =
    let rest = accepted (check_and_update device_id sequence g).1 calls in
    if (check_and_update device_id sequence g).0 then (device_id, sequence) ∷ rest else rest

-- Of another device, or above `n`.
abbrev pub Later : Key → ℤ → Key × ℤ → Type 0
Later d n p = (p.0 ≢ d) ⊎ (n <ℤ p.1)

abbrev pub AscendByDevice : List (Key × ℤ) → Type 0
AscendByDevice [] = Unit
AscendByDevice ((d, n) ∷ l) = All (Later d n) l × AscendByDevice l

pub All-imp :
    (P Q : Key × ℤ → Type 0)
    → ((p : Key × ℤ) → P p → Q p)
    → (l : List (Key × ℤ)) → All P l
    → All Q l
All-imp P Q f [] h = tt
All-imp P Q f (p ∷ l) h = (f p h.0, All-imp P Q f l h.1)

abbrev Above : ReplayGuard → Key × ℤ → Type 0
Above g p = last_seen g p.0 <ℤ p.1

accepted-Above : (g : ReplayGuard) (calls : List (Key × ℤ)) → All (Above g) (accepted g calls)
unfolding accepted
accepted-Above g [] = tt
accepted-Above g ((d, n) ∷ calls) =
    let later =
      All-imp (Above (check_and_update d n g).1) (Above g)
        (λ p h. omega (arith, last_seen_grows d n g p.0))
        (accepted (check_and_update d n g).1 calls)
        (accepted-Above (check_and_update d n g).1 calls) in
    elim (Bool-cases (check_and_update d n g).0) [
      | inl taken ↦ rw taken ((accepted_iff d n g).0 taken, later)
      | inr refused ↦ rw refused later
    ]

Later-check_and_update :
    (d : Key) (n : ℤ) (g : ReplayGuard) (p : Key × ℤ)
    → (check_and_update d n g).0 ≡ true
    → Above (check_and_update d n g).1 p
    → Later d n p
Later-check_and_update d n g p taken h =
    ground (arith, last_seen-check_and_update d p.0 n g, key_eq_iff d p.0)

-- Whatever calls a replay guard gets, the sequences that it accepts from one device strictly
-- increase.
pub accepted-AscendByDevice :
    (g : ReplayGuard) (calls : List (Key × ℤ)) → AscendByDevice (accepted g calls)
unfolding accepted
accepted-AscendByDevice g [] = tt
accepted-AscendByDevice g ((d, n) ∷ calls) =
    let g' = (check_and_update d n g).1 in
    let rest = accepted-AscendByDevice g' calls in
    elim (Bool-cases (check_and_update d n g).0) [
      | inl taken ↦ rw taken (
        All-imp (Above g') (Later d n) (λ p h. Later-check_and_update d n g p taken h)
            (accepted g' calls) (accepted-Above g' calls),
        rest,
      )
      | inr refused ↦ rw refused rest
    ]
