-- ===== src/Replay/Once.antt =====
-- A tally of the devices and sequences that a guard has let pass, each at most once.
use pqcbridge_legacy_edge_cl.Base.{
  ℕ, ◌+◌, ◌≤◌, ◌≡◌, ◌⊎◌, inl, inr, sym, ap, arith, true, ◌&&◌, Option, none, some, if◌then◌else◌, ℤ,
  ◌≤ℤ◌, int_eq, int_eq_iff,
}
use pqcbridge_legacy_edge_cl.Replay.{
  Key, key_eq, key_eq_iff, ReplayGuard, last_seen, check_and_update,
}
use pqcbridge_legacy_edge_cl.Replay.Sequences.{accepted_iff, last_seen_grows, last_seen-accepted}

abbrev pub is_stamp : Key × ℤ → Option (Key × ℤ) → ℕ
is_stamp p none = 0
is_stamp p (some q) = if key_eq q.0 p.0 && int_eq q.1 p.1 then 1 else 0

-- At most once, and then the sequence is not above the last accepted one of the device.
abbrev pub AtMostOnce : (Key × ℤ → ℕ) → ReplayGuard → Type 0
AtMostOnce tally g = (p : Key × ℤ) → (tally p ≤ 1) × ((tally p ≡ 0) ⊎ (p.1 ≤ℤ last_seen g p.0))

-- With the same guard it is enough that nothing is added.
pub fewer-AtMostOnce :
    (f f' : Key × ℤ → ℕ) (g : ReplayGuard)
    → ((p : Key × ℤ) → f' p ≤ f p)
    → AtMostOnce f g
    → AtMostOnce f' g
fewer-AtMostOnce f f' g fewer once p =
    let (most, bound) = once p in
    (
      omega (arith, fewer p),
      elim bound [ inl none_there ↦ inl (omega (arith, fewer p)) | inr below ↦ inr below ],
    )

counted :
    (k : Key) (n : ℤ) (p : Key × ℤ)
    → (is_stamp p (some (k, n)) ≡ 0) ⊎ ((is_stamp p (some (k, n)) ≡ 1) × (k ≡ p.0) × (n ≡ p.1))
counted k n p = ground (arith, key_eq_iff k p.0, int_eq_iff n p.1)

-- A device and a sequence that the guard accepts may be added.
pub check-AtMostOnce :
    (f f' : Key × ℤ → ℕ) (g : ReplayGuard) (k : Key) (n : ℤ)
    → (check_and_update k n g).0 ≡ true
    → ((p : Key × ℤ) → f' p ≡ is_stamp p (some (k, n)) + f p)
    → AtMostOnce f g
    → AtMostOnce f' (check_and_update k n g).1
check-AtMostOnce f f' g k n fresh total once p =
    let (most, bound) = once p in
    elim (counted k n p) [
      | inl other ↦ (
        omega (arith, total p),
        elim bound [
          | inl absent ↦ inl (omega (arith, total p))
          | inr below ↦ inr (omega (arith, last_seen_grows k n g p.0))
        ],
      )
      | inr (one, same_key, same_number) ↦
          let above = (accepted_iff k n g).0 fresh in
          let former = ap (last_seen g) same_key in
          let absent : f p ≡ 0 = elim bound [ inl z ↦ z | inr below ↦ grind arith ] in
          (
            omega (arith, total p),
            inr (rw (sym same_key, last_seen-accepted k n g fresh) (rw same_number (omega arith))),
          )
    ]
