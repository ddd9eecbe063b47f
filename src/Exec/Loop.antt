-- ===== src/Exec/Loop.antt =====
-- Rules for `while True` loops: an invariant of the body holds at the end, and a body that consumes
-- something on each round that returns ends by an exception of its own.
use pqcbridge_legacy_edge_cl.Base.{ℕ, zero, suc, ◌<◌, ◌≡◌, arith, inl, inr}
use pqcbridge_legacy_edge_cl.Result.{Exn, ok, err}
use pqcbridge_legacy_edge_cl.Exec.{Exec, forever}
use pqcbridge_legacy_edge_cl.Exec.Binds.{Outcome-cases}

module _ {S : Type 0} (body : Exec S (Unit {0})) where
  -- An invariant that the body keeps, whether it returns or raises, holds when the loop is left.
  pub forever_inv :
      (P : S → Type 0)
      → ((s : S) → P s → P (body s).1)
      → (fuel : ℕ) (s : S) → P s
      → P (forever fuel body s).1
  unfolding forever
  forever_inv P keep zero s p = p
  forever_inv P keep (suc n) s p = elim (Outcome-cases (body s)) [
    | inl (u, s', e) ↦ rw e (forever_inv P keep n s' (rw e at (keep s p)))
    | inr (x, s', e) ↦ rw e (rw e at (keep s p))
  ]

  -- With a measure that falls on each round that returns, and that is below the fuel, the loop ends:
  -- its outcome is the outcome of a round that raised.
  pub forever_ends :
      (measure : S → ℕ)
      → ((s : S) (u : Unit {0}) (s' : S) → body s ≡ (ok u, s') → measure s' < measure s)
      → (fuel : ℕ) (s : S) → measure s < fuel
      → (t : S) × (x : Exn) × (t' : S) × (body t ≡ (err x, t'))
        × (forever fuel body s ≡ (err x, t'))
  unfolding forever
  forever_ends measure falls zero s h = elim h [ ]
  forever_ends measure falls (suc n) s h = elim (Outcome-cases (body s)) [
    | inl (u, s', e) ↦ rw e (forever_ends measure falls n s' (omega (arith, falls s u s' e)))
    | inr (x, s', e) ↦ (s, x, s', e, rw e)
  ]
