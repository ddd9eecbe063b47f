-- ===== src/Exec/Binds.antt =====
-- Rules for one step after another: the outcomes of a step, an invariant of two steps, and the
-- inversion of two steps that return.
use pqcbridge_legacy_edge_cl.Base.{◌≡◌, refl, ◌⊎◌, inl, inr}
use pqcbridge_legacy_edge_cl.Result.{Exn, Result, ok, err}
use pqcbridge_legacy_edge_cl.Exec.{Exec, continue}

pub Outcome-cases {ℓ} :
    {A S : Type ℓ} (r : Result A × S)
    → ((a : A) × (s : S) × (r ≡ (ok a, s))) ⊎ ((e : Exn) × (s : S) × (r ≡ (err e, s)))
Outcome-cases (ok a, s) = inl (a, s, refl)
Outcome-cases (err e, s) = inr (e, s, refl)

-- What holds behind a step, and behind the rest from wherever it starts, holds behind both.
pub bind_inv :
    {S : Type 0} {A B : Type 0} (P : S → Type 0) (m : Exec S A) (f : A → Exec S B) (s : S)
    → P (m s).1
    → ((a : A) (s' : S) → P s' → P (f a s').1)
    → P (continue f (m s)).1
bind_inv P m f s h k = elim (Outcome-cases (m s)) [
  | inl (a, s', e) ↦ rw e (k a s' (rw e at h))
  | inr (x, s', e) ↦ rw e (rw e at h)
]

pub bind-eq-ok :
    {S : Type 0} {A B : Type 0} (m : Exec S A) (f : A → Exec S B) (s : S) {b : B}
    → (continue f (m s)).0 ≡ ok b
    → (a : A) × (s' : S) × (m s ≡ (ok a, s')) × ((f a s').0 ≡ ok b)
bind-eq-ok m f s h = elim (Outcome-cases (m s)) [
  | inl (a, s', e) ↦ (a, s', e, rw e at h)
  | inr (x, s', e) ↦ absurd (cc (rw e at h))
]
