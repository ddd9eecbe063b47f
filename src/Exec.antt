-- ===== src/Exec.antt =====
-- Methods that change objects and may raise. What was written before a raise stays written, so the
-- state comes back beside the exception too.
pub mod Binds
pub mod Loop
use pqcbridge_legacy_edge_cl.Base.{ℕ, zero, suc, Bool, Option, none, some}
use pqcbridge_legacy_edge_cl.Result.{Exn, Result, ok, err, out_of_fuel}

abbrev pub Exec {ℓ} : Type ℓ → Type ℓ → Type ℓ
Exec S A = S → Result A × S

module _ {ℓ} {S A : Type ℓ} where
  abbrev pub pure : A → Exec S A
  pure a s = (ok a, s)

  abbrev pub raise : Exn → Exec S A
  raise e s = (err e, s)

  -- a pure computation, or the outcome of a call outside the state
  abbrev pub lift : Result A → Exec S A
  lift r s = (r, s)

  abbrev pub gets : (S → A) → Exec S A
  gets f s = (ok (f s), s)

  abbrev pub recover : (Exn → Exec S A) → Result A × S → Result A × S
  recover h (ok a, s) = (ok a, s)
  recover h (err e, s) = h e s

  -- try: m except …; a handler that does not catch `e` raises it again
  abbrev pub catch : Exec S A → (Exn → Exec S A) → Exec S A
  catch m h s = recover h (m s)

abbrev pub modify : {S : Type 0} → (S → S) → Exec S (Unit {0})
modify f s = (ok tt, f s)

module _ {ℓ} {S A B : Type ℓ} where
  abbrev pub continue : (A → Exec S B) → Result A × S → Result B × S
  continue f (ok a, s) = f a s
  continue f (err e, s) = (err e, s)

  infixl 5 ◌>>=◌ ◌>>◌
  abbrev pub ◌>>=◌ : Exec S A → (A → Exec S B) → Exec S B
  ◌>>=◌ m f s = continue f (m s)

  abbrev pub ◌>>◌ : Exec S A → Exec S B → Exec S B
  m >> n = m >>= λ _. n

-- `while True: body`, which only an exception ends. The fuel bounds the rounds.
unfoldable pub forever : {S : Type 0} → ℕ → Exec S (Unit {0}) → Exec S (Unit {0})
forever zero body s = (err out_of_fuel, s)
forever (suc n) body s = continue (λ _. forever n body) (body s)

-- An action on a part of the state.
abbrev pub zoom : {S T A : Type 0} → (S → T) → (T → S → S) → Exec T A → Exec S A
zoom part back m s = let (r, t) = m (part s) in (r, back t s)
