-- ===== src/Result.antt =====
-- The exceptions that the program raises or lets through, and pure code that may raise.
-- `CryptoError` is the parent of three classes of common/crypto.py, so an `except` for it catches
-- them too; ConnectionClosedError is no ProtocolError. Messages of exceptions are left out: they
-- are only logged. UnicodeDecodeError and JSONDecodeError are ValueErrors in Python, and a socket's
-- timeout is an OSError.
use pqcbridge_legacy_edge_cl.Base.{Bool, true, false, ◌≡◌, refl, ◌⊎◌, inl, inr, Option, none, some}

pub data Exn : Type 0 where
  protocol_error connection_closed processing_error : Exn
  crypto_error authentication_error legacy_decryption_error decapsulation_error : Exn
  os_error key_error type_error value_error attribute_error recursion_error invalid_tag : Exn
  -- sys.exit, which `except Exception` does not catch, and a command that failed
  system_exit called_process_error : Exn
  -- Ctrl-C
  keyboard_interrupt : Exn
  -- no Python exception: a `while True` loop of the model ran out of its fuel
  out_of_fuel : Exn

-- isinstance(exc, Exception)
abbrev pub is_exception : Exn → Bool
is_exception system_exit = false
is_exception keyboard_interrupt = false
is_exception _ = true

-- isinstance(exc, crypto.CryptoError)
abbrev pub is_crypto_error : Exn → Bool
is_crypto_error crypto_error = true
is_crypto_error authentication_error = true
is_crypto_error legacy_decryption_error = true
is_crypto_error decapsulation_error = true
is_crypto_error _ = false

pub data Result {ℓ} (R : Type ℓ) : Type ℓ where
  ok : R → Result R
  err : Exn → Result R

-- One step after another: an exception of the first one skips the second.
infixl 5 ◌>>=◌ ◌>>◌
abbrev pub ◌>>=◌ {ℓ κ} : {R : Type ℓ} {S : Type κ} → Result R → (R → Result S) → Result S
err raised >>= next = err raised
ok returned >>= next = next returned

abbrev pub ◌>>◌ {ℓ} : {S : Type ℓ} → Result (Unit {0}) → Result S → Result S
first >> next = first >>= (λ done. next)

-- `if not test: raise e`
abbrev pub check : Bool → Exn → Result (Unit {0})
check true e = ok tt
check false e = err e

-- try: m except …, with the handler as a function of the exception that is to go on
abbrev pub rescue {ℓ} : {A : Type ℓ} → Result A → (Exn → Exn) → Result A
rescue (ok a) h = ok a
rescue (err e) h = err (h e)

abbrev pub or_raise {ℓ} : {A : Type ℓ} → Option A → Exn → Result A
or_raise none e = err e
or_raise (some a) e = ok a

-- Where two steps succeed, the first one succeeded with the value that the second one got.
pub >>=-eq-ok {ℓ κ} :
    {R : Type ℓ} {S : Type κ} (step : Result R) (next : R → Result S) {s : S}
    → (step >>= next) ≡ ok s
    → (r : R) × (step ≡ ok r) × (next r ≡ ok s)
>>=-eq-ok (err raised) next h = cc
>>=-eq-ok (ok r) next h = (r, refl, h)

pub check-eq-ok : (b : Bool) (e : Exn) {u : Unit {0}} → check b e ≡ ok u → b ≡ true
check-eq-ok true e h = refl
check-eq-ok false e h = cc

pub rescue-eq-ok {ℓ} :
    {A : Type ℓ} (m : Result A) (h : Exn → Exn) {a : A} → rescue m h ≡ ok a → m ≡ ok a
rescue-eq-ok (ok a) h e = e
rescue-eq-ok (err x) h e = cc

pub or_raise-eq-ok {ℓ} :
    {A : Type ℓ} (o : Option A) (x : Exn) {a : A} → or_raise o x ≡ ok a → o ≡ some a
or_raise-eq-ok none x e = cc
or_raise-eq-ok (some b) x e = cc

pub ok-injective {ℓ} : {A : Type ℓ} {a b : A} → ok a ≡ ok b → a ≡ b
ok-injective h = cc

pub Result-cases {ℓ} :
    {A : Type ℓ} (r : Result A) → ((a : A) × (r ≡ ok a)) ⊎ ((e : Exn) × (r ≡ err e))
Result-cases (ok a) = inl (a, refl)
Result-cases (err e) = inr (e, refl)
