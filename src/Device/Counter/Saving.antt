-- ===== src/Device/Counter/Saving.antt =====
-- What `save_sequence` does to the file.
use pqcbridge_legacy_edge_cl.Base.{
  ◌≡◌, ◌⊎◌, inl, inr, refl, arith, Bool-cases, suc, ltb, false, Option, none, some, List, [], ◌∷◌,
  ◌++◌, length, Text, ℤ, pos, negsuc,
}
use pqcbridge_legacy_edge_cl.Result.{ok, err, os_error, ok-injective}
use pqcbridge_legacy_edge_cl.Encoding.Decimal.{show_nat, show_int}
use pqcbridge_legacy_edge_cl.Encoding.Integer.{str_int, max_digits}
use pqcbridge_legacy_edge_cl.Json.RoundTrip.Printable.{IsShort}
use pqcbridge_legacy_edge_cl.Device.Counter.{Disk, write_with, save_sequence}

pub str_int-IsShort : (n : ℤ) → IsShort n → str_int n ≡ ok (show_int n)
unfolding str_int
str_int-IsShort (pos n) h =
    let fits : ltb max_digits (length (show_nat n)) ≡ false = ground arith in rw fits
str_int-IsShort (negsuc n) h =
    let fits : ltb max_digits (length (show_nat (suc n))) ≡ false = ground arith in rw fits

pub str_int-eq-ok : (n : ℤ) (text : Text) → str_int n ≡ ok text → show_int n ≡ text
unfolding str_int
str_int-eq-ok (pos n) text h = elim (Bool-cases (ltb max_digits (length (show_nat n)))) [
  | inl long ↦ absurd (ground arith)
  | inr short ↦ ok-injective (rw short at h)
]
str_int-eq-ok (negsuc n) text h = elim (Bool-cases (ltb max_digits (length (show_nat (suc n))))) [
  | inl long ↦ absurd (ground arith)
  | inr short ↦ ok-injective (rw short at h)
]

-- A write that works.
pub save_sequence_works :
    (n : ℤ) (d : Disk)
    → IsShort n
    → d.writes ≡ []
    → save_sequence n d ≡ (ok tt, record d { file = some (show_int n) })
unfolding save_sequence write_with
save_sequence_works n d short works = rw (str_int-IsShort n short, works)

-- The sequence is written, or the write fails and leaves what it leaves.
abbrev pub Outcome : ℤ → Disk → Disk → Type 0
Outcome n d d' =
    ((save_sequence n d ≡ (ok tt, d'))
      × (d'.file ≡ some (show_int n))
      × (front : List (Option (Option Text))) × (d.writes ≡ front ++ d'.writes))
    ⊎ ((save_sequence n d ≡ (err os_error, d'))
        × (left : Option Text) × (d.writes ≡ some left ∷ d'.writes)
        × (d'.file ≡ left))

write_with-cases :
    (writes : List (Option (Option Text))) (n : ℤ) (d : Disk)
    → d.writes ≡ writes
    → str_int n ≡ ok (show_int n)
    → (d' : Disk) × Outcome n d d'
unfolding save_sequence write_with
write_with-cases [] n d is short = (_, inl (rw (short, is), refl, [], refl))
write_with-cases (none ∷ later) n d is short = (_, inl (rw (short, is), refl, none ∷ [], is))
write_with-cases (some left ∷ later) n d is short = (_, inr (rw (short, is), left, is, refl))

pub save_sequence-cases :
    (n : ℤ) (d : Disk) → str_int n ≡ ok (show_int n) → (d' : Disk) × Outcome n d d'
save_sequence-cases n d short = write_with-cases d.writes n d refl short
