-- ===== src/Cloud/Store/Retention.antt =====
-- What the store keeps: the last readings, as many as it has room for.
use pqcbridge_legacy_edge_cl.Base.{
  ℕ, zero, suc, ◌+◌, ◌-◌, ◌≤◌, ◌≡◌, refl, sym, ap, ◌∙◌, List, [], ◌∷◌, ◌++◌, append_assoc,
  append-nil, arith, length, drop, take, take-append-drop, length-append, length-drop, ◌⊎◌, inl,
  inr,
}
use mathlib.Core.Path.{subst₂}
use pqcbridge_legacy_edge_cl.Json.{Message}
use pqcbridge_legacy_edge_cl.Cloud.Store.{ReadingStore, keep_last, add, recent, count}

drop-append {ℓ} :
    {A : Type ℓ} (n : ℕ) (xs ys : List A) → n ≤ length xs → drop n (xs ++ ys) ≡ drop n xs ++ ys
drop-append zero xs ys h = refl
drop-append (suc n) [] ys h = absurd (omega arith)
drop-append (suc n) (x ∷ xs) ys h = drop-append n xs ys (omega arith)

drop_nothing {ℓ} : {A : Type ℓ} (n : ℕ) → drop {A = A} n [] ≡ []
drop_nothing zero = refl
drop_nothing (suc n) = refl

drop-drop {ℓ} : {A : Type ℓ} (n m : ℕ) (xs : List A) → drop n (drop m xs) ≡ drop (m + n) xs
drop-drop n zero xs = let e : 0 + n ≡ n = omega arith in rw e
drop-drop n (suc m) [] = rw drop_nothing (sym (drop_nothing (suc m + n)))
drop-drop n (suc m) (x ∷ xs) =
    let e : suc m + n ≡ suc (m + n) = omega arith in rw e (drop-drop n m xs)

length-keep_last {ℓ} : {A : Type ℓ} (n : ℕ) (xs : List A) → length (keep_last n xs) ≤ n
unfolding keep_last
length-keep_last n xs = omega (arith, length-drop (length xs - n) xs)

-- Readings that are added one after another.
unfoldable pub add_all : List Message → ReadingStore → ReadingStore
add_all [] s = s
add_all (r ∷ rs) s = add_all rs (add r s)

keep_last-keep_last {ℓ} :
    {A : Type ℓ} (n : ℕ) (xs ys : List A)
    → keep_last n (keep_last n xs ++ ys) ≡ keep_last n (xs ++ ys)
unfolding keep_last
keep_last-keep_last n xs ys =
    let cut = length xs - n in
    let enough : cut ≤ length xs = omega arith in
    let measured : length (drop cut xs ++ ys) ≡ length xs - cut + length ys =
      omega (arith, length-append (drop cut xs) ys, length-drop cut xs) in
    let amount : cut + (length (drop cut xs ++ ys) - n) ≡ length (xs ++ ys) - n =
      omega (arith, length-append xs ys) in
    ap (drop (length (drop cut xs ++ ys) - n)) (sym (drop-append cut xs ys enough))
    ∙ drop-drop (length (drop cut xs ++ ys) - n) cut (xs ++ ys)
    ∙ ap (λ k. drop k (xs ++ ys)) amount

-- A store that has been cut once has nothing left to cut.
keep_last_idle {ℓ} :
    {A : Type ℓ} (n : ℕ) (xs : List A) → keep_last n (keep_last n xs) ≡ keep_last n xs
keep_last_idle n xs =
    subst₂ (λ a b. keep_last n a ≡ keep_last n b) (append-nil _) (append-nil _)
      (keep_last-keep_last n xs [])

-- A store that holds no more than it has room for, and then gets readings one after another, holds
-- the last ones of all that it was given, in their order, as many as it has room for.
pub readings-add_all :
    (rs : List Message) (s : ReadingStore)
    → keep_last s.max_readings s.readings ≡ s.readings
    → (add_all rs s).readings ≡ keep_last s.max_readings (s.readings ++ rs)
unfolding add_all add
readings-add_all [] s full = rw append-nil (sym full)
readings-add_all (r ∷ rs) s full =
    readings-add_all rs (add r s) (keep_last_idle s.max_readings (s.readings ++ r ∷ []))
    ∙ keep_last-keep_last s.max_readings (s.readings ++ r ∷ []) rs
    ∙ ap (keep_last s.max_readings) (append_assoc s.readings (r ∷ []) rs)

-- The store never holds more readings than it has room for.
pub count-add : (r : Message) (s : ReadingStore) → count (add r s) ≤ s.max_readings
unfolding count add
count-add r s = length-keep_last s.max_readings (s.readings ++ r ∷ [])

-- Recent returns the end of the store, and for a positive number at most that many readings.
pub recent_lem :
    (n : ℕ) (s : ReadingStore)
    → ((before : List Message) × (before ++ recent n s ≡ s.readings))
      × ((n ≡ 0) ⊎ (length (recent n s) ≤ n))
unfolding recent keep_last
recent_lem zero s = (([], refl), inl refl)
recent_lem (suc n) s = (
  (
    take (length s.readings - suc n) s.readings,
    take-append-drop (length s.readings - suc n) s.readings,
  ),
  inr (omega (arith, length-drop (length s.readings - suc n) s.readings)),
)
