-- ===== src/Examples/Toy.antt =====
-- A concrete library that behaves as `Library.Laws` says. A ciphertext is the key, the nonce, the
-- associated data and the plaintext in unary, so it hides nothing; only the laws matter here.
use pqcbridge_legacy_edge_cl.Base.{
  ℕ, zero, suc, ◌+◌, ◌<◌, ◌≡◌, ◌⊎◌, inl, inr, refl, ap, ◌∙◌, arith, Bool, ◌&&◌, Option, none, some,
  [], ◌∷◌, ◌++◌, ◌==◌, Eq_nat, nat_eq_iff, if◌then◌else◌, length, All-append, Bytes, AreBytes,
  Bool-cases, Option-cases,
}
use pqcbridge_legacy_edge_cl.Result.{
  Result, ok, err, value_error, invalid_tag, or_raise, or_raise-eq-ok, ok-injective,
}
use pqcbridge_legacy_edge_cl.Crypto.Library.{Library, Laws}

-- `n` zeros, and a one
unfoldable pub mark : ℕ → Bytes → Bytes
mark zero s = 1 ∷ s
mark (suc n) s = 0 ∷ mark n s

unfoldable pub unary : Bytes → Bytes
unary [] = []
unary (n ∷ s) = mark n (unary s)

before : ℕ → Option Bytes → Option Bytes
before n none = none
before n (some s) = some (n ∷ s)

-- the numbers of a unary text, with the zeros counted so far
read : ℕ → Bytes → Option Bytes
read zero [] = some []
read (suc n) [] = none
read n (zero ∷ s) = read (suc n) s
read n (suc zero ∷ s) = before n (read 0 s)
read n (suc (suc k) ∷ s) = none

read-mark : (k n : ℕ) (s : Bytes) → read k (mark n s) ≡ before (k + n) (read 0 s)
unfolding read mark
read-mark zero zero s = let e : 0 + 0 ≡ 0 = refl in refl
read-mark (suc k) zero s = let e : suc k + 0 ≡ suc k = omega arith in rw e
read-mark zero (suc n) s = let e : 0 + suc n ≡ 1 + n = omega arith in rw e (read-mark 1 n s)
read-mark (suc k) (suc n) s =
    let e : suc k + suc n ≡ suc (suc k) + n = omega arith in rw e (read-mark (suc (suc k)) n s)

read-unary : (s : Bytes) → read 0 (unary s) ≡ some s
unfolding read unary before
read-unary [] = refl
read-unary (n ∷ s) =
    let e : 0 + n ≡ n = omega arith in rw (read-mark 0 n (unary s), read-unary s, e)

zeros_before : ℕ → Bytes → Bytes
zeros_before zero s = s
zeros_before (suc n) s = 0 ∷ zeros_before n s

zeros-zero : (n : ℕ) (s : Bytes) → zeros_before n (0 ∷ s) ≡ zeros_before (suc n) s
unfolding zeros_before
zeros-zero zero s = refl
zeros-zero (suc n) s = ap (λ (t : Bytes). 0 ∷ t) (zeros-zero n s)

zeros-one : (n : ℕ) (s : Bytes) → zeros_before n (1 ∷ s) ≡ mark n s
unfolding zeros_before mark
zeros-one zero s = refl
zeros-one (suc n) s = ap (λ (t : Bytes). 0 ∷ t) (zeros-one n s)

before-eq-some :
    (n : ℕ) (o : Option Bytes) (p : Bytes)
    → before n o ≡ some p
    → (q : Bytes) × (o ≡ some q) × (n ∷ q ≡ p)
unfolding before
before-eq-some n none p h = cc
before-eq-some n (some q) p h = (q, refl, cc)

mark_unary : (n : ℕ) (s p q : Bytes) → s ≡ unary q → n ∷ q ≡ p → zeros_before n (1 ∷ s) ≡ unary p
unfolding unary
mark_unary n s p q e same = zeros-one n s ∙ ap (mark n) e ∙ ap unary same

unary-read : (n : ℕ) (s p : Bytes) → read n s ≡ some p → zeros_before n s ≡ unary p
unfolding read unary before zeros_before
unary-read zero [] p h = ground arith
unary-read (suc n) [] p h = cc
unary-read zero (zero ∷ s) p h = unary-read 1 s p h
unary-read (suc n) (zero ∷ s) p h =
    ap (λ (t : Bytes). 0 ∷ t) (zeros-zero n s) ∙ unary-read (suc (suc n)) s p h
unary-read zero (suc zero ∷ s) p h =
    let (q, e, same) = before-eq-some 0 (read 0 s) p h in
    mark_unary 0 s p q (unary-read 0 s q e) same
unary-read (suc n) (suc zero ∷ s) p h =
    let (q, e, same) = before-eq-some (suc n) (read 0 s) p h in
    mark_unary (suc n) s p q (unary-read 0 s q e) same
unary-read zero (suc (suc k) ∷ s) p h = cc
unary-read (suc n) (suc (suc k) ∷ s) p h = cc

mark-AreBytes : (n : ℕ) (s : Bytes) → AreBytes s → AreBytes (mark n s)
unfolding mark
mark-AreBytes zero s h = (omega arith, h)
mark-AreBytes (suc n) s h = (omega arith, mark-AreBytes n s h)

unary-AreBytes : (s : Bytes) → AreBytes (unary s)
unfolding unary
unary-AreBytes [] = tt
unary-AreBytes (n ∷ s) = mark-AreBytes n (unary s) (unary-AreBytes s)

strip : Bytes → Bytes → Option Bytes
strip [] s = some s
strip (c ∷ p) [] = none
strip (c ∷ p) (d ∷ s) = if c == d then strip p s else none

strip-append : (p s : Bytes) → strip p (p ++ s) ≡ some s
unfolding strip
strip-append [] s = refl
strip-append (c ∷ p) s = rw ((nat_eq_iff c c).1 refl) (strip-append p s)

strip-eq-some : (p s r : Bytes) → strip p s ≡ some r → p ++ r ≡ s
unfolding strip
strip-eq-some [] s r h = ground arith
strip-eq-some (c ∷ p) [] r h = cc
strip-eq-some (c ∷ p) (d ∷ s) r h = ground (arith, nat_eq_iff c d, strip-eq-some p s r)

abbrev aad_bytes : Option Bytes → Bytes
aad_bytes none = []
aad_bytes (some a) = a

unfoldable pub context : Bytes → Bytes → Option Bytes → Bytes
context key nonce aad = unary (key ++ (nonce ++ aad_bytes aad))

unfoldable pub sized : Bytes → Bytes → Bool
sized key nonce = length key == 32 && length nonce == 12

unfoldable pub toy_encrypt : Bytes → Bytes → Bytes → Option Bytes → Result Bytes
toy_encrypt key nonce plain aad =
    if sized key nonce then ok (context key nonce aad ++ unary plain) else err value_error

read_after : Option Bytes → Option Bytes
read_after none = none
read_after (some s) = read 0 s

pub toy_decrypt : Bytes → Bytes → Bytes → Option Bytes → Result Bytes
toy_decrypt key nonce c aad =
    if sized key nonce
    then or_raise (read_after (strip (context key nonce aad) c)) invalid_tag
    else err value_error

unfoldable pub repeat : ℕ → ℕ → Bytes
repeat zero c = []
repeat (suc n) c = c ∷ repeat n c

length-repeat : (n c : ℕ) → length (repeat n c) ≡ n
unfolding repeat
length-repeat zero c = refl
length-repeat (suc n) c = ap suc (length-repeat n c)

repeat-AreBytes : (n c : ℕ) → c < 256 → AreBytes (repeat n c)
unfolding repeat
repeat-AreBytes zero c h = tt
repeat-AreBytes (suc n) c h = (h, repeat-AreBytes n c h)

abbrev pub toy : Library
toy = record {
  encrypt = toy_encrypt;
  decrypt = toy_decrypt;
  sha256 = λ plain. plain;
  hkdf = λ info secret. repeat 32 7;
  from_public_bytes = λ raw. ok raw;
  from_seed_bytes = λ seed. ok seed;
  generate = λ draw. draw;
  private_bytes_raw = λ private_key. private_key;
  public_key = λ private_key. private_key;
  encapsulate = λ public_key draw. ([], repeat 1088 0);
  decapsulate = λ private_key c. ok [];
}

toy_decrypt-encrypt :
    (key nonce plain c : Bytes) (aad : Option Bytes)
    → toy_encrypt key nonce plain aad ≡ ok c
    → toy_decrypt key nonce c aad ≡ ok plain
unfolding toy_encrypt toy_decrypt read_after
toy_decrypt-encrypt key nonce plain c aad h = elim (Bool-cases (sized key nonce)) [
  | inl fits ↦ rw (
    fits,
    ← ok-injective (rw fits at h),
    strip-append (context key nonce aad) (unary plain),
    read-unary plain,
  )
  | inr bad ↦ absurd (cc (rw bad at h))
]

read_after-eq-some :
    (o : Option Bytes) (p : Bytes)
    → read_after o ≡ some p
    → (s : Bytes) × (o ≡ some s) × (s ≡ unary p)
unfolding read_after zeros_before
read_after-eq-some none p h = cc
read_after-eq-some (some s) p h = (s, refl, unary-read 0 s p h)

toy_encrypt-decrypt :
    (key nonce plain c : Bytes) (aad : Option Bytes)
    → toy_decrypt key nonce c aad ≡ ok plain
    → toy_encrypt key nonce plain aad ≡ ok c
unfolding toy_encrypt toy_decrypt
toy_encrypt-decrypt key nonce plain c aad h = elim (Bool-cases (sized key nonce)) [
  | inl fits ↦
      let (s, stripped, same) =
        read_after-eq-some (strip (context key nonce aad) c) plain
          (or_raise-eq-ok _ invalid_tag (rw fits at h)) in
      rw (fits, ← same, strip-eq-some (context key nonce aad) c s stripped)
  | inr bad ↦ absurd (cc (rw bad at h))
]

toy_encrypts :
    (key nonce plain : Bytes) (aad : Option Bytes)
    → length key ≡ 32
    → length nonce ≡ 12
    → (c : Bytes) × (toy_encrypt key nonce plain aad ≡ ok c)
unfolding toy_encrypt sized
toy_encrypts key nonce plain aad h k =
    (context key nonce aad ++ unary plain, rw ((nat_eq_iff _ _).1 h, (nat_eq_iff _ _).1 k))

toy_decrypt_fails :
    (key nonce c : Bytes) (aad : Option Bytes)
    → length key ≡ 32
    → length nonce ≡ 12
    → ((plain : Bytes) × (toy_decrypt key nonce c aad ≡ ok plain))
      ⊎ (toy_decrypt key nonce c aad ≡ err invalid_tag)
unfolding toy_decrypt sized
toy_decrypt_fails key nonce c aad h k =
    elim (Option-cases (read_after (strip (context key nonce aad) c))) [
      | inl e ↦ inr (rw ((nat_eq_iff _ _).1 h, (nat_eq_iff _ _).1 k, e))
      | inr (p, e) ↦ inl (p, rw ((nat_eq_iff _ _).1 h, (nat_eq_iff _ _).1 k, e))
    ]

toy_encrypts_bytes :
    (key nonce plain c : Bytes) (aad : Option Bytes)
    → toy_encrypt key nonce plain aad ≡ ok c
    → AreBytes c
unfolding toy_encrypt context
toy_encrypts_bytes key nonce plain c aad h = elim (Bool-cases (sized key nonce)) [
  | inl fits ↦ rw (← ok-injective (rw fits at h)) (
      All-append (λ b. b < 256) (unary (key ++ (nonce ++ aad_bytes aad))) (unary plain)
        (unary-AreBytes _) (unary-AreBytes plain))
  | inr bad ↦ absurd (cc (rw bad at h))
]

pub toy-Laws : Laws toy
toy-Laws = record {
  encrypts = toy_encrypts;
  decrypt-encrypt = toy_decrypt-encrypt;
  encrypts_bytes = toy_encrypts_bytes;
  encrypt-decrypt = toy_encrypt-decrypt;
  decrypt_fails = toy_decrypt_fails;
  decapsulate-encapsulate = λ private_key draw. refl;
  ciphertext_length = λ public_key draw. length-repeat 1088 0;
  ciphertext_bytes = λ public_key draw. repeat-AreBytes 1088 0 (omega arith);
  public_key_round_trip = λ private_key. refl;
  seed_round_trip = λ private_key. refl;
  derived_length = λ info secret. length-repeat 32 7;
}
