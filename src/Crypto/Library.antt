-- ===== src/Crypto/Library.antt =====
-- The `cryptography` package and `hashlib.sha256`, which common/crypto.py calls. A key object is its
-- raw bytes, and a random draw of the package is an argument. `new` and the call on the new object
-- are one operation, so `encrypt` and `decrypt` raise ValueError for a key that is not 32 bytes.
use pqcbridge_legacy_edge_cl.Base.{ℕ, ◌≡◌, ◌⊎◌, Option, Bytes, AreBytes, length}
use pqcbridge_legacy_edge_cl.Result.{Result, ok, err, invalid_tag}

abbrev pub key_length : ℕ
key_length = 32

-- Standard nonce size for ChaCha20-Poly1305.
abbrev pub nonce_length : ℕ
nonce_length = 12

abbrev pub mlkem768_public_key_bytes : ℕ
mlkem768_public_key_bytes = 1184

abbrev pub mlkem768_ciphertext_bytes : ℕ
mlkem768_ciphertext_bytes = 1088

pub record Library : Type 0 where
  -- ChaCha20Poly1305(key).encrypt(nonce, data, aad) and .decrypt(nonce, data, aad)
  pub encrypt : Bytes → Bytes → Bytes → Option Bytes → Result Bytes
  pub decrypt : Bytes → Bytes → Bytes → Option Bytes → Result Bytes
  -- hashlib.sha256(data).digest()
  pub sha256 : Bytes → Bytes
  -- HKDF(SHA256, 32, salt=None, info).derive(secret), with `info` first
  pub hkdf : Bytes → Bytes → Bytes
  -- MLKEM768PublicKey.from_public_bytes, and MLKEM768PrivateKey.from_seed_bytes
  pub from_public_bytes : Bytes → Result Bytes
  pub from_seed_bytes : Bytes → Result Bytes
  -- MLKEM768PrivateKey.generate(), with its random draw, and private_key.private_bytes_raw()
  pub generate : Bytes → Bytes
  pub private_bytes_raw : Bytes → Bytes
  -- private_key.public_key()
  pub public_key : Bytes → Bytes
  -- public_key.encapsulate(), with its random draw: the shared secret and the ciphertext
  pub encapsulate : Bytes → Bytes → Bytes × Bytes
  pub decapsulate : Bytes → Bytes → Result Bytes

-- The behaviour that the packages document.
pub record Laws (lib : Library) : Type 0 where
  -- A 32-byte key and a 12-byte nonce encrypt, and decryption with the same key, nonce and
  -- associated data gives the plaintext back.
  pub encrypts :
      (key nonce plain : Bytes) (aad : Option Bytes)
      → length key ≡ key_length
      → length nonce ≡ nonce_length
      → (c : Bytes) × (lib.encrypt key nonce plain aad ≡ ok c)
  pub decrypt-encrypt :
      (key nonce plain c : Bytes) (aad : Option Bytes)
      → lib.encrypt key nonce plain aad ≡ ok c
      → lib.decrypt key nonce c aad ≡ ok plain
  pub encrypts_bytes :
      (key nonce plain c : Bytes) (aad : Option Bytes)
      → lib.encrypt key nonce plain aad ≡ ok c
      → AreBytes c
  -- What decrypts is the encryption of its plaintext: the tag is a function of the rest.
  pub encrypt-decrypt :
      (key nonce plain c : Bytes) (aad : Option Bytes)
      → lib.decrypt key nonce c aad ≡ ok plain
      → lib.encrypt key nonce plain aad ≡ ok c
  -- With a key and a nonce of the right size, the only failure is InvalidTag.
  pub decrypt_fails :
      (key nonce c : Bytes) (aad : Option Bytes)
      → length key ≡ key_length
      → length nonce ≡ nonce_length
      → ((plain : Bytes) × (lib.decrypt key nonce c aad ≡ ok plain))
        ⊎ (lib.decrypt key nonce c aad ≡ err invalid_tag)
  -- The holder of the private key decapsulates to the shared secret.
  pub decapsulate-encapsulate :
      (private_key draw : Bytes)
      → lib.decapsulate private_key (lib.encapsulate (lib.public_key private_key) draw).1
        ≡ ok (lib.encapsulate (lib.public_key private_key) draw).0
  pub ciphertext_length :
      (public_key draw : Bytes)
      → length (lib.encapsulate public_key draw).1 ≡ mlkem768_ciphertext_bytes
  pub ciphertext_bytes : (public_key draw : Bytes) → AreBytes (lib.encapsulate public_key draw).1
  pub public_key_round_trip :
      (private_key : Bytes)
      → lib.from_public_bytes (lib.public_key private_key) ≡ ok (lib.public_key private_key)
  pub derived_length : (info secret : Bytes) → length (lib.hkdf info secret) ≡ key_length
  pub seed_round_trip :
      (private_key : Bytes)
      → lib.from_seed_bytes (lib.private_bytes_raw private_key) ≡ ok private_key
