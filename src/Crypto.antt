-- ===== src/Crypto.antt =====
-- common/crypto.py: the wrappers of the `cryptography` package. What the package does is a
-- parameter, a `Library`; its documented behaviour is `Library.Laws`.
pub mod Library
pub mod Aead
pub mod Tags
pub mod Kem
pub mod KeyFile
