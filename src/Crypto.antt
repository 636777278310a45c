-- ===== src/Crypto.antt =====
-- packages/crypto/src: buffers and numbers, key derivation, and the ciphers.
pub mod Bytes
pub mod Config
pub mod Platform
pub mod Hkdf
pub mod Derivation
pub mod Aes
pub mod Rsa
