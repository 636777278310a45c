-- ===== src/Crypto/Rsa.antt =====
-- The encryption and decryption of packages/crypto/src/lib/rsa.ts, RSA-OAEP under generated keys.
use file_market.Base.{◌≤◌, ◌≡◌, length}
use file_market.Base.Result.{Result, ok, ◌>>=◌}
use file_market.Crypto.Bytes.{Bytes, IsBytes}
use file_market.Crypto.Platform.{Subtle, Forge}
use file_market.Crypto.Derivation.{rsa_generate_key_pair}

module _ (s : Subtle) where
  -- `importPublicKey`, then `encrypt` with the random bytes that the platform draws
  unfoldable pub rsa_encrypt_native : Bytes → Bytes → Bytes → Result Bytes
  rsa_encrypt_native random message public_key = do
    key ← s.import_spki public_key
    s.rsa_encrypt random key message

  unfoldable pub rsa_decrypt_native : Bytes → Bytes → Result Bytes
  rsa_decrypt_native message private_key = do
    key ← s.import_pkcs8 private_key
    s.rsa_decrypt key message

-- The two halves of a generated pair can be imported; OAEP with SHA-512 under 4096 bits takes
-- messages of up to 382 bytes, and the private key decrypts what the public one encrypted.
pub record RsaLaws (s : Subtle) (f : Forge) : Type 0 where
  pub import_spki_ok :
      (seed : Bytes)
      → (k : s.CryptoKey) × (s.import_spki (rsa_generate_key_pair f seed).pub_key ≡ ok k)
  pub import_pkcs8_ok :
      (seed : Bytes)
      → (k : s.CryptoKey) × (s.import_pkcs8 (rsa_generate_key_pair f seed).priv_key ≡ ok k)
  pub rsa_encrypt_ok :
      (seed random message : Bytes) (k : s.CryptoKey)
      → s.import_spki (rsa_generate_key_pair f seed).pub_key ≡ ok k
      → IsBytes message
      → length message ≤ 382
      → (c : Bytes) × (s.rsa_encrypt random k message ≡ ok c) × IsBytes c
  pub rsa_decrypt-encrypt :
      (seed random message c : Bytes) (k l : s.CryptoKey)
      → s.import_spki (rsa_generate_key_pair f seed).pub_key ≡ ok k
      → s.import_pkcs8 (rsa_generate_key_pair f seed).priv_key ≡ ok l
      → s.rsa_encrypt random k message ≡ ok c
      → s.rsa_decrypt l c ≡ ok message

-- What is encrypted to a generated pair, up to 382 bytes, is decrypted by it.
pub rsa_decrypt_native-encrypt :
    (s : Subtle) (f : Forge) (laws : RsaLaws s f) (seed random message : Bytes)
    → IsBytes message
    → length message ≤ 382
    → (c : Bytes) × (rsa_encrypt_native s random message (rsa_generate_key_pair f seed).pub_key
        ≡ ok c)
      × IsBytes c
      × (rsa_decrypt_native s c (rsa_generate_key_pair f seed).priv_key ≡ ok message)
unfolding rsa_encrypt_native rsa_decrypt_native
rsa_decrypt_native-encrypt s f laws seed random message hb h =
    let (k, e) = laws.import_spki_ok seed in
    let (l, p) = laws.import_pkcs8_ok seed in
    let (c, q, bytes) = laws.rsa_encrypt_ok seed random message k e hb h in
    (c, rw e q, bytes, rw p (laws.rsa_decrypt-encrypt seed random message c k l e p q))
