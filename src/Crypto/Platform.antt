-- ===== src/Crypto/Platform.antt =====
-- What packages/crypto calls and does not implement: `crypto.subtle` of the browser and the package
-- node-forge, with their documented behaviour as named laws, and the types of lib/types.ts.
use file_market.Base.{ℕ, ◌*◌, ◌≤◌, ◌≡◌, length}
use file_market.Base.Result.{Result, ok}
use file_market.Crypto.Bytes.{Bytes, Text, IsBytes}
use file_market.Crypto.Bytes.{Bytes, Text, IsBytes}

pub record AesKeyAndIv : Type 0 where
  pub key : Bytes
  pub iv : Bytes

pub record RsaKeyPair : Type 0 where
  pub pub_key : Bytes
  pub priv_key : Bytes

abbrev pub HashFunction : Type 0
HashFunction = Bytes → Bytes

abbrev pub HmacFunction : Type 0
HmacFunction = Bytes → Bytes → Bytes

-- salt, input key material, info, length in bits
abbrev pub HkdfFunction : Type 0
HkdfFunction = Bytes → Bytes → Bytes → ℕ → Result Bytes

-- `window.crypto.subtle`. RSA-OAEP encryption draws random bytes, its first argument.
pub record Subtle : Type 1 where
  pub CryptoKey : Type 0
  pub digest : HashFunction
  pub derive_bits : HkdfFunction
  pub import_aes : Bytes → Result CryptoKey
  pub aes_encrypt : CryptoKey → Bytes → Bytes → Result Bytes
  pub aes_decrypt : CryptoKey → Bytes → Bytes → Result Bytes
  pub import_spki : Bytes → Result CryptoKey
  pub import_pkcs8 : Bytes → Result CryptoKey
  pub rsa_encrypt : Bytes → CryptoKey → Bytes → Result Bytes
  pub rsa_decrypt : CryptoKey → Bytes → Result Bytes

-- node-forge: key generation is a function of the seed, keys are printed as DER in hexadecimal.
pub record Forge : Type 1 where
  pub PublicKey : Type 0
  pub PrivateKey : Type 0
  pub generate : ℕ → Text → PublicKey × PrivateKey
  pub public_to_der : PublicKey → Text
  pub private_to_der : PrivateKey → Text

-- Web Crypto: SHA-512 gives 64 bytes, and AES-CBC with a 32 byte key and a 16 byte vector works and
-- decrypts what it encrypted.
pub record AesLaws (s : Subtle) : Type 0 where
  pub digest_length : (d : Bytes) → length (s.digest d) ≡ 64
  pub digest_bytes : (d : Bytes) → IsBytes (s.digest d)
  pub import_aes_ok : (k : Bytes) → length k ≡ 32 → (ck : s.CryptoKey) × (s.import_aes k ≡ ok ck)
  pub encrypt_ok :
      (ck : s.CryptoKey) (iv d : Bytes)
      → length iv ≡ 16
      → (c : Bytes) × (s.aes_encrypt ck iv d ≡ ok c)
  pub decrypt-encrypt :
      (ck : s.CryptoKey) (iv d c : Bytes)
      → s.aes_encrypt ck iv d ≡ ok c
      → s.aes_decrypt ck iv c ≡ ok d

-- `deriveBits` gives the octets that it is asked for.
pub record DeriveLaws (s : Subtle) : Type 0 where
  pub derive_ok :
      (salt ikm info : Bytes) (octets : ℕ)
      → octets ≤ 255 * 64
      → (okm : Bytes) × (s.derive_bits salt ikm info (8 * octets) ≡ ok okm)
        × (length okm ≡ octets)
        × IsBytes okm
