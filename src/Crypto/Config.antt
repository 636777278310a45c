-- ===== src/Crypto/Config.antt =====
-- packages/crypto/src/lib/config.ts: sizes in bits, and the tags of the two kinds of key.
use file_market.Base.{ℕ, ◌*◌, [], ◌∷◌}
use file_market.Crypto.Bytes.{Bytes}

abbrev pub rsa_modulus_length : ℕ
rsa_modulus_length = 4096

abbrev pub aes_key_length : ℕ
aes_key_length = 256

abbrev pub aes_iv_length : ℕ
aes_iv_length = 16 * 8

abbrev pub hash_length : ℕ
hash_length = 512

abbrev pub aes_key_type : Bytes
aes_key_type = 1 ∷ []

abbrev pub rsa_key_type : Bytes
rsa_key_type = 2 ∷ []
