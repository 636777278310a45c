-- ===== src/Crypto/Derivation.antt =====
-- packages/crypto/src/lib/eft-derivation.ts, the key generation of lib/rsa.ts and the worker
-- dedicated-wokrers/rsa.worker.ts.
use file_market.Base.{
  ℕ, ◌+◌, ◌-◌, ◌/◌, String, Bool, false, Option, none, some, ◌++◌, if◌then◌else◌, take, drop,
}
use file_market.Base.Result.{Result, ok, err, ◌>>=◌}
use file_market.Crypto.Bytes.{Bytes, to_hex, from_hex, number_to_buffer}
use file_market.Crypto.Platform.{AesKeyAndIv, RsaKeyPair, HmacFunction, HkdfFunction, Subtle, Forge}
use file_market.Crypto.Config.{
  rsa_modulus_length, aes_key_length, aes_iv_length, aes_key_type, rsa_key_type,
}
use file_market.Crypto.Hkdf.{hkdf_sha512, hkdf_sha512_native}
pub mod Info
pub mod Agree

-- `buffer.slice(from, to)`
abbrev pub slice : ℕ → ℕ → Bytes → Bytes
slice from to bs = take (to - from) (drop from bs)

abbrev pub aes_info : Bytes → ℕ → Bytes
aes_info collection_address token_id =
    aes_key_type ++ (collection_address ++ number_to_buffer token_id)

abbrev pub rsa_info : Bytes → ℕ → ℕ → Bytes
rsa_info collection_address token_id deal_number =
    rsa_key_type
    ++ (collection_address ++ (number_to_buffer token_id ++ number_to_buffer deal_number))

-- seed, global salt, collection address, token
unfoldable pub eft_aes_derivation_aux :
    HkdfFunction → Bytes → Bytes → Bytes → ℕ → Result AesKeyAndIv
eft_aes_derivation_aux hkdf seed global_salt collection_address token_id =
    hkdf global_salt seed (aes_info collection_address token_id) (aes_key_length + aes_iv_length)
    >>= λ okm. ok (record {
      key = slice 0 (aes_key_length / 8) okm;
      iv = slice (aes_key_length / 8) ((aes_key_length + aes_iv_length) / 8) okm;
    })

module _ (f : Forge) where
  -- `rsaPublicSubjectKeyInfoToBytes` and `rsaPrivateKeyPKCS8ToBytes`
  pub rsa_public_to_bytes : f.PublicKey → Bytes
  rsa_public_to_bytes k = from_hex (f.public_to_der k)

  pub rsa_private_to_bytes : f.PrivateKey → Bytes
  rsa_private_to_bytes k = from_hex (f.private_to_der k)

  -- The seed of the pseudo random numbers is the hexadecimal text of the bytes.
  pub rsa_generate_key_pair : Bytes → RsaKeyPair
  unfolding rsa_public_to_bytes rsa_private_to_bytes
  rsa_generate_key_pair seed =
      let (public_key, private_key) = f.generate rsa_modulus_length (to_hex seed) in
      record {
        pub_key = rsa_public_to_bytes public_key;
        priv_key = rsa_private_to_bytes private_key;
      }

  -- The worker answers with the key pair; `some e` is an error event of the worker instead.
  pub rsa_worker : Option String → Bytes → Result RsaKeyPair
  rsa_worker none seed = ok (rsa_generate_key_pair seed)
  rsa_worker (some e) seed = err e

  pub eft_rsa_derivation_aux :
      HkdfFunction → Option String → Bytes → Bytes → Bytes → ℕ → ℕ → Bool → Result RsaKeyPair
  unfolding rsa_worker
  eft_rsa_derivation_aux hkdf worker_error seed global_salt collection_address token_id deal_number
        disable_worker =
      hkdf global_salt seed (rsa_info collection_address token_id deal_number) rsa_modulus_length
      >>= λ okm.
          if disable_worker then ok (rsa_generate_key_pair okm) else rsa_worker worker_error okm

unfoldable pub eft_aes_derivation_native : Subtle → Bytes → Bytes → Bytes → ℕ → Result AesKeyAndIv
unfolding eft_aes_derivation_aux hkdf_sha512_native
eft_aes_derivation_native s = eft_aes_derivation_aux (hkdf_sha512_native s)

unfoldable pub eft_aes_derivation : HmacFunction → Bytes → Bytes → Bytes → ℕ → Result AesKeyAndIv
unfolding eft_aes_derivation_aux
eft_aes_derivation hmac = eft_aes_derivation_aux (hkdf_sha512 hmac)

unfoldable pub eft_rsa_derivation_native :
    Subtle → Forge → Option String → Bytes → Bytes → Bytes → ℕ → ℕ → Bool → Result RsaKeyPair
unfolding eft_rsa_derivation_aux hkdf_sha512_native
eft_rsa_derivation_native s f = eft_rsa_derivation_aux f (hkdf_sha512_native s)

-- The portable version passes no options, so the worker is used.
unfoldable pub eft_rsa_derivation :
    HmacFunction → Forge → Option String → Bytes → Bytes → Bytes → ℕ → ℕ → Result RsaKeyPair
unfolding eft_rsa_derivation_aux
eft_rsa_derivation hmac f worker_error seed global_salt collection_address token_id deal_number =
    eft_rsa_derivation_aux f (hkdf_sha512 hmac) worker_error seed global_salt collection_address
      token_id deal_number false
