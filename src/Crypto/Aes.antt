-- ===== src/Crypto/Aes.antt =====
-- packages/crypto/src/lib/aes.ts: the file format vector, hash, cipher text, over AES-CBC.
use file_market.Base.{◌+◌, ◌/◌, not, ◌++◌, ltb, if◌then◌else◌, length, drop}
use file_market.Base.Result.{Result, ok, err, ◌>>=◌}
use file_market.Crypto.Bytes.{Bytes, text_eq, buffer_to_hex}
use file_market.Crypto.Platform.{AesKeyAndIv, Subtle}
use file_market.Crypto.Config.{aes_iv_length, hash_length}
use file_market.Crypto.Derivation.{slice}
pub mod RoundTrip

module _ (s : Subtle) where
  -- `hashDecrypted` against `hash`, as hexadecimal texts
  abbrev pub check_hash : Bytes → Bytes → Result Bytes
  check_hash hash decrypted =
      if text_eq (buffer_to_hex (s.digest decrypted)) (buffer_to_hex hash)
      then ok decrypted
      else err "Decrypted data hash does not match"

  unfoldable pub aes_encrypt_native : Bytes → AesKeyAndIv → Result Bytes
  aes_encrypt_native data_bytes key_and_iv = do
    key ← s.import_aes key_and_iv.key
    let hash = s.digest data_bytes
    encrypted ← s.aes_encrypt key key_and_iv.iv data_bytes
    ok (key_and_iv.iv ++ (hash ++ encrypted))

  -- what follows the cutting of the file into its three parts
  unfoldable pub decrypt_parts : Bytes → Bytes → Bytes → Bytes → Result Bytes
  decrypt_parts key iv hash message = do
    crypto_key ← s.import_aes key
    decrypted ← s.aes_decrypt crypto_key iv message
    check_hash hash decrypted

  unfoldable pub aes_decrypt_native : Bytes → Bytes → Result Bytes
  unfolding decrypt_parts
  aes_decrypt_native data_bytes key =
      let iv_end = aes_iv_length / 8 in
      let hash_end = iv_end + hash_length / 8 in
      if ltb (length data_bytes) ((aes_iv_length + hash_length) / 8)
      then err "too small data to encrypt"
      else decrypt_parts key (slice 0 iv_end data_bytes) (slice iv_end hash_end data_bytes)
          (drop hash_end data_bytes)
