-- ===== src/Tests/Keys.antt =====
-- Buffers, key derivation and ciphers at concrete inputs.
use file_market.Base.{
  ◌+◌, ◌*◌, ◌/◌, ◌%◌, ◌≤◌, ◌<◌, ◌≡◌, refl, ap, ◌≢◌, true, none, [], ◌∷◌, ◌++◌, arith, length, take,
  drop,
}
use file_market.Base.Result.{ok, err}
use file_market.Crypto.Bytes.{
  Bytes, IsBytes, number_to_buffer, buffer_to_hex, hex_to_buffer, buffer_to_ether_hex,
}
use file_market.Crypto.Platform.{AesKeyAndIv, HmacFunction, Subtle}
use file_market.Crypto.Bytes.RoundTrip.{hex_to_buffer-inverts}
use Prim.Native.Nat.{min}
use file_market.Crypto.Hkdf.{hkdf_sha512, div_ceil}
use file_market.Crypto.Hkdf.Rfc.{
  Is64, rfc_hkdf, hkdf_sha512-rfc_prefix, hkdf_sha512-whole_blocks, length-hkdf_sha512,
  hkdf_sha512_too_long,
}
use file_market.Crypto.Derivation.{
  slice, aes_info, rsa_info, eft_rsa_derivation_aux, eft_aes_derivation_native, eft_aes_derivation,
}
use file_market.Crypto.Derivation.Info.{aes_info-ne-rsa_info, rsa_derivation_collision}
use file_market.Crypto.Derivation.Agree.{DerivesRfc, eft_aes_derivation-agree}
use file_market.Crypto.Aes.{aes_encrypt_native, aes_decrypt_native}
use file_market.Crypto.Aes.RoundTrip.{aes_decrypt-encrypt, aes_decrypt_accepts}
use file_market.Crypto.Rsa.{rsa_encrypt_native, rsa_decrypt_native, rsa_decrypt_native-encrypt}
use file_market.Crypto.Derivation.{rsa_generate_key_pair}
use file_market.Tests.Toy.{replicate, length-replicate, toy_subtle, toy_forge, toy_aes, toy_rsa}

abbrev buffer : Bytes
buffer = 0 ∷ 171 ∷ 255 ∷ []

hex_of_buffer :
    buffer_to_ether_hex buffer ≡ b'0' ∷ b'x' ∷ b'0' ∷ b'0' ∷ b'a' ∷ b'b' ∷ b'f' ∷ b'f' ∷ []
unfolding buffer_to_ether_hex
hex_of_buffer = refl

bytes_of_number : number_to_buffer 2748 ≡ 10 ∷ 188 ∷ []
unfolding number_to_buffer
bytes_of_number = refl

hex_to_buffer-inverts_example :
    (hex_to_buffer (buffer_to_ether_hex buffer) ≡ buffer)
    × (hex_to_buffer (buffer_to_hex buffer) ≡ buffer)
hex_to_buffer-inverts_example = hex_to_buffer-inverts buffer (omega arith)

-- an HMAC of 64 bytes, and a `deriveBits` built on it
abbrev hmac : HmacFunction
hmac k p = replicate 64 (length p % 256)

hmac-Is64 : Is64 hmac
hmac-Is64 k p = length-replicate 64 (length p % 256)

abbrev rfc_subtle : Subtle
rfc_subtle = record toy_subtle {
  derive_bits = λ salt ikm info l. ok (rfc_hkdf hmac salt ikm info (l / 8));
}

rfc_subtle-DerivesRfc : DerivesRfc rfc_subtle hmac
rfc_subtle-DerivesRfc salt ikm info octets h =
    ap (λ n. ok (rfc_hkdf hmac salt ikm info n)) (omega arith)

hkdf_sha512-rfc_prefix_example :
    (okm : Bytes) × (hkdf_sha512 hmac [] buffer [] (8 * 48) ≡ ok okm)
    × (take 48 okm ≡ rfc_hkdf hmac [] buffer [] 48)
hkdf_sha512-rfc_prefix_example = hkdf_sha512-rfc_prefix hmac hmac-Is64 [] buffer [] 48 (omega arith)

hkdf_sha512-whole_blocks_example : replicate 64 1 ≡ rfc_hkdf hmac [] buffer [] 64
unfolding hkdf_sha512
hkdf_sha512-whole_blocks_example =
    hkdf_sha512-whole_blocks hmac hmac-Is64 [] buffer [] 64 (replicate 64 1) (omega arith)
      (omega arith) refl

length-hkdf_sha512_example :
    (length (replicate 64 1) ≡ min (8 * 48) (64 * div_ceil 48 64)) × (48 < length (replicate 64 1))
unfolding hkdf_sha512
length-hkdf_sha512_example =
    length-hkdf_sha512 hmac hmac-Is64 [] buffer [] 48 (replicate 64 1) (omega arith) (omega arith)
      refl

hkdf_sha512_too_long_example : hkdf_sha512 hmac [] buffer [] 131073 ≡ err "Unsupported: too big L"
hkdf_sha512_too_long_example = hkdf_sha512_too_long hmac [] buffer [] 131073 (omega arith)

eft_aes_derivation-agree_example :
    (k : AesKeyAndIv) × (eft_aes_derivation_native rfc_subtle buffer [] (7 ∷ []) 8 ≡ ok k)
    × (eft_aes_derivation hmac buffer [] (7 ∷ []) 8 ≡ ok k)
    × (length k.key ≡ 32)
    × (length k.iv ≡ 16)
eft_aes_derivation-agree_example =
    eft_aes_derivation-agree rfc_subtle hmac hmac-Is64 rfc_subtle-DerivesRfc buffer [] (7 ∷ []) 8

aes_info-ne-rsa_info_example : aes_info (7 ∷ []) 1 ≢ rsa_info (7 ∷ []) 3 2
aes_info-ne-rsa_info_example = aes_info-ne-rsa_info (7 ∷ []) (7 ∷ []) 1 3 2

rsa_derivation_collision_example :
    (256 * 1 + 2 ≢ 1)
    × (eft_rsa_derivation_aux toy_forge
          (hkdf_sha512 hmac)
          none
          buffer
          []
          (7 ∷ [])
          (256 * 1 + 2)
          3
          true
        ≡ eft_rsa_derivation_aux toy_forge
            (hkdf_sha512 hmac)
            none
            buffer
            []
            (7 ∷ [])
            1
            (256 * 2 + 3)
            true)
rsa_derivation_collision_example =
    rsa_derivation_collision toy_forge (hkdf_sha512 hmac) none buffer [] (7 ∷ []) 1 2 3 true
      (omega arith) (omega arith) (omega arith) (omega arith)

abbrev key_and_iv : AesKeyAndIv
key_and_iv = record { key = replicate 32 1; iv = replicate 16 2 }

aes_decrypt-encrypt_example :
    (file : Bytes) × (aes_encrypt_native toy_subtle buffer key_and_iv ≡ ok file)
    × (aes_decrypt_native toy_subtle file key_and_iv.key ≡ ok buffer)
aes_decrypt-encrypt_example =
    aes_decrypt-encrypt toy_subtle toy_aes buffer key_and_iv (omega arith) (omega arith)

abbrev stored : Bytes
stored = replicate 16 2 ++ (replicate 64 3 ++ (replicate 16 2 ++ buffer))

aes_decrypt_accepts_example :
    (80 ≤ length stored)
    × (toy_subtle.digest buffer ≡ slice 16 80 stored)
    × ((ck : Bytes) × (toy_subtle.import_aes (replicate 32 1) ≡ ok ck)
        × (toy_subtle.aes_decrypt ck (slice 0 16 stored) (drop 80 stored) ≡ ok buffer))
unfolding aes_decrypt_native buffer_to_hex
aes_decrypt_accepts_example =
    aes_decrypt_accepts toy_subtle toy_aes stored (replicate 32 1) buffer (omega arith) refl

rsa_decrypt_native-encrypt_example :
    (c : Bytes) × (rsa_encrypt_native toy_subtle [] buffer
        (rsa_generate_key_pair toy_forge buffer).pub_key
      ≡ ok c)
    × IsBytes c
    × (rsa_decrypt_native toy_subtle c (rsa_generate_key_pair toy_forge buffer).priv_key
        ≡ ok buffer)
rsa_decrypt_native-encrypt_example =
    rsa_decrypt_native-encrypt toy_subtle toy_forge toy_rsa buffer [] buffer (omega arith)
      (omega arith)
