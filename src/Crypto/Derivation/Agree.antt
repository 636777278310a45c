-- ===== src/Crypto/Derivation/Agree.antt =====
-- The portable derivation, over an HMAC, against the native one, over `deriveBits`.
use file_market.Base.{
  ℕ, zero, suc, ◌+◌, ◌*◌, ◌≤◌, ◌≡◌, refl, sym, ap, ◌∙◌, inl, inr, Bool, none, List, [], ◌∷◌, arith,
  Bool-cases, length, take, drop, length-take, length-drop,
}
use file_market.Base.Result.{ok}
use file_market.Crypto.Bytes.{Bytes}
use file_market.Crypto.Platform.{AesKeyAndIv, RsaKeyPair, HmacFunction, Subtle, Forge}
use native.Mathlib.Nat.{zero-add, suc-add}
use file_market.Crypto.Hkdf.{hkdf_sha512}
use file_market.Crypto.Hkdf.Rfc.{
  Is64, rfc_hkdf, hkdf_sha512-rfc_prefix, hkdf_sha512-whole_blocks, length-hkdf_sha512, take-take,
}
use file_market.Crypto.Derivation.{
  slice, aes_info, rsa_info, rsa_generate_key_pair, eft_aes_derivation_native, eft_aes_derivation,
  eft_rsa_derivation_native, eft_rsa_derivation,
}

-- `deriveBits` computes the function of RFC 5869 for every whole number of octets.
abbrev pub DerivesRfc : Subtle → HmacFunction → Type 0
DerivesRfc s hmac =
    (salt ikm info : Bytes) (octets : ℕ)
    → octets ≤ 255 * 64
    → s.derive_bits salt ikm info (8 * octets) ≡ ok (rfc_hkdf hmac salt ikm info octets)

drop-take {ℓ} :
    {A : Type ℓ} (from size : ℕ) (xs : List A)
    → take size (drop from (take (from + size) xs)) ≡ take size (drop from xs)
drop-take zero size xs = rw zero-add (take-take size size xs (omega arith))
drop-take (suc from) size [] = rw suc-add refl
drop-take (suc from) size (x ∷ xs) = rw suc-add (drop-take from size xs)

-- A key and a vector cut from the first 48 bytes do not see what follows them.
aes_cut : Bytes → AesKeyAndIv
aes_cut okm = record { key = slice 0 32 okm; iv = slice 32 48 okm }

aes_cut-take : (okm : Bytes) → aes_cut okm ≡ aes_cut (take 48 okm)
unfolding aes_cut
aes_cut-take okm = λ i. record {
  key = sym (take-take 32 48 okm (omega arith)) i;
  iv = sym (drop-take 32 16 okm) i;
}

length-rfc_hkdf :
    (hmac : HmacFunction) (salt ikm info okm : Bytes)
    → Is64 hmac
    → hkdf_sha512 hmac salt ikm info (8 * 48) ≡ ok okm
    → 48 ≤ length okm
length-rfc_hkdf hmac salt ikm info okm h e =
    omega (arith, (length-hkdf_sha512 hmac h salt ikm info 48 okm (omega arith) (omega arith) e).1)

module _ (s : Subtle) (hmac : HmacFunction) (is_64 : Is64 hmac) (rfc : DerivesRfc s hmac) where
  -- Where the HMAC gives 64 bytes and `deriveBits` follows RFC 5869, the native and the portable
  -- AES derivation return the same key and vector, of 32 and 16 bytes.
  pub eft_aes_derivation-agree :
      (seed global_salt collection_address : Bytes) (token_id : ℕ)
      → (k : AesKeyAndIv) × (eft_aes_derivation_native s seed global_salt collection_address
            token_id
          ≡ ok k)
        × (eft_aes_derivation hmac seed global_salt collection_address token_id ≡ ok k)
        × (length k.key ≡ 32)
        × (length k.iv ≡ 16)
  unfolding eft_aes_derivation_native eft_aes_derivation aes_cut
  eft_aes_derivation-agree seed global_salt collection_address token_id =
      let info = aes_info collection_address token_id in
      let (okm, e, prefix) =
        hkdf_sha512-rfc_prefix hmac is_64 global_salt seed info 48 (omega arith) in
      let long : 48 ≤ length okm = length-rfc_hkdf hmac global_salt seed info okm is_64 e in
      (
        aes_cut okm,
        rw (rfc global_salt seed info 48 (omega arith))
            (ap (λ k. ok k) (ap aes_cut (sym prefix) ∙ sym (aes_cut-take okm))),
        rw e refl,
        omega (arith, length-take 32 okm),
        omega (arith, length-take 16 (drop 32 okm), length-drop 32 okm),
      )

  -- Under the same conditions, and if the worker raises no error event, the native and the
  -- portable RSA derivation return the same key pair, whether or not the worker is disabled.
  eft_rsa_derivation-agree :
      (f : Forge) (seed global_salt collection_address : Bytes) (token_id deal_number : ℕ)
      (disable_worker : Bool)
      → (k : RsaKeyPair) × (eft_rsa_derivation_native s f none seed global_salt collection_address
            token_id deal_number disable_worker
          ≡ ok k)
        × (eft_rsa_derivation hmac f none seed global_salt collection_address token_id deal_number
            ≡ ok k)
  unfolding eft_rsa_derivation_native eft_rsa_derivation
  eft_rsa_derivation-agree f seed global_salt collection_address token_id deal_number
        disable_worker =
      let info = rsa_info collection_address token_id deal_number in
      let (okm, e, prefix) =
        hkdf_sha512-rfc_prefix hmac is_64 global_salt seed info 512 (omega arith) in
      let whole : okm ≡ rfc_hkdf hmac global_salt seed info 512 =
        hkdf_sha512-whole_blocks hmac is_64 global_salt seed info 512 okm (omega arith)
          (omega arith) e in
      (
        rsa_generate_key_pair f okm,
        rw (rfc global_salt seed info 512 (omega arith), ← whole)
            (elim (Bool-cases disable_worker) [ inl p ↦ rw p | inr p ↦ rw p ]),
        rw e refl,
      )
