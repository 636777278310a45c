-- ===== src/Crypto/Hkdf.antt =====
-- packages/crypto/src/lib/hkdf-sha512.ts: the key derivation function of RFC 5869 over a given HMAC.
use file_market.Base.{
  ℕ, zero, suc, ◌+◌, ◌-◌, ◌*◌, ◌/◌, ◌%◌, [], ◌∷◌, ◌++◌, ltb, if◌then◌else◌, take,
}
use file_market.Base.Result.{Result, ok, err}
use file_market.Crypto.Bytes.{Bytes}
use file_market.Crypto.Bytes.{Bytes}
use file_market.Crypto.Config.{hash_length}
use file_market.Crypto.Platform.{HmacFunction, HkdfFunction, Subtle}
pub mod Rfc

-- `Math.ceil(a / b)` for a positive `b`
abbrev pub div_ceil : ℕ → ℕ → ℕ
div_ceil a b = (a + (b - 1)) / b

module _ (hmac_f : HmacFunction) where
  unfoldable pub hkdf_extract : Bytes → Bytes → Bytes
  hkdf_extract salt ikm = hmac_f salt ikm

  -- The loop from `i` on, with the rounds left and the block `TList[i - 1]`; `Buffer.from([i])`
  -- keeps the low byte. The blocks are returned joined.
  unfoldable pub expand_blocks : Bytes → Bytes → ℕ → ℕ → Bytes → Bytes
  expand_blocks prk info zero i previous = []
  expand_blocks prk info (suc rounds) i previous =
      let t = hmac_f prk (previous ++ info ++ (i % 256) ∷ []) in
      t ++ expand_blocks prk info rounds (suc i) t

  -- `T.subarray(0, L)` counts bytes.
  unfoldable pub hkdf_expand : ℕ → Bytes → Bytes → ℕ → Result Bytes
  unfolding expand_blocks
  hkdf_expand hash_len prk info l =
      if ltb (256 * hash_len) l
      then err "Unsupported: too big L"
      else ok (take l (expand_blocks prk info (div_ceil l hash_len) 1 []))

  unfoldable pub hkdf_aux : ℕ → HkdfFunction
  unfolding hkdf_extract hkdf_expand
  hkdf_aux hash_len salt ikm info l = hkdf_expand hash_len (hkdf_extract salt ikm) info l

-- With the HMAC of node-forge, and with that of the browser, as the argument.
unfoldable pub hkdf_sha512 : HmacFunction → HkdfFunction
unfolding hkdf_aux
hkdf_sha512 hmac = hkdf_aux hmac hash_length

-- The browser imports the key material and derives the bits itself.
unfoldable pub hkdf_sha512_native : Subtle → HkdfFunction
hkdf_sha512_native s salt ikm info l = s.derive_bits salt ikm info l
