-- ===== src/Crypto/Hkdf/Rfc.antt =====
-- The derivation against the text of RFC 5869, which counts octets.
use file_market.Base.{
  ℕ, zero, suc, ◌+◌, ◌*◌, ◌%◌, ◌≤◌, ◌<◌, ◌≡◌, refl, sym, ap, ◌∙◌, ◌≢◌, false, List, [], ◌∷◌, ◌++◌,
  arith, ltb, length, take, length-append, length-take,
}
use file_market.Base.Result.{ok, err}
use file_market.Crypto.Bytes.{Bytes}
use Prim.Native.Nat.{min}
use file_market.Crypto.Config.{hash_length}
use file_market.Crypto.Platform.{HmacFunction}
use file_market.Crypto.Hkdf.{div_ceil, expand_blocks, hkdf_sha512}

-- What the code computes: the number of a block is cut to an octet.
block_of : HmacFunction → Bytes → Bytes → ℕ → Bytes
block_of hmac prk info zero = []
block_of hmac prk info (suc n) = hmac prk (block_of hmac prk info n ++ info ++ (suc n % 256) ∷ [])

-- The blocks of the code after the `i`th
blocks_after : HmacFunction → Bytes → Bytes → ℕ → ℕ → Bytes
unfolding block_of
blocks_after hmac prk info i zero = []
blocks_after hmac prk info i (suc n) =
    block_of hmac prk info (suc i) ++ blocks_after hmac prk info (suc i) n

-- T(0) is empty, and T(n) = HMAC(PRK, T(n - 1) | info | n), where n is an octet, at most 255.
pub rfc_block : HmacFunction → Bytes → Bytes → ℕ → Bytes
rfc_block hmac prk info zero = []
rfc_block hmac prk info (suc n) = hmac prk (rfc_block hmac prk info n ++ info ++ suc n ∷ [])

-- T(i + 1) | … | T(i + n)
pub rfc_blocks_after : HmacFunction → Bytes → Bytes → ℕ → ℕ → Bytes
unfolding rfc_block
rfc_blocks_after hmac prk info i zero = []
rfc_blocks_after hmac prk info i (suc n) =
    rfc_block hmac prk info (suc i) ++ rfc_blocks_after hmac prk info (suc i) n

-- The first `octets` octets of T(1) | T(2) | … | T(N), with N = ceil(octets / 64), which RFC 5869 has
-- for at most 255 * 64 octets.
unfoldable pub rfc_hkdf : HmacFunction → Bytes → Bytes → Bytes → ℕ → Bytes
unfolding rfc_blocks_after
rfc_hkdf hmac salt ikm info octets =
    take octets (rfc_blocks_after hmac (hmac salt ikm) info 0 (div_ceil octets 64))

block_of-rfc :
    (hmac : HmacFunction) (prk info : Bytes) (n : ℕ)
    → n ≤ 255
    → block_of hmac prk info n ≡ rfc_block hmac prk info n
unfolding block_of rfc_block
block_of-rfc hmac prk info zero h = refl
block_of-rfc hmac prk info (suc n) h =
    let small : suc n % 256 ≡ suc n = omega (arith, h) in
    rw (small, block_of-rfc hmac prk info n (omega (arith, h))) refl

blocks_after-rfc :
    (hmac : HmacFunction) (prk info : Bytes) (i n : ℕ)
    → i + n ≤ 255
    → blocks_after hmac prk info i n ≡ rfc_blocks_after hmac prk info i n
unfolding blocks_after rfc_blocks_after
blocks_after-rfc hmac prk info i zero h = refl
blocks_after-rfc hmac prk info i (suc n) h =
    rw
      (
        block_of-rfc hmac prk info (suc i) (omega (arith, h)),
        blocks_after-rfc hmac prk info (suc i) n (omega (arith, h)),
      )
      refl

expand_blocks-eq :
    (hmac : HmacFunction) (prk info : Bytes) (n i : ℕ)
    → expand_blocks hmac prk info n (suc i) (block_of hmac prk info i)
      ≡ blocks_after hmac prk info i n
unfolding expand_blocks blocks_after
expand_blocks-eq hmac prk info zero i = refl
expand_blocks-eq hmac prk info (suc n) i =
    ap (λ r. block_of hmac prk info (suc i) ++ r) (expand_blocks-eq hmac prk info n (suc i))

abbrev pub Is64 : HmacFunction → Type 0
Is64 hmac = (k p : Bytes) → length (hmac k p) ≡ 64

length-blocks_after :
    (hmac : HmacFunction) (prk info : Bytes) (n i : ℕ)
    → Is64 hmac
    → length (blocks_after hmac prk info i n) ≡ 64 * n
unfolding blocks_after
length-blocks_after hmac prk info zero i h = omega arith
length-blocks_after hmac prk info (suc n) i h = omega (
  arith,
  length-append (block_of hmac prk info (suc i)) (blocks_after hmac prk info (suc i) n),
  h prk (block_of hmac prk info i ++ info ++ (suc i % 256) ∷ []),
  length-blocks_after hmac prk info n (suc i) h,
)

pub take-take {ℓ} : {A : Type ℓ} (m n : ℕ) (xs : List A) → m ≤ n → take m (take n xs) ≡ take m xs
take-take zero n xs h = refl
take-take (suc m) zero xs h = absurd (omega arith)
take-take (suc m) (suc n) [] h = refl
take-take (suc m) (suc n) (x ∷ xs) h = ap (λ r. x ∷ r) (take-take m n xs (omega arith))

pub take-all {ℓ} : {A : Type ℓ} (n : ℕ) (xs : List A) → length xs ≤ n → take n xs ≡ xs
take-all zero [] h = refl
take-all zero (x ∷ xs) h = absurd (omega arith)
take-all (suc n) [] h = refl
take-all (suc n) (x ∷ xs) h = ap (λ r. x ∷ r) (take-all n xs (omega arith))

-- What the code computes for a request of `octets` octets: the blocks, cut at eight times that.
hkdf_sha512-blocks :
    (hmac : HmacFunction) (salt ikm info : Bytes) (octets : ℕ)
    → octets ≤ 256 * 64
    → hkdf_sha512 hmac salt ikm info (8 * octets)
      ≡ ok (take (8 * octets) (blocks_after hmac (hmac salt ikm) info 0 (div_ceil octets 64)))
unfolding hkdf_sha512 block_of
hkdf_sha512-blocks hmac salt ikm info octets h =
    let fits : ltb (256 * 512) (8 * octets) ≡ false = ground arith in
    let rounds : div_ceil (8 * octets) 512 ≡ div_ceil octets 64 = omega arith in
    rw (fits, rounds)
      (ap (λ r. ok (take (8 * octets) r))
        (expand_blocks-eq hmac (hmac salt ikm) info (div_ceil octets 64) 0))

module _ (hmac : HmacFunction) (is_64 : Is64 hmac) (salt ikm info : Bytes) (octets : ℕ) where
  -- Given an HMAC of 64 bytes and a request of at most 255 blocks, which is what RFC 5869 allows, the
  -- derivation returns a value whose first `octets` octets are the output keying material of the RFC.
  pub hkdf_sha512-rfc_prefix :
      octets ≤ 255 * 64
      → (okm : Bytes) × (hkdf_sha512 hmac salt ikm info (8 * octets) ≡ ok okm)
        × (take octets okm ≡ rfc_hkdf hmac salt ikm info octets)
  unfolding rfc_hkdf
  hkdf_sha512-rfc_prefix h =
      let bs = blocks_after hmac (hmac salt ikm) info 0 (div_ceil octets 64) in
      (
        take (8 * octets) bs,
        hkdf_sha512-blocks hmac salt ikm info octets (omega (arith, h)),
        take-take octets (8 * octets) bs (omega arith)
            ∙ ap (take octets) (
                blocks_after-rfc hmac (hmac salt ikm) info 0 (div_ceil octets 64)
                  (omega (arith, h))),
      )

  hkdf_sha512-cut :
      (okm : Bytes)
      → octets ≤ 256 * 64
      → hkdf_sha512 hmac salt ikm info (8 * octets) ≡ ok okm
      → okm ≡ take (8 * octets) (blocks_after hmac (hmac salt ikm) info 0 (div_ceil octets 64))
  hkdf_sha512-cut okm h e = cc (hkdf_sha512-blocks hmac salt ikm info octets h)

  blocks_length :
      length (blocks_after hmac (hmac salt ikm) info 0 (div_ceil octets 64))
      ≡ 64 * div_ceil octets 64
  blocks_length = length-blocks_after hmac (hmac salt ikm) info (div_ceil octets 64) 0 is_64

  -- For a whole number of blocks of 64 octets, 255 at most, the value is exactly the output keying
  -- material of RFC 5869.
  pub hkdf_sha512-whole_blocks :
      (okm : Bytes)
      → octets ≤ 255 * 64
      → octets % 64 ≡ 0
      → hkdf_sha512 hmac salt ikm info (8 * octets) ≡ ok okm
      → okm ≡ rfc_hkdf hmac salt ikm info octets
  unfolding rfc_hkdf
  hkdf_sha512-whole_blocks okm h whole e =
      let bs = blocks_after hmac (hmac salt ikm) info 0 (div_ceil octets 64) in
      let len = blocks_length in
      hkdf_sha512-cut okm (omega (arith, h)) e
      ∙ take-all (8 * octets) bs (omega arith)
      ∙ sym (take-all octets bs (omega arith))
      ∙ ap (take octets)
          (blocks_after-rfc hmac (hmac salt ikm) info 0 (div_ceil octets 64) (omega (arith, h)))

  -- For any other number of octets the value is longer than the request: its length is that of the
  -- whole blocks, or eight times the octets if that is less.
  pub length-hkdf_sha512 :
      (okm : Bytes)
      → octets ≤ 256 * 64
      → octets % 64 ≢ 0
      → hkdf_sha512 hmac salt ikm info (8 * octets) ≡ ok okm
      → (length okm ≡ min (8 * octets) (64 * div_ceil octets 64)) × (octets < length okm)
  length-hkdf_sha512 okm h part e =
      let bs = blocks_after hmac (hmac salt ikm) info 0 (div_ceil octets 64) in
      let len = blocks_length in
      let same : length okm ≡ length (take (8 * octets) bs) = ap length (hkdf_sha512-cut okm h e) in
      (
        omega (arith, same, length-take (8 * octets) bs),
        omega (arith, same, length-take (8 * octets) bs),
      )

-- A request of more than 256 blocks is refused.
pub hkdf_sha512_too_long :
    (hmac : HmacFunction) (salt ikm info : Bytes) (bits : ℕ)
    → 256 * hash_length < bits
    → hkdf_sha512 hmac salt ikm info bits ≡ err "Unsupported: too big L"
unfolding hkdf_sha512
hkdf_sha512_too_long hmac salt ikm info bits h = ground arith
