-- ===== src/Crypto/Derivation/Info.antt =====
-- The `info` texts that keep derived keys apart: how far they determine the kind of key, the token
-- and the deal.
use file_market.Base.{
  ℕ, ◌+◌, ◌*◌, ◌<◌, String, ◌≡◌, refl, sym, ap, ◌∙◌, ◌≢◌, Bool, Option, List, [], ◌∷◌, ◌++◌, arith,
  if◌then◌else◌, length, length-append,
}
use file_market.Crypto.Bytes.{Bytes, number_to_buffer}
use file_market.Crypto.Bytes.Digits.{number_to_buffer-byte, number_to_buffer-push}
use mathlib.Core.List.{append_assoc}
use file_market.Crypto.Bytes.Numbers.{number_to_buffer-injective}
use file_market.Base.Result.{ok, ◌>>=◌}
use file_market.Crypto.Config.{rsa_modulus_length}
use file_market.Crypto.Platform.{HkdfFunction, Forge}
use file_market.Crypto.Derivation.{
  aes_info, rsa_info, rsa_generate_key_pair, rsa_worker, eft_rsa_derivation_aux,
}

pub cons_tail {ℓ} : {A : Type ℓ} (x y : A) (xs ys : List A) → x ∷ xs ≡ y ∷ ys → xs ≡ ys
cons_tail x y xs ys e = cc

pub append_cancel_left {ℓ} : {A : Type ℓ} (p xs ys : List A) → p ++ xs ≡ p ++ ys → xs ≡ ys
append_cancel_left [] xs ys e = e
append_cancel_left (a ∷ p) xs ys e =
    append_cancel_left p xs ys (cons_tail a a (p ++ xs) (p ++ ys) e)

-- Two texts with one more element at the end agree in both parts.
snoc_cancel : (a b : ℕ) (xs ys : List ℕ) → xs ++ a ∷ [] ≡ ys ++ b ∷ [] → (xs ≡ ys) × (a ≡ b)
snoc_cancel a b [] [] e = (refl, ground arith)
snoc_cancel a b [] (y ∷ ys) e = absurd (omega (arith, ap length e, length-append ys (b ∷ [])))
snoc_cancel a b (x ∷ xs) [] e = absurd (omega (arith, ap length e, length-append xs (a ∷ [])))
snoc_cancel a b (x ∷ xs) (y ∷ ys) e =
    let h = snoc_cancel a b xs ys (cons_tail x y (xs ++ a ∷ []) (ys ++ b ∷ []) e) in (cc (h.0), h.1)

-- The two kinds of key never share an `info`, for any collections, tokens and deal.
pub aes_info-ne-rsa_info :
    (collection_address other : Bytes) (token_id token_id' deal_number : ℕ)
    → aes_info collection_address token_id ≢ rsa_info other token_id' deal_number
aes_info-ne-rsa_info collection_address other token_id token_id' deal_number e = ground arith

-- The AES `info` determines the token of a collection.
aes_info-injective :
    (collection_address : Bytes) (token_id token_id' : ℕ)
    → aes_info collection_address token_id ≡ aes_info collection_address token_id'
    → token_id ≡ token_id'
aes_info-injective collection_address token_id token_id' e =
    number_to_buffer-injective token_id token_id' (
      append_cancel_left (1 ∷ collection_address) (number_to_buffer token_id)
        (number_to_buffer token_id') e)

-- For deals below 256 the RSA `info` determines the token of a collection and the deal.
rsa_info-injective :
    (collection_address : Bytes) (token_id token_id' deal_number deal_number' : ℕ)
    → deal_number < 256
    → deal_number' < 256
    → rsa_info collection_address token_id deal_number
      ≡ rsa_info collection_address token_id' deal_number'
    → (token_id ≡ token_id') × (deal_number ≡ deal_number')
rsa_info-injective collection_address token_id token_id' deal_number deal_number' h h' e =
    let cancelled =
      append_cancel_left (2 ∷ collection_address)
        (number_to_buffer token_id ++ number_to_buffer deal_number)
        (number_to_buffer token_id' ++ number_to_buffer deal_number') e in
    let (tokens, deals) =
      snoc_cancel deal_number deal_number' (number_to_buffer token_id) (number_to_buffer token_id')
        (ap (λ r. number_to_buffer token_id ++ r) (sym (number_to_buffer-byte deal_number h))
          ∙ cancelled
          ∙ ap (λ r. number_to_buffer token_id' ++ r) (number_to_buffer-byte deal_number' h')) in
    (number_to_buffer-injective token_id token_id' tokens, deals)

-- The token and the deal are joined with no length between them, so a byte can be moved from one
-- to the other.
rsa_info_shift :
    (collection_address : Bytes) (t k d : ℕ)
    → 0 < t
    → 0 < k
    → k < 256
    → d < 256
    → rsa_info collection_address (256 * t + k) d ≡ rsa_info collection_address t (256 * k + d)
rsa_info_shift collection_address t k d ht hk lk ld =
    let left : number_to_buffer (256 * t + k) ≡ number_to_buffer t ++ k ∷ [] =
      number_to_buffer-push t k ht lk in
    let right : number_to_buffer (256 * k + d) ≡ k ∷ d ∷ [] =
      number_to_buffer-push k d hk ld ∙ ap (λ r. r ++ d ∷ []) (number_to_buffer-byte k lk) in
    ap (λ r. 2 ∷ (collection_address ++ r))
      (ap (λ r. r ++ number_to_buffer d) left
        ∙ ap (λ r. (number_to_buffer t ++ k ∷ []) ++ r) (number_to_buffer-byte d ld)
        ∙ append_assoc (number_to_buffer t) (k ∷ []) (d ∷ [])
        ∙ ap (λ r. number_to_buffer t ++ r) (sym right))

-- Two deals of different tokens of a collection with one key pair: for positive `t`, `0 < k < 256`
-- and `d < 256`, deal `d` of token `256 * t + k` gets the result of deal `256 * k + d` of token `t`.
pub rsa_derivation_collision :
    (f : Forge) (hkdf : HkdfFunction) (worker_error : Option String) (seed global_salt : Bytes)
    (collection_address : Bytes) (t k d : ℕ) (disable_worker : Bool)
    → 0 < t
    → 0 < k
    → k < 256
    → d < 256
    → (256 * t + k ≢ t)
      × (eft_rsa_derivation_aux f hkdf worker_error seed global_salt collection_address
            (256 * t + k)
            d
            disable_worker
          ≡ eft_rsa_derivation_aux f hkdf worker_error seed global_salt collection_address t
              (256 * k + d)
              disable_worker)
unfolding eft_rsa_derivation_aux
rsa_derivation_collision f hkdf worker_error seed global_salt collection_address t k d
      disable_worker ht hk lk ld =
    (
      omega arith,
      ap
          (λ info. hkdf global_salt seed info rsa_modulus_length >>= λ okm.
            if disable_worker
            then ok (rsa_generate_key_pair f okm)
            else rsa_worker f worker_error okm)
          (rsa_info_shift collection_address t k d ht hk lk ld),
    )
