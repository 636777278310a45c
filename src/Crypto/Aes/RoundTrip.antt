-- ===== src/Crypto/Aes/RoundTrip.antt =====
-- What decryption accepts, and that it undoes encryption.
use file_market.Base.{
  ℕ, ◌≤◌, ◌<◌, ◌≡◌, refl, sym, ap, ◌∙◌, inl, inr, List, ◌++◌, arith, ltb, Bool-cases, ltb_of_ge,
  ge_of_ltb, length, take, drop, length-append, take-append_length, drop-append_length, All-take,
  All-drop,
}
use mathlib.Core.List.{append_assoc}
use file_market.Base.Result.{ok, ◌>>=◌, >>=-eq-ok, if-eq-ok}
use file_market.Crypto.Bytes.{Bytes, IsBytes, text_eq, from_hex, buffer_to_hex}
use file_market.Crypto.Platform.{AesKeyAndIv, Subtle, AesLaws}
use file_market.Crypto.Bytes.RoundTrip.{from_hex-to_hex, text_eq_iff}
use file_market.Crypto.Derivation.{slice}
use file_market.Crypto.Aes.{check_hash, aes_encrypt_native, decrypt_parts, aes_decrypt_native}

take-append_at {ℓ} : {A : Type ℓ} (n : ℕ) (xs ys : List A) → length xs ≡ n → take n (xs ++ ys) ≡ xs
take-append_at n xs ys h = ap (λ k. take k (xs ++ ys)) (sym h) ∙ take-append_length xs ys

drop-append_at {ℓ} : {A : Type ℓ} (n : ℕ) (xs ys : List A) → length xs ≡ n → drop n (xs ++ ys) ≡ ys
drop-append_at n xs ys h = ap (λ k. drop k (xs ++ ys)) (sym h) ∙ drop-append_length xs ys

cut_parts :
    (iv hash message : Bytes)
    → length iv ≡ 16
    → length hash ≡ 64
    → let file = iv ++ (hash ++ message) in
      (slice 0 16 file ≡ iv) × (slice 16 80 file ≡ hash) × (drop 80 file ≡ message)
cut_parts iv hash message hi hh =
    let rest = hash ++ message in
    (
      take-append_at 16 iv rest hi,
      ap (take 64) (drop-append_at 16 iv rest hi) ∙ take-append_at 64 hash message hh,
      ap (drop 80) (sym (append_assoc iv hash message))
          ∙ drop-append_at 80 (iv ++ hash) message (omega (arith, length-append iv hash)),
    )

module _ (s : Subtle) where
  -- Decryption of a file that is long enough runs on its three parts.
  aes_decrypt-parts :
      (file key iv hash message : Bytes)
      → 80 ≤ length file
      → (slice 0 16 file ≡ iv) × (slice 16 80 file ≡ hash) × (drop 80 file ≡ message)
      → aes_decrypt_native s file key ≡ decrypt_parts s key iv hash message
  unfolding aes_decrypt_native
  aes_decrypt-parts file key iv hash message h (p, q, r) =
      rw (ltb_of_ge (length file) 80 h) (λ i. decrypt_parts s key (p i) (q i) (r i))

  decrypt_parts-ok :
      (key iv hash message d : Bytes) (ck : s.CryptoKey)
      → s.import_aes key ≡ ok ck
      → s.aes_decrypt ck iv message ≡ ok d
      → s.digest d ≡ hash
      → decrypt_parts s key iv hash message ≡ ok d
  unfolding decrypt_parts
  decrypt_parts-ok key iv hash message d ck imported decrypted same = rw imported (
      rw decrypted (
        rw (
          (text_eq_iff (buffer_to_hex (s.digest d)) (buffer_to_hex hash)).1
            (ap buffer_to_hex same))))

module _ (s : Subtle) (laws : AesLaws s) where
  -- With a key of 32 bytes and a vector of 16 bytes, encryption returns a file, and decrypting that
  -- file with the key alone returns the data.
  pub aes_decrypt-encrypt :
      (data_bytes : Bytes) (k : AesKeyAndIv)
      → length k.key ≡ 32
      → length k.iv ≡ 16
      → (file : Bytes) × (aes_encrypt_native s data_bytes k ≡ ok file)
        × (aes_decrypt_native s file k.key ≡ ok data_bytes)
  unfolding aes_encrypt_native
  aes_decrypt-encrypt data_bytes k hk hi =
      let (ck, imported) = laws.import_aes_ok k.key hk in
      let (c, encrypted) = laws.encrypt_ok ck k.iv data_bytes hi in
      let hash = s.digest data_bytes in
      let len = laws.digest_length data_bytes in
      (
        k.iv ++ (hash ++ c),
        rw imported (rw encrypted refl),
        aes_decrypt-parts s (k.iv ++ (hash ++ c)) k.key k.iv hash c
              (omega (arith, length-append k.iv (hash ++ c), length-append hash c))
              (cut_parts k.iv hash c hi len)
            ∙ decrypt_parts-ok s k.key k.iv hash c data_bytes ck imported
                (laws.decrypt-encrypt ck k.iv data_bytes c encrypted) refl,
      )

  decrypt_parts_accepts :
      (key iv hash message d : Bytes)
      → IsBytes hash
      → decrypt_parts s key iv hash message ≡ ok d
      → (ck : s.CryptoKey) × (s.import_aes key ≡ ok ck)
        × (s.aes_decrypt ck iv message ≡ ok d)
        × (s.digest d ≡ hash)
  unfolding decrypt_parts buffer_to_hex
  decrypt_parts_accepts key iv hash message d bytes e =
      let (ck, imported, e') =
        >>=-eq-ok (s.import_aes key)
          (λ crypto_key. s.aes_decrypt crypto_key iv message >>= check_hash s hash) e in
      let (d', decrypted, checked) =
        >>=-eq-ok (s.aes_decrypt ck iv message) (check_hash s hash) e' in
      let (equal, same) =
        if-eq-ok (text_eq (buffer_to_hex (s.digest d')) (buffer_to_hex hash)) d' d
          "Decrypted data hash does not match" checked in
      let hex : buffer_to_hex (s.digest d') ≡ buffer_to_hex hash =
        (text_eq_iff (buffer_to_hex (s.digest d')) (buffer_to_hex hash)).0 equal in
      (
        ck,
        imported,
        decrypted ∙ ap (λ x. ok x) same,
        ap s.digest (sym same)
            ∙ sym (from_hex-to_hex (s.digest d') (laws.digest_bytes d'))
            ∙ ap from_hex hex
            ∙ from_hex-to_hex hash bytes,
      )

  -- Whatever decryption returns was decrypted, under the imported key and the vector in the first
  -- 16 bytes, from what follows byte 80 of a file of at least 80 bytes, and its hash is the one that
  -- stands between: a file whose hash does not fit its content is never accepted.
  pub aes_decrypt_accepts :
      (file key d : Bytes)
      → IsBytes file
      → aes_decrypt_native s file key ≡ ok d
      → (80 ≤ length file)
        × (s.digest d ≡ slice 16 80 file)
        × ((ck : s.CryptoKey) × (s.import_aes key ≡ ok ck)
            × (s.aes_decrypt ck (slice 0 16 file) (drop 80 file) ≡ ok d))
  unfolding aes_decrypt_native
  aes_decrypt_accepts file key d bytes e = elim (Bool-cases (ltb (length file) 80)) [
    | inl short ↦ let e' = rw short at e in cc
    | inr long ↦
        let (ck, imported, decrypted, same) =
          decrypt_parts_accepts key (slice 0 16 file) (slice 16 80 file) (drop 80 file) d
            (All-take (λ b. b < 256) 64 (drop 16 file) (All-drop (λ b. b < 256) 16 file bytes))
            (rw long at e) in
        (ge_of_ltb (length file) 80 long, same, (ck, imported, decrypted))
  ]
