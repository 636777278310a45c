-- ===== src/Processing/HiddenFile/Password.antt =====
-- The password of a hidden file: the creator derives it, a buyer gets it from the last transfer.
use file_market.Base.{
  ℕ, ◌≤◌, ◌<◌, String, ◌≡◌, refl, ◌≢◌, inl, inr, Option, none, some, ◌∷◌, arith, eq_iff, ==_refl,
  Bool-cases, str_eq_ne, length, drop, length-take, length-drop, All-take,
}
use file_market.Base.Result.{ok}
use file_market.Crypto.Bytes.{Bytes, IsBytes, buffer_to_ether_hex}
use file_market.Crypto.Platform.{AesKeyAndIv, AesLaws, DeriveLaws}
use file_market.Crypto.Bytes.RoundTrip.{hex_to_buffer-inverts}
use file_market.Crypto.Derivation.{
  slice, aes_info, rsa_info, eft_aes_derivation_native, rsa_generate_key_pair,
  eft_rsa_derivation_native,
}
use file_market.Crypto.Aes.{aes_decrypt_native}
use file_market.Crypto.Aes.RoundTrip.{aes_decrypt-encrypt}
use file_market.Crypto.Rsa.{RsaLaws, rsa_decrypt_native-encrypt}
use file_market.Processing.HiddenFile.{
  FileMeta, File, decrypted, BlockchainData, Crypto, HiddenFileOwner, HiddenFileBuyer, FilesCache,
  cache_get, new_file, rsa_pair, get_file_password, decrypt_file, encrypt_file,
  encrypt_file_password, init_buy,
}

-- The platform does what it documents, and the worker raises no error event.
pub record CryptoLaws (c : Crypto) : Type 0 where
  pub aes : AesLaws c.subtle
  pub derive : DeriveLaws c.subtle
  pub rsa : RsaLaws c.subtle c.forge
  pub worker_runs : c.worker_error ≡ none

-- Whether the owner is the token's creator, by what the backend answers and `getAddress`.
abbrev pub CreatedBy : Crypto → BlockchainData → HiddenFileOwner → String → Type 0
CreatedBy c chain o address =
    (creator : String) × (chain.get_token_creator o.collection_address o.token_id ≡ ok creator)
    × (c.get_address creator ≡ ok address)

-- the buyer's side of an account's view of a token
abbrev pub buyer_of : HiddenFileOwner → HiddenFileBuyer
buyer_of o = record {
  global_salt = o.global_salt;
  collection_address = o.collection_address;
  token_id = o.token_id;
}

module _ (c : Crypto) (laws : CryptoLaws c) where
  aes_key_ok :
      (seed : Bytes) (o : HiddenFileOwner)
      → (k : AesKeyAndIv) × (eft_aes_derivation_native c.subtle seed o.global_salt
            o.collection_address o.token_id
          ≡ ok k)
        × (length k.key ≡ 32)
        × (length k.iv ≡ 16)
        × IsBytes k.key
  unfolding eft_aes_derivation_native
  aes_key_ok seed o =
      let info = aes_info o.collection_address o.token_id in
      let (okm, e, len, bytes) = laws.derive.derive_ok o.global_salt seed info 48 (omega arith) in
      (
        record { key = slice 0 32 okm; iv = slice 32 48 okm },
        rw e refl,
        omega (arith, length-take 32 okm, len),
        omega (arith, length-take 16 (drop 32 okm), length-drop 32 okm, len),
        All-take (λ b. b < 256) 32 okm bytes,
      )

  rsa_pair_ok :
      (seed global_salt collection_address : Bytes) (token_id deal_number : ℕ)
      → (okm : Bytes) × (rsa_pair c seed global_salt collection_address token_id deal_number
          ≡ ok (rsa_generate_key_pair c.forge okm))
  unfolding rsa_pair eft_rsa_derivation_native
  rsa_pair_ok seed global_salt collection_address token_id deal_number =
      let info = rsa_info collection_address token_id deal_number in
      let (okm, e, _, _) = laws.derive.derive_ok global_salt seed info 512 (omega arith) in
      let runs = laws.worker_runs in
      (okm, rw e (elim (Bool-cases c.is_firefox) [ inl p ↦ rw p | inr p ↦ rw p (rw runs) ]))

  -- The creator of a token, with a seed, gets a password of 32 bytes; encrypting a file returns a
  -- result, and that password decrypts it.
  pub creator-password :
      (chain : BlockchainData) (seed : Bytes) (o : HiddenFileOwner)
      → CreatedBy c chain o o.address
      → (password : Bytes) × (get_file_password c chain (some seed) o ≡ ok password)
        × (length password ≡ 32)
        × IsBytes password
        × ((file_bytes : Bytes)
            → (encrypted : Bytes) × (encrypt_file c (some seed) o file_bytes ≡ ok encrypted)
              × (aes_decrypt_native c.subtle encrypted password ≡ ok file_bytes))
  unfolding get_file_password encrypt_file
  creator-password chain seed o (creator, is_creator, is_address) =
      let (k, e, hk, hi, hb) = aes_key_ok seed o in
      (
        k.key,
        rw (is_creator) (rw is_address (rw ((eq_iff o.address o.address).1 refl) (rw e refl))),
        hk,
        hb,
        λ file_bytes.
            let (file, p, q) = aes_decrypt-encrypt c.subtle laws.aes file_bytes k hk hi in
            (file, rw e p, q),
      )

  -- A sale hands the password over. If the seller has it (of 382 bytes or fewer) and the buyer's
  -- account starts a purchase when `deal` transfers were made, then the seller's encryption to the
  -- buyer's public key returns a text that, reported as the last transfer of that deal number of a
  -- token that another account created, gives the buyer the same password.
  pub sale-hands_over :
      (chain chain' : BlockchainData) (seed seed' random password : Bytes)
      (seller buyer : HiddenFileOwner) (deal : ℕ) (creator : String)
      → get_file_password c chain (some seed) seller ≡ ok password
      → IsBytes password
      → length password ≤ 382
      → chain.get_transfer_count buyer.collection_address buyer.token_id ≡ ok deal
      → CreatedBy c chain' buyer creator
      → buyer.address ≢ creator
      → (public_key encrypted : Bytes) × (init_buy c chain (some seed') (buyer_of buyer)
          ≡ ok public_key)
        × (encrypt_file_password c chain (some seed) seller random public_key ≡ ok encrypted)
        × (chain'.get_last_transfer_info buyer.collection_address buyer.token_id
              ≡ ok (buffer_to_ether_hex encrypted, deal)
            → get_file_password c chain' (some seed') buyer ≡ ok password)
  unfolding init_buy encrypt_file_password
  sale-hands_over chain chain' seed seed' random password seller buyer deal creator has are_bytes
        fits count (raw_creator, is_creator, is_address) other =
      let (okm, e) =
        rsa_pair_ok seed' buyer.global_salt buyer.collection_address buyer.token_id deal in
      let (encrypted, p, bytes, q) =
        rsa_decrypt_native-encrypt c.subtle c.forge laws.rsa okm random password are_bytes fits in
      (
        (rsa_generate_key_pair c.forge okm).pub_key,
        encrypted,
        rw count (rw e refl),
        rw has p,
        λ info.
            unfold get_file_password in
            rw is_creator (
              rw is_address (
                rw (str_eq_ne buyer.address creator other)
                  (rw info (rw e (rw ((hex_to_buffer-inverts encrypted bytes).0) q))))),
      )

  decrypt_file-hit :
      (chain : BlockchainData) (seed : Option Bytes) (encrypted : Bytes) (o : HiddenFileOwner)
      (cache : FilesCache) (m : Option FileMeta) (f : File)
      → cache_get o.token_full_id_args cache ≡ some f
      → decrypt_file c chain seed o cache encrypted m ≡ (decrypted f, cache)
  unfolding decrypt_file
  decrypt_file-hit chain seed encrypted o cache m f hit = rw (hit, decrypt_file)

  pub decrypt_file-miss :
      (chain : BlockchainData) (seed password encrypted bytes : Bytes) (o : HiddenFileOwner)
      (cache : FilesCache) (m : Option FileMeta)
      → get_file_password c chain (some seed) o ≡ ok password
      → aes_decrypt_native c.subtle encrypted password ≡ ok bytes
      → cache_get o.token_full_id_args cache ≡ none
      → decrypt_file c chain (some seed) o cache encrypted m
        ≡ (decrypted (new_file bytes m), (o.token_full_id_args, new_file bytes m) ∷ cache)
  unfolding decrypt_file
  decrypt_file-miss chain seed password encrypted bytes o cache m has opens missing =
      rw (missing, decrypt_file) (rw (has, decrypt_file) (rw (opens, decrypt_file)))

  -- A file that was encrypted under the password is decrypted by an owner who gets the password
  -- and has no cached file: the result is named and typed as the metadata say, and any later call
  -- of that owner on the new cache gives the same result and cache, whatever it is given.
  decrypt_file-caches :
      (chain : BlockchainData) (seed password encrypted bytes : Bytes) (o : HiddenFileOwner)
      (cache : FilesCache) (m : Option FileMeta) (chain' : BlockchainData) (seed' : Option Bytes)
      (other : Bytes) (m' : Option FileMeta)
      → get_file_password c chain (some seed) o ≡ ok password
      → aes_decrypt_native c.subtle encrypted password ≡ ok bytes
      → cache_get o.token_full_id_args cache ≡ none
      → ((decrypt_file c chain (some seed) o cache encrypted m).0 ≡ decrypted (new_file bytes m))
        × (decrypt_file c chain' seed' o
              (decrypt_file c chain (some seed) o cache encrypted m).1
              other
              m'
            ≡ decrypt_file c chain (some seed) o cache encrypted m)
  decrypt_file-caches chain seed password encrypted bytes o cache m chain' seed' other m' has opens
        missing =
      let f = new_file bytes m in
      let k = o.token_full_id_args in
      rw (decrypt_file-miss chain seed password encrypted bytes o cache m has opens missing)
        (refl, decrypt_file-hit chain' seed' other o ((k, f) ∷ cache) m' f (rw (==_refl k) refl))
