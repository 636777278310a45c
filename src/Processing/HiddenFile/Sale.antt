-- ===== src/Processing/HiddenFile/Sale.antt =====
-- Any number of sales of one token, from its creator on.
use file_market.Base.{ℕ, ◌≤◌, String, ◌≡◌, sym, ap, ◌∙◌, ◌≢◌, Option, none, some, arith, length}
use file_market.Base.Result.{ok}
use file_market.Crypto.Bytes.{Bytes, IsBytes, buffer_to_ether_hex}
use file_market.Processing.HiddenFile.{
  FileMeta, DecryptResult, decrypted, BlockchainData, Crypto, HiddenFileOwner, FilesCache,
  cache_get, new_file, get_file_password, decrypt_file, encrypt_file, encrypt_file_password,
  init_buy,
}
use file_market.Processing.HiddenFile.Password.{
  CryptoLaws, CreatedBy, buyer_of, creator-password, sale-hands_over, decrypt_file-miss,
}

-- The accounts that hold the token one after another, each with what the chain reports and the
-- seed at that time. In a sale the buyer starts the purchase, the seller encrypts the password to
-- the public key, and the chain then reports that text and deal number to the buyer.
pub data Holder (c : Crypto) (chain₀ : BlockchainData) (seed₀ : Bytes) (creator : HiddenFileOwner)
    : BlockchainData → Bytes → HiddenFileOwner → Type 0 where
  first : Holder c chain₀ seed₀ creator chain₀ seed₀ creator
  sale :
      {chain chain' : BlockchainData} {seed seed' : Bytes} {seller buyer : HiddenFileOwner}
      (random public_key encrypted : Bytes) (deal : ℕ) (address : String)
      → Holder c chain₀ seed₀ creator chain seed seller
      → chain.get_transfer_count buyer.collection_address buyer.token_id ≡ ok deal
      → init_buy c chain (some seed') (buyer_of buyer) ≡ ok public_key
      → encrypt_file_password c chain (some seed) seller random public_key ≡ ok encrypted
      → chain'.get_last_transfer_info buyer.collection_address buyer.token_id
        ≡ ok (buffer_to_ether_hex encrypted, deal)
      → CreatedBy c chain' buyer address
      → buyer.address ≢ address
      → Holder c chain₀ seed₀ creator chain' seed' buyer

ok-injective {ℓ} : {A : Type ℓ} (x y : A) → ok x ≡ ok y → x ≡ y
ok-injective x y e = cc

module _ (c : Crypto) (laws : CryptoLaws c) where
  Holder-password :
      {chain₀ : BlockchainData} {seed₀ : Bytes} {creator : HiddenFileOwner} {chain : BlockchainData}
      {seed : Bytes} {o : HiddenFileOwner} (password : Bytes)
      → get_file_password c chain₀ (some seed₀) creator ≡ ok password
      → IsBytes password
      → length password ≤ 382
      → Holder c chain₀ seed₀ creator chain seed o
      → get_file_password c chain (some seed) o ≡ ok password
  Holder-password password has are_bytes fits first = has
  Holder-password password has are_bytes fits
        (sale {chain = chain} {chain' = chain'} {seed = seed} {seed' = seed'} {seller = seller}
          {buyer = buyer} random public_key encrypted deal address before count started sent
          reported created other) =
      let (key', encrypted', p, q, gets) =
        sale-hands_over c laws chain chain' seed seed' random password seller buyer deal address
          (Holder-password password has are_bytes fits before) are_bytes fits count created other in
      let keys : key' ≡ public_key = ok-injective key' public_key (sym p ∙ started) in
      let texts : encrypted' ≡ encrypted =
        ok-injective encrypted' encrypted
          (sym q ∙ ap (encrypt_file_password c chain (some seed) seller random) keys ∙ sent) in
      gets (reported ∙ ap (λ (t : Bytes). ok (buffer_to_ether_hex t, deal)) (sym texts))

  -- What the creator of a token encrypts is returned by `encryptFile`, and every later holder, down
  -- any chain of sales, decrypts it to the same bytes, if that holder's cache has no entry yet.
  pub Holder-decrypts :
      {chain₀ : BlockchainData} {seed₀ : Bytes} {creator : HiddenFileOwner} {chain : BlockchainData}
      {seed : Bytes} {o : HiddenFileOwner} (file_bytes : Bytes) (cache : FilesCache)
      (m : Option FileMeta)
      → CreatedBy c chain₀ creator creator.address
      → Holder c chain₀ seed₀ creator chain seed o
      → cache_get o.token_full_id_args cache ≡ none
      → (encrypted : Bytes) × (encrypt_file c (some seed₀) creator file_bytes ≡ ok encrypted)
        × ((decrypt_file c chain (some seed) o cache encrypted m).0
            ≡ decrypted (new_file file_bytes m))
  Holder-decrypts {chain₀} {seed₀} {creator} {chain} {seed} {o} file_bytes cache m created holds
        missing =
      let (password, has, len, are_bytes, opens) =
        creator-password c laws chain₀ seed₀ creator created in
      let (encrypted, p, q) = opens file_bytes in
      (
        encrypted,
        p,
        ap (λ (r : DecryptResult × FilesCache). r.0)
            (decrypt_file-miss c laws chain seed password encrypted file_bytes o cache m
              (Holder-password password has are_bytes (omega arith) holds) q missing),
      )
