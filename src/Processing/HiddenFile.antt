-- ===== src/Processing/HiddenFile.antt =====
-- HiddenFileOwner/HiddenFileOwner.ts and HiddenFileBuyer/HiddenFileBuyer.ts of
-- packages/frontend/src/app/processing. Of an error only its message is kept.
use file_market.Base.{
  ℕ, String, Bool, not, Option, none, some, List, [], ◌∷◌, str_eq, ◌==◌, if◌then◌else◌,
}
use file_market.Base.Result.{Result, ok, err, ◌>>=◌, or_throw}
use file_market.Crypto.Bytes.{Bytes, Text, hex_to_buffer}
use file_market.Crypto.Platform.{RsaKeyPair, Subtle, Forge}
use file_market.Crypto.Derivation.{eft_aes_derivation_native, eft_rsa_derivation_native}
use file_market.Crypto.Aes.{aes_encrypt_native, aes_decrypt_native}
use file_market.Crypto.Rsa.{rsa_encrypt_native, rsa_decrypt_native}
pub mod Password
pub mod Sale

-- `FileMeta` of types.ts, without the size, which the two classes do not read
pub record FileMeta : Type 0 where
  pub name : Option String
  pub mime : Option String

pub record File : Type 0 where
  pub bytes : Bytes
  pub name : String
  pub mime : Option String

pub data DecryptResult : Type 0 where
  decrypted : File → DecryptResult
  failed : String → DecryptResult

-- `IBlockchainDataProvider`: what the backend and the contracts answer at the time of a call.
pub record BlockchainData : Type 0 where
  pub get_last_transfer_info : Bytes → ℕ → Result (Text × ℕ)
  pub get_token_creator : Bytes → ℕ → Result String
  pub get_transfer_count : Bytes → ℕ → Result ℕ
  pub get_global_salt : Result Bytes

-- What both classes are built on: the platform, whether a worker raises an error event, the
-- browser, and `getAddress` of viem.
pub record Crypto : Type 1 where
  pub subtle : Subtle
  pub forge : Forge
  pub worker_error : Option String
  pub is_firefox : Bool
  pub get_address : String → Result String

-- `tokenFullIdArgs` is an array made by the constructor: its identity is a number.
pub record HiddenFileOwner : Type 0 where
  pub address : String
  pub global_salt : Bytes
  pub collection_address : Bytes
  pub token_id : ℕ
  pub token_full_id_args : ℕ

pub record HiddenFileBuyer : Type 0 where
  pub global_salt : Bytes
  pub collection_address : Bytes
  pub token_id : ℕ

-- The `WeakMap` that the owners share, by the identity of its keys.
abbrev pub FilesCache : Type 0
FilesCache = List (ℕ × File)

abbrev pub cache_get : ℕ → FilesCache → Option File
cache_get k [] = none
cache_get k ((j, v) ∷ m) = if j == k then some v else cache_get k m

abbrev pub seed_not_found : String
seed_not_found = "FileWallet seed phrase not found. Try to reconnect."

-- `assertSeed`
abbrev pub assert_seed : Option Bytes → Result Bytes
assert_seed seed = or_throw seed seed_not_found

-- `name || default`
abbrev pub or_default : Option String → String → String
or_default none d = d
or_default (some n) d = if str_eq n "" then d else n

-- `new File([decryptedFile], meta?.name || 'hidden_file', { type: meta?.type })`
abbrev pub new_file : Bytes → Option FileMeta → File
new_file bytes none = record { bytes = bytes; name = "hidden_file"; mime = none }
new_file bytes (some m) = record {
  bytes = bytes;
  name = or_default m.name "hidden_file";
  mime = m.mime;
}

module _ (c : Crypto) where
  pub rsa_pair : Bytes → Bytes → Bytes → ℕ → ℕ → Result RsaKeyPair
  rsa_pair seed global_salt collection_address token_id deal_number =
      eft_rsa_derivation_native c.subtle c.forge c.worker_error seed global_salt collection_address
        token_id deal_number c.is_firefox

  unfoldable pub get_file_password : BlockchainData → Option Bytes → HiddenFileOwner → Result Bytes
  unfolding rsa_pair
  get_file_password chain seed_now o = do
    seed ← assert_seed seed_now
    creator ← chain.get_token_creator o.collection_address o.token_id
    creator_address ← c.get_address creator
    if str_eq o.address creator_address
        then (eft_aes_derivation_native c.subtle seed o.global_salt o.collection_address o.token_id
            >>= λ key_and_iv. ok key_and_iv.key)
        else (chain.get_last_transfer_info o.collection_address o.token_id >>= λ info.
            rsa_pair seed o.global_salt o.collection_address o.token_id info.1 >>= λ pair.
            rsa_decrypt_native c.subtle (hex_to_buffer info.0) pair.priv_key)

  unfoldable pub decrypt_file :
      BlockchainData
      → Option Bytes
      → HiddenFileOwner
      → FilesCache
      → Bytes
      → Option FileMeta
      → DecryptResult × FilesCache
  unfolding get_file_password
  decrypt_file chain seed_now o cache encrypted_file file_meta =
      elim (cache_get o.token_full_id_args cache) [
        | some result ↦ (decrypted result, cache)
        | none ↦
            elim (get_file_password chain seed_now o
              >>= aes_decrypt_native c.subtle encrypted_file) [
                | ok bytes ↦
                    let result = new_file bytes file_meta in
                    (decrypted result, (o.token_full_id_args, result) ∷ cache)
                | err e ↦ (failed e, cache)
              ]
      ]

  unfoldable pub encrypt_file : Option Bytes → HiddenFileOwner → Bytes → Result Bytes
  encrypt_file seed_now o file_bytes = do
    seed ← assert_seed seed_now
    key_and_iv ←
        eft_aes_derivation_native c.subtle seed o.global_salt o.collection_address o.token_id
    aes_encrypt_native c.subtle file_bytes key_and_iv

  unfoldable pub encrypt_file_password :
      BlockchainData → Option Bytes → HiddenFileOwner → Bytes → Bytes → Result Bytes
  unfolding get_file_password
  encrypt_file_password chain seed_now o random public_key = do
    password ← get_file_password chain seed_now o
    rsa_encrypt_native c.subtle random password public_key

  unfoldable pub init_buy : BlockchainData → Option Bytes → HiddenFileBuyer → Result Bytes
  unfolding rsa_pair
  init_buy chain seed_now b = do
    seed ← assert_seed seed_now
    deal_number ← chain.get_transfer_count b.collection_address b.token_id
    pair ← rsa_pair seed b.global_salt b.collection_address b.token_id deal_number
    ok pair.pub_key

  unfoldable pub reveal_rsa_private_key :
      BlockchainData → Option Bytes → HiddenFileBuyer → Result Bytes
  unfolding rsa_pair
  reveal_rsa_private_key chain seed_now b = do
    seed ← assert_seed seed_now
    deal_number ← chain.get_transfer_count b.collection_address b.token_id
    pair ← rsa_pair seed b.global_salt b.collection_address b.token_id deal_number
    ok pair.priv_key
