-- ===== src/Tests/Files.antt =====
-- A hidden file, its creator and two sales on the toy platform.
use file_market.Base.{ℕ, zero, suc, String, ◌≡◌, refl, Option, some, [], ◌∷◌, ◌++◌, arith, eq_iff}
use file_market.Base.Result.{ok}
use file_market.Crypto.Bytes.{Bytes, Text, number_to_buffer, hex_to_buffer, buffer_to_ether_hex}
use file_market.Crypto.Derivation.{
  eft_aes_derivation_native, eft_rsa_derivation_native, rsa_generate_key_pair,
}
use file_market.Crypto.Rsa.{rsa_encrypt_native, rsa_decrypt_native}
use file_market.Processing.HiddenFile.{
  FileMeta, decrypted, BlockchainData, HiddenFileOwner, new_file, get_file_password, decrypt_file,
  encrypt_file, encrypt_file_password, init_buy,
}
use file_market.Processing.HiddenFile.Sale.{Holder, first, sale, Holder-decrypts}
use file_market.Tests.Toy.{replicate, toy, toy_forge, toy_laws}

abbrev account : String → ℕ → HiddenFileOwner
account a k = record {
  address = a;
  global_salt = [];
  collection_address = 7 ∷ [];
  token_id = 1;
  token_full_id_args = k;
}

-- What the chain answers when `deals` transfers were made and the last one carried `text`.
abbrev chain_at : ℕ → Text → ℕ → BlockchainData
chain_at count text deal = record {
  get_last_transfer_info = λ a t. ok (text, deal);
  get_token_creator = λ a t. ok "alice";
  get_transfer_count = λ a t. ok count;
  get_global_salt = ok [];
}

abbrev password : Bytes
password = replicate 32 3

-- `0x` and the hexadecimal digits of the password, which the toy cipher leaves as it is
abbrev sent : Text
sent = b'0' ∷ b'x' ∷ hex 32
  where
    hex : ℕ → Text
    hex zero = []
    hex (suc n) = b'0' ∷ b'3' ∷ hex n

abbrev chain_a : BlockchainData
chain_a = chain_at 0 [] 0

abbrev chain_b : BlockchainData
chain_b = chain_at 1 sent 0

abbrev chain_c : BlockchainData
chain_c = chain_at 2 sent 1

abbrev meta : Option FileMeta
meta = some (record { name = some ""; mime = some "text/plain" })

creator_password : get_file_password toy chain_a (some (5 ∷ [])) (account "alice" 0) ≡ ok password
unfolding get_file_password eft_aes_derivation_native number_to_buffer
creator_password = refl

second-Holder : Holder toy chain_a (5 ∷ []) (account "alice" 0) chain_b (6 ∷ []) (account "bob" 1)
unfolding init_buy encrypt_file_password get_file_password eft_aes_derivation_native
    eft_rsa_derivation_native number_to_buffer rsa_encrypt_native buffer_to_ether_hex
second-Holder =
    sale [] (rsa_generate_key_pair toy_forge (replicate 512 4)).pub_key password 0 "alice" first
      refl refl refl refl ("alice", refl, refl) (λ e. ground (arith, eq_iff "bob" "alice"))

third-Holder : Holder toy chain_a (5 ∷ []) (account "alice" 0) chain_c (7 ∷ []) (account "carol" 2)
unfolding init_buy encrypt_file_password get_file_password eft_aes_derivation_native
    eft_rsa_derivation_native number_to_buffer rsa_encrypt_native buffer_to_ether_hex
    rsa_decrypt_native hex_to_buffer
third-Holder =
    sale [] (rsa_generate_key_pair toy_forge (replicate 512 4)).pub_key password 1 "alice"
      second-Holder refl refl refl refl ("alice", refl, refl)
      (λ e. ground (arith, eq_iff "carol" "alice"))

Holder-decrypts_example :
    (encrypted : Bytes) × (encrypt_file toy (some (5 ∷ [])) (account "alice" 0) (1 ∷ 2 ∷ [])
      ≡ ok encrypted)
    × ((decrypt_file toy chain_c (some (7 ∷ [])) (account "carol" 2) [] encrypted meta).0
        ≡ decrypted (new_file (1 ∷ 2 ∷ []) meta))
Holder-decrypts_example =
    Holder-decrypts toy toy_laws (1 ∷ 2 ∷ []) [] meta ("alice", refl, refl) third-Holder refl

abbrev stored : Bytes
stored = replicate 16 3 ++ (replicate 64 2 ++ (replicate 16 3 ++ 1 ∷ 2 ∷ []))
