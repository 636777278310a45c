-- ===== src/Processing/Seed.antt =====
-- SeedProvider/SeedProvider.ts of packages/frontend/src/app/processing. The storage is a
-- dictionary of texts; the password encryption of @metamask/browser-passworder, `getAddress` of
-- viem and the hash are parameters. The calls of the listeners are a log; the mnemonic and the
-- listeners of the initialization are left out.
use file_market.Base.{
  ℕ, ◌+◌, String, Bool, true, false, not, Option, none, some, List, [], ◌∷◌, ◌++◌, map, str_eq,
  ◌==◌, keep,
}
use file_market.Base.Dict.{Dict, lookup}
use file_market.Base.Result.{Result, ok, err, ◌>>=◌}
use file_market.Crypto.Bytes.{Bytes, Text, to_hex, from_hex}
use file_market.Processing.Storage.{set_entry}
pub mod Unlock

-- `passworder.encrypt` and `passworder.decrypt`, and `fileMarketCrypto.sha512`
pub record SeedCrypto : Type 0 where
  pub encrypt : Text → Text → Result Text
  pub decrypt : Text → Text → Result Text
  pub sha512 : Bytes → Bytes

pub record SeedProvider : Type 0 where
  pub seed : Option Bytes
  pub hash_seed : Option Text
  pub seed_encrypted : Option Text
  pub listeners : List ℕ
  pub notified : List (ℕ × Option Bytes)
  pub storage : Dict Text
  pub account : String

abbrev pub seed_storage_key : String
seed_storage_key = "seed"

abbrev pub hash_seed_storage_key : String
hash_seed_storage_key = "hashSeed"

-- The constructor
unfoldable pub new_seed_provider : Dict Text → String → SeedProvider
new_seed_provider storage account = record {
  seed = none;
  hash_seed = none;
  seed_encrypted = none;
  listeners = [];
  notified = [];
  storage = storage;
  account = account;
}

abbrev pub is_full : Option Text → Bool
is_full none = false
is_full (some []) = false
is_full (some (c ∷ cs)) = true

unfoldable pub can_unlock : SeedProvider → Bool
can_unlock p = is_full p.seed_encrypted

unfoldable pub init : SeedProvider → SeedProvider
init p = record p {
  seed_encrypted = lookup seed_storage_key p.storage;
  hash_seed = lookup hash_seed_storage_key p.storage;
}

-- `setSeed`
unfoldable pub set_seed : Option Bytes → SeedProvider → SeedProvider
set_seed seed p = record p {
  seed = seed;
  notified = map (λ l. (l, seed)) p.listeners ++ p.notified;
}

unfoldable pub lock : SeedProvider → SeedProvider
unfolding set_seed
lock p = set_seed none p

unfoldable pub add_listener : ℕ → SeedProvider → SeedProvider
add_listener l p = record p { listeners = p.listeners ++ (l ∷ []) }

unfoldable pub remove_listener : ℕ → SeedProvider → SeedProvider
remove_listener l p = record p { listeners = keep (λ k. not (k == l)) p.listeners }

module _ (get_address : String → Result String) where
  unfoldable pub is_for_account : String → SeedProvider → Result Bool
  is_for_account account p =
      get_address account >>= λ a. get_address p.account >>= λ b. ok (str_eq a b)

module _ (c : SeedCrypto) where
  abbrev pub hash_text : Bytes → Text
  hash_text seed = to_hex (c.sha512 seed)

  -- What `unlock` does with the decrypted text
  abbrev pub unlocked : Text → SeedProvider → Result SeedProvider
  unlocked [] p = err "Unable to unlock seed: cannot decrypt seed"
  unlocked (d ∷ ds) p = ok (
      set_seed (some (from_hex (d ∷ ds))) (record p {
        storage = set_entry hash_seed_storage_key (some (hash_text (from_hex (d ∷ ds)))) p.storage;
      }))

  abbrev pub unlock_with : Text → Option Text → SeedProvider → Result SeedProvider
  unlock_with password none p = err "Unable to unlock seed: no seed found"
  unlock_with password (some []) p = err "Unable to unlock seed: no seed found"
  unlock_with password (some (e ∷ es)) p = c.decrypt password (e ∷ es) >>= λ t. unlocked t p

  unfoldable pub unlock : Text → SeedProvider → Result SeedProvider
  unlock password p = unlock_with password p.seed_encrypted p

  -- What `set` does with the encrypted text
  abbrev pub set_encrypted : Bytes → Text → SeedProvider → Result SeedProvider
  set_encrypted new_seed [] p = err "Unable to encrypt seed"
  set_encrypted new_seed (e ∷ es) p = ok (
      set_seed (some new_seed) (record p {
        storage =
            set_entry hash_seed_storage_key (some (hash_text new_seed))
              (set_entry seed_storage_key (some (e ∷ es)) p.storage);
        hash_seed = some (hash_text new_seed);
        seed_encrypted = some (e ∷ es);
      }))

  unfoldable pub set : Bytes → Text → SeedProvider → Result SeedProvider
  set new_seed password p = c.encrypt password (to_hex new_seed) >>= λ t. set_encrypted new_seed t p
