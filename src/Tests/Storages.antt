-- ===== src/Tests/Storages.antt =====
-- A toy platform for the storage, and what the factories do on it.
use file_market.Base.{
  String, Option, str_eq, ◌||◌, ◌≡◌, refl, ◌≢◌, false, none, some, [], ◌∷◌, arith, eq_iff, drop,
}
use file_market.Base.Dict.{Dict}
use file_market.Base.Result.{ok}
use file_market.Processing.Storage.{noop_security_provider, SecureStorage, secure_get, secure_set}
use file_market.Crypto.Bytes.{Bytes, Text}
use file_market.Processing.Storage.{
  Json, JsonLaws, LocalStorageProvider, open_provider, provider_get, provider_set, Found, own,
  inherited_value,
}
use file_market.Processing.Storage.Reopen.{open_provider-set, stored}
use file_market.Processing.Storage.Secure.{secure_get-set}
use file_market.Processing.Seed.{
  SeedCrypto, SeedProvider, hash_text, new_seed_provider, init, unlock, set,
}
use file_market.Processing.Seed.Unlock.{PassworderLaws, set-unlock}
use file_market.Processing.Factories.{new_factory, get_call, done, factory_run}
use file_market.Processing.Factories.Jobs.{IsOnce, factory_run-IsOnce}

abbrev plain_password : SeedCrypto
plain_password = record {
  encrypt = λ p t. ok (7 ∷ t);
  decrypt = λ p t. ok (drop 1 t);
  sha512 = λ b. b;
}

plain_laws : PassworderLaws plain_password
plain_laws = record { decrypts = λ p t full. (7 ∷ t, refl, λ e. cc, refl) }

abbrev toy_seed : Bytes
toy_seed = 1 ∷ 255 ∷ []

abbrev empty_provider : SeedProvider
empty_provider = record {
  seed = none;
  hash_seed = none;
  seed_encrypted = none;
  listeners = [];
  notified = [];
  storage = [];
  account = "0xa";
}

set-unlock_example :
    (q : SeedProvider) × (r : SeedProvider) × (set plain_password toy_seed (1 ∷ []) empty_provider
      ≡ ok q)
    × (q.seed ≡ some toy_seed)
    × (unlock plain_password (1 ∷ []) (init (new_seed_provider q.storage "0xb")) ≡ ok r)
    × (r.seed ≡ some toy_seed)
    × ((init (new_seed_provider q.storage "0xb")).hash_seed
        ≡ stored (some (hash_text plain_password toy_seed)))
set-unlock_example =
    set-unlock plain_password plain_laws toy_seed (1 ∷ []) empty_provider "0xb"
      (omega arith, (omega arith, tt)) (λ e. cc)

abbrev safe : SecureStorage
safe = record {
  security_provider = some noop_security_provider;
  security_provider_changing = false;
  entries = ("b", 9 ∷ []) ∷ [];
}

secure_get-set_example :
    (t : SecureStorage) × (secure_set "a" (some (3 ∷ [])) safe ≡ ok t)
    × (secure_get "a" t ≡ ok (some (3 ∷ [])))
    × ((j : String) → "a" ≢ j → secure_get j t ≡ secure_get j safe)
secure_get-set_example =
    secure_get-set noop_security_provider "a" (3 ∷ []) (3 ∷ []) safe refl refl (λ e. cc) (λ e. cc)
      refl refl

abbrev unset : SecureStorage
unset = record { security_provider = none; security_provider_changing = false; entries = [] }

new-IsOnce : IsOnce new_factory
unfolding IsOnce
new-IsOnce a = (omega arith, λ e. refl)

factory_run-IsOnce_example :
    IsOnce (factory_run (get_call "a" ∷ get_call "a" ∷ done "a" 4 ∷ []) new_factory)
factory_run-IsOnce_example =
    factory_run-IsOnce (get_call "a" ∷ get_call "a" ∷ done "a" 4 ∷ []) new_factory new-IsOnce

abbrev first_key : String
first_key = "c/1"

abbrev second_key : String
second_key = "c/2"

keys_differ : second_key ≢ first_key
keys_differ e = ground (arith, eq_iff second_key first_key, e)

abbrev toy_json : Json
toy_json = record {
  Raw = Dict Text;
  is_empty = λ d. false;
  stringify = λ d. d;
  parse = λ d. ok d;
  inherited = λ id. str_eq id "toString" || str_eq id "__proto__";
}

toy_json_laws : JsonLaws toy_json
toy_json_laws = record { full = λ d. refl; entries = λ d. (d, refl, λ k. refl) }

abbrev notes : LocalStorageProvider
notes = record { storage_key = "mark3d/0xa"; entries = ("seed", 5 ∷ []) ∷ []; is_parsed = false }

abbrev hash_seed : String
hash_seed = "hashSeed"

abbrev inherited_name : String
inherited_name = "toString"

hash_seed_ne : hash_seed ≢ inherited_name
hash_seed_ne e = ground (arith, eq_iff hash_seed inherited_name, e)

abbrev nothing : Option Found
nothing = none

open_provider-set_example :
    (q : LocalStorageProvider) × (open_provider toy_json "mark3d/0xa"
        (provider_set toy_json "hashSeed" (some (6 ∷ [])) notes []).1
      ≡ ok q)
    × (provider_get toy_json "hashSeed" q ≡ some (own (6 ∷ [])))
    × (provider_get toy_json "toString" q ≡ some inherited_value)
    × (nothing ≡ nothing)
open_provider-set_example =
    open_provider-set toy_json toy_json_laws hash_seed inherited_name (some (6 ∷ [])) notes [] refl
      hash_seed_ne
