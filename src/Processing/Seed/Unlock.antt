-- ===== src/Processing/Seed/Unlock.antt =====
-- What a later session gets of the seed that was set.
use file_market.Base.{String, ◌≡◌, refl, ap, ◌∙◌, ◌≢◌, some, [], ◌∷◌, arith, eq_iff}
use file_market.Base.Dict.{lookup}
use file_market.Base.Result.{ok}
use file_market.Crypto.Bytes.{Bytes, Text, IsBytes, to_hex, from_hex}
use file_market.Crypto.Bytes.RoundTrip.{from_hex-to_hex}
use file_market.Processing.Storage.{set_entry}
use file_market.Processing.Storage.Reopen.{stored, lookup-set_entry_self, lookup-set_entry_ne}
use file_market.Processing.Seed.{
  SeedCrypto, SeedProvider, seed_storage_key, hash_seed_storage_key, new_seed_provider, init,
  set_seed, hash_text, unlocked, unlock_with, unlock, set_encrypted, set,
}

-- The encryption of a text that is not empty succeeds, is not empty, and decrypts with the same
-- password to the text.
pub record PassworderLaws (c : SeedCrypto) : Type 0 where
  pub decrypts :
      (password text : Text)
      → text ≢ []
      → (e : Text) × (c.encrypt password text ≡ ok e) × (e ≢ []) × (c.decrypt password e ≡ ok text)

to_hex-full : (seed : Bytes) → seed ≢ [] → to_hex seed ≢ []
unfolding to_hex
to_hex-full [] full e = full refl
to_hex-full (b ∷ bs) full e = cc

seed_key_ne : hash_seed_storage_key ≢ seed_storage_key
seed_key_ne e = ground (arith, eq_iff hash_seed_storage_key seed_storage_key, e)

module _ (c : SeedCrypto) where
  unlocked-seed :
      (seed : Bytes) (t : Text) (p : SeedProvider)
      → t ≢ []
      → from_hex t ≡ seed
      → (r : SeedProvider) × (unlocked c t p ≡ ok r) × (r.seed ≡ some seed)
  unfolding set_seed
  unlocked-seed seed [] p full e = absurd (full refl)
  unlocked-seed seed (d ∷ ds) p full e = (_, refl, ap some e)

  unlock_with-seed :
      (password e t : Text) (p : SeedProvider) (seed : Bytes)
      → e ≢ []
      → c.decrypt password e ≡ ok t
      → t ≢ []
      → from_hex t ≡ seed
      → (r : SeedProvider) × (unlock_with c password (some e) p ≡ ok r) × (r.seed ≡ some seed)
  unlock_with-seed password [] t p seed full dec full_t e = absurd (full refl)
  unlock_with-seed password (x ∷ xs) t p seed full dec full_t e =
      let (r, unlocks, same) = unlocked-seed seed t p full_t e in (r, rw dec unlocks, same)

  set_encrypted-stored :
      (seed : Bytes) (e : Text) (p : SeedProvider)
      → e ≢ []
      → (q : SeedProvider) × (set_encrypted c seed e p ≡ ok q)
        × (q.seed ≡ some seed)
        × (lookup seed_storage_key q.storage ≡ some e)
        × (lookup hash_seed_storage_key q.storage ≡ stored (some (hash_text c seed)))
  unfolding set_seed
  set_encrypted-stored seed [] p full = absurd (full refl)
  set_encrypted-stored seed (x ∷ xs) p full = (
    _,
    refl,
    refl,
    lookup-set_entry_ne hash_seed_storage_key seed_storage_key (some (hash_text c seed))
          (set_entry seed_storage_key (some (x ∷ xs)) p.storage) seed_key_ne
        ∙ lookup-set_entry_self seed_storage_key (some (x ∷ xs)) p.storage,
    lookup-set_entry_self hash_seed_storage_key (some (hash_text c seed))
        (set_entry seed_storage_key (some (x ∷ xs)) p.storage),
  )

  -- A seed of bytes that is not empty is set, and a provider that is made on the same storage
  -- later and initialized can be unlocked with the password, gets the seed, and has its hash.
  pub set-unlock :
      (laws : PassworderLaws c) (seed : Bytes) (password : Text) (p : SeedProvider)
      (account : String)
      → IsBytes seed
      → seed ≢ []
      → (q : SeedProvider) × (r : SeedProvider) × (set c seed password p ≡ ok q)
        × (q.seed ≡ some seed)
        × (unlock c password (init (new_seed_provider q.storage account)) ≡ ok r)
        × (r.seed ≡ some seed)
        × ((init (new_seed_provider q.storage account)).hash_seed
            ≡ stored (some (hash_text c seed)))
  unfolding set unlock init new_seed_provider
  set-unlock laws seed password p account bytes full =
      let (e, encrypts, full_e, decrypts) =
        laws.decrypts password (to_hex seed) (to_hex-full seed full) in
      let (q, sets, same, stored_seed, stored_hash) = set_encrypted-stored seed e p full_e in
      let (r, unlocks, same_r) =
        unlock_with-seed password e (to_hex seed) (init (new_seed_provider q.storage account)) seed
          full_e decrypts (to_hex-full seed full) (from_hex-to_hex seed bytes) in
      (
        q,
        r,
        rw encrypts sets,
        same,
        ap (λ o. unlock_with c password o (init (new_seed_provider q.storage account))) stored_seed
            ∙ unlocks,
        same_r,
        stored_hash,
      )
