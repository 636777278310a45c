-- ===== src/Processing/Storage/Secure.antt =====
-- The encrypted storage.
use file_market.Base.{String, ◌≡◌, refl, ◌≢◌, false, Option, none, some, List, [], ◌∷◌}
use file_market.Base.Dict.{Dict, lookup, keys}
use file_market.Base.Result.{Result, ok, err, ◌>>=◌}
use file_market.Crypto.Bytes.{Text}
use file_market.Processing.Storage.{
  no_push, set_entry, SecurityProvider, SecureStorage, secure_decrypt, reencrypt_value,
  reencrypt_all, set_security_provider, decrypt_entry, secure_get, secure_set,
}
use file_market.Processing.Storage.Reopen.{lookup-set_entry_self, lookup-set_entry_ne}

reencrypt_value-some :
    (old new : SecurityProvider) (v : Option Text) (rest : Result (List (String × Text)))
    (m : String)
    → rest ≡ err m
    → (n : String) × ((reencrypt_value old new v >>= λ u. rest) ≡ err n)
reencrypt_value-some old new none rest m e = (m, e)
reencrypt_value-some old new (some []) rest m e = (m, e)
reencrypt_value-some old new (some (c ∷ cs)) rest m e = decrypted (old.decrypt (c ∷ cs))
  where
    encrypted : (r : Result Text) → (n : String) × (((r >>= λ e'. no_push) >>= λ u. rest) ≡ err n)
    encrypted (ok t) = ("push is not a function", refl)
    encrypted (err n) = (n, refl)

    decrypted :
        (r : Result Text)
        → (n : String) × (((r >>= λ t. new.encrypt t >>= λ e'. no_push) >>= λ u. rest) ≡ err n)
    decrypted (ok t) = encrypted (new.encrypt t)
    decrypted (err n) = (n, refl)

reencrypt_all-err :
    (old new : SecurityProvider) (d : Dict Text) (ids : List String)
    → (m : String) × (reencrypt_all old new d ids ≡ err m)
reencrypt_all-err old new d [] = ("object is not iterable", refl)
reencrypt_all-err old new d (id ∷ ids) =
    let (m, e) = reencrypt_all-err old new d ids in
    reencrypt_value-some old new (lookup id d) (reencrypt_all old new d ids) m e

-- The first security provider is taken; every later one is refused with an error, whatever the
-- storage holds.
set_security_provider-once :
    (first second : SecurityProvider) (s : SecureStorage)
    → s.security_provider ≡ none
    → (t : SecureStorage) × (m : String) × (set_security_provider first s ≡ ok t)
      × (t.security_provider ≡ some first)
      × (set_security_provider second t ≡ err m)
unfolding set_security_provider
set_security_provider-once first second s e =
    let (m, fails) = reencrypt_all-err first second s.entries (keys s.entries) in
    (record s { security_provider = some first }, m, rw e refl, refl, rw fails refl)

decrypt_entry-some :
    (p : SecurityProvider) (c v : Text)
    → c ≢ []
    → p.decrypt c ≡ ok v
    → decrypt_entry (some p) (some c) ≡ ok (some v)
unfolding secure_decrypt
decrypt_entry-some p [] v full e = absurd (full refl)
decrypt_entry-some p (c ∷ cs) v full e = rw e refl

-- A value that is not empty, and that the provider encrypts to a text that is not empty and that
-- it decrypts to the value, is set, and is read again; what other ids have stays.
pub secure_get-set :
    (p : SecurityProvider) (id : String) (v c : Text) (s : SecureStorage)
    → s.security_provider ≡ some p
    → s.security_provider_changing ≡ false
    → v ≢ []
    → c ≢ []
    → p.encrypt v ≡ ok c
    → p.decrypt c ≡ ok v
    → (t : SecureStorage) × (secure_set id (some v) s ≡ ok t)
      × (secure_get id t ≡ ok (some v))
      × ((j : String) → id ≢ j → secure_get j t ≡ secure_get j s)
unfolding secure_set secure_get
secure_get-set p id v c s has calm full_v full_c enc dec = go v c full_v full_c enc dec
  where
    go :
        (v c : Text)
        → v ≢ []
        → c ≢ []
        → p.encrypt v ≡ ok c
        → p.decrypt c ≡ ok v
        → (t : SecureStorage) × (secure_set id (some v) s ≡ ok t)
          × (secure_get id t ≡ ok (some v))
          × ((j : String) → id ≢ j → secure_get j t ≡ secure_get j s)
    go [] c full_v full_c enc dec = absurd (full_v refl)
    go (a ∷ rest) [] full_v full_c enc dec = absurd (full_c refl)
    go (a ∷ rest) (b ∷ bs) full_v full_c enc dec = (
      record s { entries = set_entry id (some (b ∷ bs)) s.entries },
      rw (calm, has, enc) refl,
      rw (calm, has, lookup-set_entry_self id (some (b ∷ bs)) s.entries, dec) refl,
      λ j h. rw (calm, lookup-set_entry_ne id j (some (b ∷ bs)) s.entries h) refl,
    )
