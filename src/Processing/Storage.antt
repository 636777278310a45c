-- ===== src/Processing/Storage.antt =====
-- StorageProvider/LocalStorageProvider.ts, SecureStorage/SecureStorage.ts and
-- StorageSecurityProvider of packages/frontend/src/app/processing. `localStorage` is a
-- dictionary of the texts of `JSON`, whose type, `stringify` and `parse` are parameters.
use file_market.Base.{
  String, str_eq, ◌≡◌, Bool, true, false, not, ◌&&◌, is_some, Option, none, some, List, [], ◌∷◌,
  if◌then◌else◌,
}
use file_market.Base.Dict.{Dict, lookup, insert, erase, keys}
use file_market.Base.Result.{Result, ok, err, ◌>>=◌}
use file_market.Crypto.Bytes.{Text}
pub mod Reopen
pub mod Secure

pub record Json : Type 1 where
  pub Raw : Type 0
  pub is_empty : Raw → Bool
  pub stringify : Dict Text → Raw
  pub parse : Raw → Result (Dict Text)
  -- The names that every object which `parse` makes has from its prototype, such as "toString"
  pub inherited : String → Bool

-- What `JSON` does to dictionaries of texts: a text is never empty, and parsing it gives a
-- dictionary with the same entries.
pub record JsonLaws (json : Json) : Type 0 where
  pub full : (d : Dict Text) → json.is_empty (json.stringify d) ≡ false
  pub entries :
      (d : Dict Text)
      → (e : Dict Text) × (json.parse (json.stringify d) ≡ ok e)
        × ((k : String) → lookup k e ≡ lookup k d)

-- The data: its own entries, and whether it was parsed, which gives it a prototype
pub record LocalStorageProvider : Type 0 where
  pub storage_key : String
  pub entries : Dict Text
  pub is_parsed : Bool

-- What a name of the data has: its own text, or what it has from the prototype
pub data Found : Type 0 where
  own : Text → Found
  inherited_value : Found

abbrev pub found : Bool → Option Text → Option Found
found is_inherited (some t) = some (own t)
found is_inherited none = if is_inherited then some inherited_value else none

-- A missing or empty value deletes the entry.
abbrev pub set_entry : String → Option Text → Dict Text → Dict Text
set_entry id none d = erase id d
set_entry id (some []) d = erase id d
set_entry id (some (c ∷ cs)) d = insert id (c ∷ cs) d

module _ (json : Json) where
  unfoldable pub provider_get : String → LocalStorageProvider → Option Found
  provider_get id p = found (p.is_parsed && json.inherited id) (lookup id p.entries)

  abbrev pub parsed_provider : String → Dict Text → LocalStorageProvider
  parsed_provider key d = record { storage_key = key; entries = d; is_parsed = true }

  -- `getData`
  abbrev pub read_data : String → Option json.Raw → Result LocalStorageProvider
  read_data key none = ok (record { storage_key = key; entries = []; is_parsed = false })
  read_data key (some raw) =
      if json.is_empty raw
      then ok (record { storage_key = key; entries = []; is_parsed = false })
      else json.parse raw >>= λ d. ok (parsed_provider key d)

  -- The constructor, on what `localStorage` holds
  unfoldable pub open_provider : String → Dict json.Raw → Result LocalStorageProvider
  open_provider key local = read_data key (lookup key local)

  -- `this.data[id] = value` or `delete`: a text that is assigned to `__proto__` of an object with a
  -- prototype is dropped, unless the object has an entry of that name.
  abbrev pub assign : String → Option Text → LocalStorageProvider → Dict Text
  assign id value p =
      if str_eq id "__proto__" && p.is_parsed && not (is_some (lookup id p.entries))
      then p.entries
      else set_entry id value p.entries

  -- `set` with its `setData`: the provider, and `localStorage` afterwards
  unfoldable pub provider_set :
      String
      → Option Text
      → LocalStorageProvider
      → Dict json.Raw
      → LocalStorageProvider × Dict json.Raw
  provider_set id value p local = (
    record p { entries = assign id value p },
    insert p.storage_key (json.stringify (assign id value p)) local,
  )

unfoldable pub provider_ids : LocalStorageProvider → List String
provider_ids p = keys p.entries

-- `IStorageSecurityProvider`
pub record SecurityProvider : Type 0 where
  pub encrypt : Text → Result Text
  pub decrypt : Text → Result Text

-- `NoopStorageSecurityProvider`
abbrev pub noop_security_provider : SecurityProvider
noop_security_provider = record { encrypt = λ t. ok t; decrypt = λ t. ok t }

-- `SecureStorage` on a provider whose entries are a dictionary; `securityProviderChanging` is
-- never set to true.
pub record SecureStorage : Type 0 where
  pub security_provider : Option SecurityProvider
  pub security_provider_changing : Bool
  pub entries : Dict Text

-- `encrypt` and `decrypt` of the module, by `ensureCall`
unfoldable pub secure_encrypt : Option SecurityProvider → Text → Result Text
secure_encrypt none t = err "StorageSecurityProvider.encrypt no function provided"
secure_encrypt (some p) t = p.encrypt t

unfoldable pub secure_decrypt : Option SecurityProvider → Text → Result Text
secure_decrypt none t = err "StorageSecurityProvider.decrypt no function provided"
secure_decrypt (some p) t = p.decrypt t

-- The first loop of `setSecurityProvider`: the list it collects in has no method `push`.
abbrev pub no_push : Result (List (String × Text))
no_push = err "push is not a function"

abbrev pub reencrypt_value :
    SecurityProvider → SecurityProvider → Option Text → Result (List (String × Text))
reencrypt_value old new none = ok []
reencrypt_value old new (some []) = ok []
reencrypt_value old new (some (c ∷ cs)) =
    old.decrypt (c ∷ cs) >>= λ t. new.encrypt t >>= λ e. no_push

abbrev pub reencrypt_all :
    SecurityProvider → SecurityProvider → Dict Text → List String → Result (List (String × Text))
reencrypt_all old new d [] = err "object is not iterable"
reencrypt_all old new d (id ∷ ids) =
    reencrypt_value old new (lookup id d) >>= λ u. reencrypt_all old new d ids

abbrev pub replace_provider :
    Option SecurityProvider → SecurityProvider → SecureStorage → Result SecureStorage
replace_provider none new s = ok (record s { security_provider = some new })
replace_provider (some old) new s = reencrypt_all old new s.entries (keys s.entries) >>= λ u.
    ok (record s { security_provider = some new })

unfoldable pub set_security_provider : SecurityProvider → SecureStorage → Result SecureStorage
set_security_provider new s = replace_provider s.security_provider new s

abbrev pub callbacks_changing : String
callbacks_changing =
    "SecureStorage: calling class methods is not allowed until Promise returned by SecureStorage.setSecurityProvider is not finished"

abbrev pub decrypt_entry : Option SecurityProvider → Option Text → Result (Option Text)
decrypt_entry p none = ok none
decrypt_entry p (some []) = ok none
decrypt_entry p (some (c ∷ cs)) = secure_decrypt p (c ∷ cs) >>= λ t. ok (some t)

unfoldable pub secure_get : String → SecureStorage → Result (Option Text)
unfolding secure_decrypt
secure_get id s =
    if s.security_provider_changing
    then err callbacks_changing
    else decrypt_entry s.security_provider (lookup id s.entries)

-- `value && await encrypt(...)`
abbrev pub encrypt_entry : Option SecurityProvider → Option Text → Result (Option Text)
encrypt_entry p none = ok none
encrypt_entry p (some []) = ok (some [])
encrypt_entry p (some (c ∷ cs)) = secure_encrypt p (c ∷ cs) >>= λ t. ok (some t)

unfoldable pub secure_set : String → Option Text → SecureStorage → Result SecureStorage
unfolding secure_encrypt
secure_set id value s =
    if s.security_provider_changing
    then err callbacks_changing
    else (encrypt_entry s.security_provider value >>= λ e.
        ok (record s { entries = set_entry id e s.entries }))
