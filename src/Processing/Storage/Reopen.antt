-- ===== src/Processing/Storage/Reopen.antt =====
-- What a page finds that opens the storage again.
use file_market.Base.{
  String, str_eq, ◌≡◌, refl, ap, inl, inr, ◌∙◌, ◌≢◌, Bool, false, ◌&&◌, if◌then◌else◌, Bool-cases,
  arith, Option, none, some, [], ◌∷◌,
}
use file_market.Base.Dict.{
  Dict, lookup, lookup-insert_self, lookup-insert_ne, lookup-erase_self, lookup-erase_ne,
}
use file_market.Base.Result.{ok}
use file_market.Crypto.Bytes.{Text}
use file_market.Processing.Storage.{
  Json, JsonLaws, LocalStorageProvider, read_data, open_provider, provider_get, provider_set,
  set_entry, found, parsed_provider,
}

-- `value || undefined`
abbrev pub stored : Option Text → Option Text
stored none = none
stored (some []) = none
stored (some (c ∷ cs)) = some (c ∷ cs)

pub lookup-set_entry_self :
    (id : String) (v : Option Text) (d : Dict Text) → lookup id (set_entry id v d) ≡ stored v
lookup-set_entry_self id none d = lookup-erase_self id d
lookup-set_entry_self id (some []) d = lookup-erase_self id d
lookup-set_entry_self id (some (c ∷ cs)) d = lookup-insert_self id (c ∷ cs) d

pub lookup-set_entry_ne :
    (id j : String) (v : Option Text) (d : Dict Text)
    → id ≢ j
    → lookup j (set_entry id v d) ≡ lookup j d
lookup-set_entry_ne id j none d h = lookup-erase_ne id j d h
lookup-set_entry_ne id j (some []) d h = lookup-erase_ne id j d h
lookup-set_entry_ne id j (some (c ∷ cs)) d h = lookup-insert_ne id j (c ∷ cs) d h

module _ (json : Json) (laws : JsonLaws json) where
  read_data-stringify :
      (key : String) (d : Dict Text)
      → (e : Dict Text) × (read_data json key (some (json.stringify d))
          ≡ ok (parsed_provider json key e))
        × ((k : String) → lookup k e ≡ lookup k d)
  read_data-stringify key d =
      let (e, parsed, same) = laws.entries d in (e, rw (laws.full d, parsed) refl, same)

  -- After a set of any name but `__proto__`, opening the storage again under the same key succeeds. The
  -- name then has the value that was set, and any other name its entry; a name without a value or
  -- an entry has what it inherits from the prototype of parsed objects, so one that inherits
  -- nothing has what the provider has for it.
  pub open_provider-set :
      (id j : String) (v : Option Text) (p : LocalStorageProvider) (local : Dict json.Raw)
      → str_eq id "__proto__" ≡ false
      → id ≢ j
      → (q : LocalStorageProvider) × (open_provider json p.storage_key
            (provider_set json id v p local).1
          ≡ ok q)
        × (provider_get json id q ≡ found (json.inherited id) (stored v))
        × (provider_get json j q ≡ found (json.inherited j) (lookup j p.entries))
        × ((if json.inherited j then none else provider_get json j q)
            ≡ (if json.inherited j then none else provider_get json j p))
  unfolding open_provider provider_set provider_get
  open_provider-set id j v p local plain other =
      let (e, parsed, same) = read_data-stringify p.storage_key (set_entry id v p.entries) in
      let here = same id ∙ lookup-set_entry_self id v p.entries in
      let there = same j ∙ lookup-set_entry_ne id j v p.entries other in
      (
        parsed_provider json p.storage_key e,
        rw
            (
              plain,
              lookup-insert_self p.storage_key (json.stringify (set_entry id v p.entries)) local,
            )
            parsed,
        ap (found (json.inherited id)) here,
        ap (found (json.inherited j)) there,
        elim (Bool-cases (json.inherited j)) [
          | inl h ↦ rw h refl
          | inr h ↦ rw (h, and-false p.is_parsed) (ap (found false) there)
        ],
      )
    where
      and-false : (b : Bool) → (b && false) ≡ false
      and-false b = ground arith
