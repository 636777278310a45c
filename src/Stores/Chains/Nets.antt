-- ===== src/Stores/Chains/Nets.antt =====
-- Which net the chains are of that the stores give.
use file_market.Base.{
  ℕ, ◌≡◌, refl, sym, ap, ◌∙◌, ◌≢◌, ◌⊎◌, inl, inr, Bool, true, false, ◌&&◌, Option, none, some, List,
  [], ◌∷◌, ◌==◌, if◌then◌else◌, ==_iff, ==_refl, Bool-cases, find?, keep,
}
use file_market.Stores.Chains.{
  ChainConfig, of_net, multi_chain_data, get_chain_by_id, get_chain_from_config_by_id, first_id,
  id_or_first, initial_chain_id, config_chain,
}

if-some :
    (b : Bool) (x y : Option ChainConfig) (c : ChainConfig)
    → (if b then x else y) ≡ some c
    → ((b ≡ true) × (x ≡ some c)) ⊎ (y ≡ some c)
if-some true x y c e = inl (refl, e)
if-some false x y c e = inr e

some-inj : (x c : ChainConfig) → some x ≡ some c → x ≡ c
some-inj x c e = cc

-- What is found passes the test.
find?-holds :
    (q : ChainConfig → Bool) (cs : List ChainConfig) (c : ChainConfig)
    → find? q cs ≡ some c
    → q c ≡ true
find?-holds q [] c e = cc
find?-holds q (x ∷ xs) c e = elim (if-some (q x) (some x) (find? q xs) c e) [
  | inl (h, same) ↦ sym (ap q (some-inj x c same)) ∙ h
  | inr rest ↦ find?-holds q xs c rest
]

find?-keep :
    (p q : ChainConfig → Bool) (cs : List ChainConfig)
    → find? q (keep p cs) ≡ find? (λ c. p c && q c) cs
find?-keep p q [] = refl
find?-keep p q (d ∷ ds) = elim (Bool-cases (p d)) [
  | inl h ↦ rw (h, find?-keep p q ds) refl
  | inr h ↦ rw (h, find?-keep p q ds) refl
]

and-left : (a b : Bool) → (a && b) ≡ true → a ≡ true
and-left true b e = refl
and-left false b e = e

and-right : (a b : Bool) → (a && b) ≡ true → b ≡ true
and-right true b e = e
and-right false b e = cc

-- If something is found, so is the first entry with its id.
find?-id :
    (q : ChainConfig → Bool) (cs : List ChainConfig) (c : ChainConfig)
    → find? q cs ≡ some c
    → (d : ChainConfig) × (find? (λ x. x.id == c.id) cs ≡ some d)
find?-id q [] c e = cc
find?-id q (x ∷ xs) c e = elim (Bool-cases (x.id == c.id)) [
  | inl h ↦ (x, rw h refl)
  | inr h ↦ elim (if-some (q x) (some x) (find? q xs) c e) [
    | inl (hq, same) ↦ absurd (ne h (ap (λ y. y.id) (some-inj x c same)))
    | inr rest ↦ let (d, found) = find?-id q xs c rest in (d, rw (h, found) refl)
  ]
]
  where
    ne : (x.id == c.id) ≡ false → x.id ≡ c.id → ⊥
    ne h same = let t = (==_iff x.id c.id).1 same in cc

module _ (config : List ChainConfig) (is_mainnet : Bool) where
  -- A chain that is found by its id has the id and is of the net of the build.
  get_chain_by_id-net :
      (id : ℕ) (c : ChainConfig)
      → get_chain_by_id config is_mainnet (some id) ≡ some c
      → (of_net config is_mainnet c ≡ true) × (c.id ≡ id)
  unfolding get_chain_by_id multi_chain_data
  get_chain_by_id-net id c e =
      let both =
        find?-holds (λ d. of_net config is_mainnet d && (d.id == id)) config c
          (sym (find?-keep (of_net config is_mainnet) (λ d. d.id == id) config) ∙ e) in
      (
        and-left (of_net config is_mainnet c) (c.id == id) both,
        (==_iff c.id id).0 (and-right (of_net config is_mainnet c) (c.id == id) both),
      )

  first-config :
      (cs : List ChainConfig) (id : ℕ)
      → first_id config is_mainnet cs ≡ some id
      → (c : ChainConfig) × (find? (λ x. x.id == id) cs ≡ some c)
  first-config [] id e = cc
  first-config (c ∷ cs) id e = (c, rw (id_eq c cs e, ==_refl id) refl)
    where
      id_eq :
          (c : ChainConfig) (cs : List ChainConfig)
          → first_id config is_mainnet (c ∷ cs) ≡ some id
          → c.id ≡ id
      id_eq c cs e = cc

  -- The chain that the current chain's store starts with has a configuration.
  initial-config_chain :
      (id : ℕ)
      → initial_chain_id config is_mainnet ≡ some id
      → (c : ChainConfig) × (config_chain config is_mainnet (some id) ≡ some c)
  unfolding initial_chain_id config_chain multi_chain_data
  initial-config_chain id e =
      go (find? (λ c. c.is_default) (keep (of_net config is_mainnet) config)) refl e
    where
      go :
          (o : Option ChainConfig)
          → find? (λ c. c.is_default) (keep (of_net config is_mainnet) config) ≡ o
          → id_or_first config is_mainnet o (keep (of_net config is_mainnet) config) ≡ some id
          → (c : ChainConfig) × (find? (λ x. x.id == id) (keep (of_net config is_mainnet) config)
              ≡ some c)
      go none f h = first-config (keep (of_net config is_mainnet) config) id h
      go (some c) f h =
          let (d, found) =
            find?-id (λ x. x.is_default) (keep (of_net config is_mainnet) config) c f in
          (
            d,
            ap (λ n. find? (λ x. x.id == n) (keep (of_net config is_mainnet) config))
                  (sym (id_eq c h))
                ∙ found,
          )
        where
          id_eq : (c : ChainConfig) → some c.id ≡ some id → c.id ≡ id
          id_eq c h = cc

-- Where the first entry of the configuration is of the other net, its id gives it by the
-- configuration, but never by the data of the store.
get_chain_from_config_by_id-other :
    (c : ChainConfig) (cs : List ChainConfig) (is_mainnet : Bool)
    → of_net (c ∷ cs) is_mainnet c ≡ false
    → (get_chain_from_config_by_id (c ∷ cs) is_mainnet (some c.id) ≡ some c)
      × (get_chain_by_id (c ∷ cs) is_mainnet (some c.id) ≢ some c)
unfolding get_chain_from_config_by_id
get_chain_from_config_by_id-other c cs is_mainnet other = (
  rw (==_refl c.id) refl,
  λ e. let h = (get_chain_by_id-net (c ∷ cs) is_mainnet c.id c e).0 in cc,
)
