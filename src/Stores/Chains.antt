-- ===== src/Stores/Chains.antt =====
-- MultiChain/MultiChainStore.ts, ChainStore/ChainStore.ts and
-- CurrentBlockChain/CurrentBlockChainStore.ts of packages/frontend/src/app/stores. The
-- configuration of the repository is a parameter, as is whether the build is for a main net;
-- of an entry, what the stores look at is kept.
use file_market.Base.{
  ℕ, String, Bool, true, false, not, ◌&&◌, Option, none, some, List, [], ◌∷◌, str_eq, ◌==◌,
  if◌then◌else◌, or_else, find?, keep,
}
pub mod Nets

-- `IMultiChainConfig`
pub record ChainConfig : Type 0 where
  pub id : ℕ
  pub name : String
  pub testnet : Option Bool
  pub is_default : Bool
  pub base_url : String

-- `item.chain.testnet === true`
abbrev pub is_testnet : ChainConfig → Bool
is_testnet c = or_else c.testnet false

abbrev pub bool_eq : Bool → Bool → Bool
bool_eq true b = b
bool_eq false b = not b

module _ (config : List ChainConfig) (is_mainnet : Bool) where
  abbrev pub of_net : ChainConfig → Bool
  of_net c = bool_eq (is_testnet c) (not is_mainnet)

  -- `data` of the `MultiChainStore`
  unfoldable pub multi_chain_data : List ChainConfig
  multi_chain_data = keep of_net config

  -- `getChainById` and `getChainByName`
  unfoldable pub get_chain_by_id : Option ℕ → Option ChainConfig
  unfolding multi_chain_data
  get_chain_by_id none = none
  get_chain_by_id (some id) = find? (λ c. c.id == id) multi_chain_data

  unfoldable pub get_chain_by_name : Option String → Option ChainConfig
  unfolding multi_chain_data
  get_chain_by_name none = none
  get_chain_by_name (some name) = find? (λ c. str_eq c.name name) multi_chain_data

  -- `getApiById`: an api and its address
  unfoldable pub get_api_by_id : Option ℕ → Option (Option String)
  unfolding get_chain_by_id
  get_api_by_id none = none
  get_api_by_id (some id) = some (url_of (get_chain_by_id (some id)))
    where
      url_of : Option ChainConfig → Option String
      url_of none = none
      url_of (some c) = some c.base_url

  -- `defaultChain` of `getChainFromConfigById`
  abbrev pub default_chain : Option ChainConfig
  default_chain = find? (λ c. of_net c && c.is_default) config

  abbrev pub or_option : Option ChainConfig → Option ChainConfig → Option ChainConfig
  or_option none d = d
  or_option (some c) d = some c

  -- `getChainFromConfigById`, which `getConfigById` is built on
  unfoldable pub get_chain_from_config_by_id : Option ℕ → Option ChainConfig
  get_chain_from_config_by_id none = default_chain
  get_chain_from_config_by_id (some id) = or_option (find? (λ c. c.id == id) config) default_chain

  -- `chainId` as the `CurrentBlockChainStore` starts: that of the default chain or of the first one
  abbrev pub first_id : List ChainConfig → Option ℕ
  first_id [] = none
  first_id (c ∷ cs) = some c.id

  abbrev pub id_or_first : Option ChainConfig → List ChainConfig → Option ℕ
  id_or_first none cs = first_id cs
  id_or_first (some c) cs = some c.id

  unfoldable pub initial_chain_id : Option ℕ
  unfolding multi_chain_data
  initial_chain_id = id_or_first (find? (λ c. c.is_default) multi_chain_data) multi_chain_data

  -- `configChain`, for the id of the current chain
  unfoldable pub config_chain : Option ℕ → Option ChainConfig
  unfolding multi_chain_data
  config_chain none = none
  config_chain (some id) = find? (λ c. c.id == id) multi_chain_data

  -- `ChainStore.activate`: the selected chain, if a name is given
  abbrev pub activate_chain : Option String → Option ChainConfig → Option ChainConfig
  activate_chain none selected = selected
  activate_chain (some name) selected =
      if str_eq name "" then selected else get_chain_by_name (some name)
