-- ===== src/Stores/Lists.antt =====
-- The lists that grow by pages: OrderList/OrderListStore.ts, CollectionsList/CollectionListStore.ts,
-- CollectionTokenList/CollectionTokenListStore.ts, CollectionAndTokenList/
-- CollectionAndTokenListStore.ts, UserTransfers/UserTransfersStore.ts and Page/PageStore.ts of
-- packages/frontend/src/app/stores. Their requests are those of Stores/Request; here stands what
-- the callbacks do with the answers of the backend.
use file_market.Base.{
  ℕ, zero, suc, ◌+◌, ◌-◌, Bool, ◌||◌, Option, none, some, List, [], ◌∷◌, ◌++◌, ltb, if◌then◌else◌,
  or_else, length,
}
pub mod Backend
pub mod Loading
pub mod Likes

-- `lastItem` of utils/structs
abbrev pub last_item {ℓ} : {A : Type ℓ} → List A → Option A
last_item [] = none
last_item (a ∷ []) = some a
last_item (a ∷ b ∷ rest) = last_item (b ∷ rest)

-- A response with one list, `OrdersAllActiveResponse`, `CollectionsResponse` and `CollectionData`
pub record PageData (A : Type 0) : Type 0 where
  pub items : Option (List A)
  pub total : Option ℕ

module _ {A : Type 0} where
  -- The data that the stores start with
  abbrev pub no_data : PageData A
  no_data = record { items = none; total = some 0 }

  unfoldable pub set_page : PageData A → PageData A → PageData A
  set_page d old = d

  -- `addData`
  unfoldable pub add_page : PageData A → PageData A → PageData A
  add_page d old = record {
    items = some (or_else old.items [] ++ or_else d.items []);
    total = d.total;
  }

  -- `hasMoreData`
  unfoldable pub has_more_data : PageData A → Bool
  has_more_data d = ltb (length (or_else d.items [])) (or_else d.total 0)

  module _ {K : Type 0} (key : A → Option K) where
    abbrev pub key_of : Option A → Option K
    key_of none = none
    key_of (some a) = key a

    -- The key that `requestMore` sends: that of the last item
    unfoldable pub last_key : PageData A → Option K
    last_key d = key_of (last_item (or_else d.items []))

-- A response with two lists, `TokensResponse` and `TransfersResponseV2`
pub record TwoPages (A B : Type 0) : Type 0 where
  pub first_items : Option (List A)
  pub first_total : Option ℕ
  pub second_items : Option (List B)
  pub second_total : Option ℕ

module _ {A B : Type 0} where
  unfoldable pub add_two : TwoPages A B → TwoPages A B → TwoPages A B
  add_two d old = record {
    first_items = some (or_else old.first_items [] ++ or_else d.first_items []);
    first_total = d.first_total;
    second_items = some (or_else old.second_items [] ++ or_else d.second_items []);
    second_total = d.second_total;
  }

  -- `hasMoreData` of the collections and tokens: of the tokens only
  unfoldable pub has_more_tokens : TwoPages A B → Bool
  has_more_tokens d = ltb (length (or_else d.second_items [])) (or_else d.second_total 0)

  -- `hasMoreData` of the transfers: of the incoming or the outgoing ones
  unfoldable pub has_more_transfers : TwoPages A B → Bool
  has_more_transfers d =
      ltb (length (or_else d.first_items [])) (or_else d.first_total 0)
      || ltb (length (or_else d.second_items [])) (or_else d.second_total 0)

  -- `total` of the transfers
  unfoldable pub total_transfers : TwoPages A B → ℕ
  total_transfers d = or_else d.first_total 0 + or_else d.second_total 0

-- An entry of a list with a token, and the token's number of likes
pub record TokenEntry : Type 0 where
  pub has_token : Bool
  pub like_count : Option ℕ

abbrev pub liked : Option ℕ → Option ℕ
liked none = some 1
liked (some n) = some (n + 1)

abbrev pub like_entry : TokenEntry → TokenEntry
like_entry e = if e.has_token then record e { like_count = liked e.like_count } else e

abbrev pub like_nth : ℕ → List TokenEntry → List TokenEntry
like_nth k [] = []
like_nth zero (e ∷ es) = like_entry e ∷ es
like_nth (suc k) (e ∷ es) = e ∷ like_nth k es

abbrev pub like_items : ℕ → Option (List TokenEntry) → Option (List TokenEntry)
like_items k none = none
like_items k (some es) = some (like_nth k es)

-- `increaseLikeCount` of the stores with one list
unfoldable pub increase_like_count : ℕ → PageData TokenEntry → PageData TokenEntry
increase_like_count k d = record d { items = like_items k d.items }

-- `increaseLikeCount` of the transfers: the index counts through both lists, and nothing
-- happens without incoming ones
abbrev pub like_both :
    ℕ → List TokenEntry → TwoPages TokenEntry TokenEntry → TwoPages TokenEntry TokenEntry
like_both k es d =
    if ltb k (length es)
    then record d { first_items = some (like_nth k es) }
    else record d { second_items = like_items (k - length es) d.second_items }

abbrev pub like_transfers :
    ℕ → Option (List TokenEntry) → TwoPages TokenEntry TokenEntry → TwoPages TokenEntry TokenEntry
like_transfers k none d = d
like_transfers k (some es) d = like_both k es d

unfoldable pub increase_transfer_like_count :
    ℕ → TwoPages TokenEntry TokenEntry → TwoPages TokenEntry TokenEntry
increase_transfer_like_count k d = like_transfers k d.first_items d

-- `PageState`
pub record PageState : Type 0 where
  pub page : ℕ
  pub size : ℕ
  pub total : ℕ

abbrev pub initial_page : PageState
initial_page = record { page = 0; size = 24; total = 0 }

unfoldable pub next_page : PageState → PageState
next_page p = record p { page = p.page + 1 }

unfoldable pub prev_page : PageState → PageState
prev_page p = if ltb 0 p.page then record p { page = p.page - 1 } else p
