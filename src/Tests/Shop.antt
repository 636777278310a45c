-- ===== src/Tests/Shop.antt =====
-- A market of the exchange 9 and the collection 3: the account 8 puts the token 7 of the account 5 on
-- sale for 100, with a fee of 2 percent and no royalty, and the account 6 buys it.
use file_market.Base.{
  ℕ, ◌≡◌, refl, arith, true, false, not, ◌&&◌, ◌||◌, Option, none, some, List, [], ◌∷◌, ◌==◌,
  if◌then◌else◌,
}
use file_market.Base.Result.{ok}
use file_market.Contracts.{Msg, require}
use file_market.Contracts.Collection.{TransferInfo, no_info, Outside, Collection, finalize_transfer}
use file_market.Contracts.Collection.Ownership.{IsLedger}
use file_market.Contracts.Exchange.{Order, no_order, Purse, payoff_royalty}
use file_market.Contracts.Market.{Market, Deed, cancelling, calling, deal, deals}
use file_market.Contracts.Market.Linked.{IsLinked, no_price-IsLinked}
use file_market.Contracts.Market.Deals.{AreLinked}
use file_market.Contracts.Market.Runs.{deals-AreLinked}
use file_market.Contracts.Market.Fees.{sold_order}
use file_market.Contracts.Market.Paid.{safe_transfer_currency, pay_all, deals_paid}
use file_market.Contracts.Market.Sold.{IsForSale, IsSold, sale, sale-IsSold}
use file_market.Contracts.Market.Anyone.{cancelling-anyone}
use file_market.Contracts.Collection.Burn.{burn_call}
use file_market.Contracts.Market.Lost.{burn_call-loses}
use file_market.Tests.Deals.{toy_outside, toy_collection}

-- The ledger is the token's owner, 0 for a token that is not there.
abbrev shop_transfer : ℕ → ℕ → ℕ → Option ℕ
shop_transfer l to k = if (k == 7) && not (to == 0) then some to else none

abbrev shop_outside : Outside ℕ
shop_outside = record toy_outside {
  owner_of = λ l k. if (k == 7) && not (l == 0) then some l else none;
  is_approved_or_owner = λ l spender k. (k == 7) && ((spender == l) || (spender == 9));
  safe_transfer = λ l from to k d. shop_transfer l to k;
}

shop-taken :
    (l l' to k : ℕ)
    → shop_transfer l to k ≡ some l'
    → (if (k == 7) && not (l' == 0) then some l' else none) ≡ some to
shop-taken l l' to k e = ground (arith, e)

shop-IsLedger : IsLedger shop_outside
shop-IsLedger = record {
  taken = λ l l' from to k d e. shop-taken l l' to k e;
  apart = λ l l' from to k j d e h. ground (arith, e, h);
}

abbrev no_royalty : ℕ → ℕ → Option (ℕ × ℕ)
no_royalty k amount = none

abbrev shop : Market ℕ
shop = record {
  collection = toy_collection;
  exchange = record {
    fee = 200;
    accumulated_fees = 1;
    tokens_received = [];
    accumulated_fees_erc20 = λ c. 0;
    whitelist_deadlines = λ t. 0;
    whitelist_discounts = λ t. 0;
    orders = λ t k. no_order;
  };
}

abbrev sender : ℕ → Msg
sender who = record { sender = who; timestamp = 100 }

abbrev coins : Purse
coins = record { value = 100; allowance = 0; transfer_returns = true; complete_returns = true }

abbrev shop_sale : List (Msg × Deed)
shop_sale =
    sale shop_outside no_royalty 9 3 7 refl (sender 8) (sender 6) (sender 5) (sender 6) 100 coins
      (1 ∷ []) [] (2 ∷ [])

shop-AreLinked : AreLinked 9 3 shop.collection shop.exchange
unfolding AreLinked
shop-AreLinked j = no_price-IsLinked 9 no_order no_info refl refl

deals-AreLinked_example :
    AreLinked 9 3
      (deals shop_outside no_royalty 9 3 shop_sale shop).market.collection
      (deals shop_outside no_royalty 9 3 shop_sale shop).market.exchange
deals-AreLinked_example =
    deals-AreLinked shop_outside no_royalty 9 3 refl shop_sale shop
      ((refl, refl), ((refl, refl), ((refl, refl), ((refl, refl), tt)))) shop-AreLinked

shop-IsForSale : IsForSale shop_outside 9 3 7 5 shop
shop-IsForSale = record {
  approved = refl;
  owned = refl;
  no_transfer = refl;
  few = refl;
  unordered = refl;
  no_whitelist = refl;
  fee_low = omega arith;
}

paid_to_placer : payoff_royalty (sold_order 3 7 100 8 6) 98 none ≡ ok ([], 98)
unfolding payoff_royalty
paid_to_placer = refl

sale-IsSold_example :
    IsSold shop_outside no_royalty 9 3 7 refl 8 6 100 98 []
      (deals_paid (λ m p. p.amount == 98) shop_outside no_royalty 9 3 shop_sale shop)
unfolding pay_all safe_transfer_currency
sale-IsSold_example =
    sale-IsSold shop_outside no_royalty 9 3 7 refl (λ m p. p.amount == 98) (sender 8) (sender 6)
      (sender 5) (sender 6) 100 98 coins (1 ∷ []) [] (2 ∷ []) 6 shop [] shop-IsLedger shop-IsForSale
      refl refl refl (omega arith) (omega arith) refl refl refl refl paid_to_placer refl

-- The order that the account 8 has placed, open or bought by the account 6
abbrev open_order : Order
open_order = record {
  token = 3;
  token_id = 7;
  price = 100;
  currency = 0;
  initiator = 8;
  receiver = 0;
  fulfilled = false;
}

abbrev draft_info : TransferInfo
draft_info = record no_info { id = 7; initiator = 9; from = 5; callback_receiver = 9 }

abbrev with_order : Order → TransferInfo → Market ℕ
with_order d i = record {
  collection = record toy_collection { transfers = λ k. i };
  exchange = record shop.exchange { orders = λ t k. d };
}

open-IsLinked : IsLinked 9 open_order draft_info
open-IsLinked = record { placed = refl; back = λ p. refl; bought = λ p. refl; buyer = λ p q. cc }

abbrev cancelled : Market ℕ
cancelled =
    (deal shop_outside no_royalty 9 3 (sender 4) (cancelling 7)
      (with_order open_order draft_info)).market

cancelling-anyone_example :
    (cancelled.collection.transfers 7 ≡ no_info)
    × (cancelled.exchange.orders 3 7 ≡ no_order)
    × ((deal shop_outside no_royalty 9 3
          (sender 4)
          (cancelling 7)
          (with_order open_order draft_info)).paid
        ≡ [])
cancelling-anyone_example =
    cancelling-anyone shop_outside no_royalty 9 3 7 refl (sender 4) 5
      (with_order open_order draft_info) open-IsLinked refl refl refl refl

abbrev bought_order : Order
bought_order = record open_order { receiver = 6; fulfilled = true }

abbrev bought_info : TransferInfo
bought_info = record draft_info { to = 6; public_key = 1 ∷ [] }

bought-IsLinked : IsLinked 9 bought_order bought_info
bought-IsLinked = record {
  placed = refl;
  back = λ p. refl;
  bought = λ p. refl;
  buyer = λ p q. refl;
}

abbrev burned_collection : Collection ℕ
burned_collection = record (with_order bought_order bought_info).collection { ledger = 0 }

burned_by_owner :
    burn_call shop_outside (λ l k. 0) (sender 5) 7 (with_order bought_order bought_info).collection
    ≡ ok burned_collection
unfolding burn_call require
burned_by_owner = refl

-- Whatever the seller and the buyer try
abbrev tries : List (Msg × Deed)
tries = (sender 6, cancelling 7) ∷ (sender 6, calling (finalize_transfer 7)) ∷ []

shop_empty : (j : ℕ) → shop_outside.owner_of 0 j ≡ none
shop_empty j = ground arith

burn_call-loses_example :
    (deals shop_outside no_royalty 9 3 tries (record (with_order bought_order bought_info) {
      collection = burned_collection;
    })).market.exchange.orders
      3 7
    ≡ bought_order
burn_call-loses_example =
    burn_call-loses shop_outside no_royalty 9 3 7 (λ l k. 0) (sender 5)
      (with_order bought_order bought_info) burned_collection tries shop-IsLedger
      (λ l j. shop_empty j) refl bought-IsLinked refl refl refl refl refl burned_by_owner
