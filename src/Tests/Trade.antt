-- ===== src/Tests/Trade.antt =====
-- A token that is put on sale for 90 through the page and bought through it, in a market whose
-- collections have no whitelist.
use file_market.Base.{ℕ, String, ◌≡◌, refl, true, none, some, [], str_eq, if◌then◌else◌}
use file_market.Base.Result.{Result, ok, err}
use file_market.Contracts.{Msg, require}
use file_market.Contracts.Exchange.{no_order, Exchange, place_order, set_order, fulfilled_by}
use file_market.Contracts.Interaction.{
  provided, present, check_balance, get_tx_receipt, Wallet, call_contract, place_order_asked,
  fulfill_order_asked,
}
use file_market.Contracts.Interaction.Sale.{
  Answers, on_chain, mined, order_of, asking, place_order_asked-fulfilled,
}

abbrev empty_market : Exchange
empty_market = record {
  fee = 200;
  accumulated_fees = 0;
  tokens_received = [];
  accumulated_fees_erc20 = λ c. 0;
  whitelist_deadlines = λ t. 0;
  whitelist_discounts = λ t. 0;
  orders = λ t k. no_order;
}

abbrev seller : Msg
seller = record { sender = 5; timestamp = 40 }

abbrev shopper : Msg
shopper = record { sender = 6; timestamp = 50 }

-- The texts of the token 7 and the price 90; any other text is taken for the collection 3.
abbrev number_in : String → Result ℕ
number_in text = if str_eq text "7" then ok 7 else if str_eq text "90" then ok 90 else ok 3

abbrev answers : Answers
answers = record {
  supports = true;
  draft_returns = true;
  purse = record { value = 0; allowance = 0; transfer_returns = true; complete_returns = true };
}

abbrev rich : Wallet
rich = record { connected = true; address = some "0x6"; balance = some 100 }

abbrev on_sale_at_90 : Exchange
on_sale_at_90 = set_order 3 7 (order_of seller 3 7 90 0) empty_market

placed_at_90 :
    place_order_asked number_in mined rich
      (some (on_chain number_in answers seller empty_market))
      (asking "0xc0" "7" "90" none)
    ≡ ok (on_sale_at_90, 0)
unfolding place_order_asked provided present call_contract check_balance get_tx_receipt place_order
    require
placed_at_90 = refl

-- A buyer with the price and no more is refused before anything is written.
refused_at_90 :
    fulfill_order_asked number_in mined
      (λ c. ok c)
      (λ a c i. ok "0x01")
      (record rich { balance = some 90 })
      (some (on_chain number_in answers shopper on_sale_at_90))
      (asking "0xc0" "7" "90" none)
    ≡ err "Balance too low for transaction."
unfolding fulfill_order_asked provided present call_contract check_balance require
refused_at_90 = refl

place_order_asked-fulfilled_example :
    fulfill_order_asked number_in mined
      (λ c. ok c)
      (λ a c i. ok "0x01")
      rich
      (some (on_chain number_in answers shopper on_sale_at_90))
      (asking "0xc0" "7" "90" (some "ab"))
    ≡ ok (fulfilled_by shopper 3 7 on_sale_at_90, 90)
place_order_asked-fulfilled_example =
    place_order_asked-fulfilled number_in number_in (λ c. ok c) (λ a c i. ok "0x01") rich rich
      answers answers seller shopper empty_market on_sale_at_90 on_sale_at_90 "0xc0" "7" "90" "0xc0"
      "0x6" "0x01" none (some "ab") 3 7 90 100 0 refl refl refl refl refl refl refl refl refl refl
      placed_at_90 refl refl refl refl refl
