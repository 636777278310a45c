-- ===== src/Tests/Money.antt =====
-- An order of 100 with a fee of 2 percent, and a whitelist with a discount of 10 percent.
use file_market.Base.{ℕ, ◌+◌, ◌≡◌, refl, true, false, Option, some, List, [], ◌∷◌}
use file_market.Base.Result.{ok}
use file_market.Contracts.{Msg, require, add_uint, mul_uint, sub_uint}
use file_market.Contracts.Exchange.{
  Order, no_order, Exchange, Payment, Purse, take_payment, fulfill_order, fulfill_order_whitelisted,
  transfer_cancelled, calculate_fee, payoff_royalty, pay_seller, transfer_finished, set_order,
  fulfilled_by,
}
use file_market.Contracts.Exchange.Balance.{total, held, by_cancellation, by_finish, end_order}
use file_market.Contracts.Exchange.Deals.{
  discount, fulfill_order-balances, fulfill_order_whitelisted-overpays,
}

abbrev placed : Order
placed = record {
  token = 3;
  token_id = 7;
  price = 100;
  currency = 0;
  initiator = 5;
  receiver = 0;
  fulfilled = false;
}

abbrev market : ℕ → Exchange
market deadline = record {
  fee = 200;
  accumulated_fees = 1;
  tokens_received = [];
  accumulated_fees_erc20 = λ c. 0;
  whitelist_deadlines = λ t. deadline;
  whitelist_discounts = λ t. 1000;
  orders = λ t k. placed;
}

abbrev buyer : Msg
buyer = record { sender = 6; timestamp = 50 }

abbrev purse : ℕ → Purse
purse n = record { value = n; allowance = 0; transfer_returns = true; complete_returns = true }

abbrev bought : ℕ → Exchange
bought deadline = fulfilled_by buyer 3 7 (market deadline)

bought-taken : fulfill_order (purse 100) buyer 3 7 (market 0) ≡ ok (bought 0, 100)
unfolding fulfill_order take_payment require
bought-taken = refl

-- The royalty is 5.
abbrev royalty : ℕ → Option (ℕ × ℕ)
royalty amount = some (8, 5)

abbrev finished_market : Exchange
finished_market = set_order 3 7 no_order (record (bought 0) { accumulated_fees = 3 })

abbrev payments : List Payment
payments =
    record { currency = 0; to = 8; amount = 5 } ∷ record { currency = 0; to = 5; amount = 93 } ∷ []

finished-paid : end_order (by_finish royalty) 3 7 (bought 0) ≡ ok (finished_market, payments)
unfolding end_order transfer_finished pay_seller calculate_fee payoff_royalty require add_uint
    mul_uint sub_uint
finished-paid = refl

fulfill_order-balances_example : total payments + held 0 finished_market ≡ 100 + held 0 (bought 0)
fulfill_order-balances_example =
    fulfill_order-balances (purse 100) buyer (by_finish royalty) 3 7 (market 0) (bought 0)
      (bought 0) 100 (finished_market, payments) bought-taken refl finished-paid

discounted-taken :
    fulfill_order_whitelisted true (purse 90) buyer 3 7 (market 60) ≡ ok (bought 60, 90)
unfolding fulfill_order_whitelisted take_payment require mul_uint sub_uint
discounted-taken = refl

abbrev refund : List Payment
refund = record { currency = 0; to = 6; amount = 100 } ∷ []

discounted-cancelled :
    end_order by_cancellation 3 7 (bought 60) ≡ ok (set_order 3 7 no_order (bought 60), refund)
unfolding end_order transfer_cancelled require
discounted-cancelled = refl

-- The buyer pays 90 and gets 100 back.
fulfill_order_whitelisted-overpays_example :
    total refund + held 0 (set_order 3 7 no_order (bought 60))
    ≡ 90 + discount 3 7 (market 60) + held 0 (bought 60)
fulfill_order_whitelisted-overpays_example =
    fulfill_order_whitelisted-overpays true (purse 90) buyer by_cancellation 3 7 (market 60)
      (bought 60) (bought 60) 90 (set_order 3 7 no_order (bought 60), refund) discounted-taken refl
      discounted-cancelled
