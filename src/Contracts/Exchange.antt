-- ===== src/Contracts/Exchange.antt =====
-- sol-contracts/contracts/FilemarketExchangeV2.sol: the orders of the exchange and the money that
-- it takes and pays. The collections, the currencies and the recovery of a signature are other code:
-- each call of them is a parameter, as it returns or reverts. The owner's settings are fields. The
-- money that a callback pays is a list of payments; Market/Paid is the revert of a transaction one of
-- whose payments does not go through.
use file_market.Base.{
  ℕ, ◌+◌, ◌/◌, String, Bool, true, false, not, ◌&&◌, ◌||◌, Option, none, some, List, [], ◌∷◌, ◌++◌,
  ltb, leb, ◌==◌, if◌then◌else◌,
}
use file_market.Base.Result.{Result, ok, ◌>>=◌}
use file_market.Contracts.{Msg, require, add_uint, mul_uint, sub_uint, put}
pub mod Balance
pub mod Deals

pub record Order : Type 0 where
  pub token : ℕ
  pub token_id : ℕ
  pub price : ℕ
  pub currency : ℕ
  pub initiator : ℕ
  pub receiver : ℕ
  pub fulfilled : Bool

abbrev pub no_order : Order
no_order = record {
  token = 0;
  token_id = 0;
  price = 0;
  currency = 0;
  initiator = 0;
  receiver = 0;
  fulfilled = false;
}

abbrev pub percent_multiplier : ℕ
percent_multiplier = 10000

abbrev pub royalty_ceiling : ℕ
royalty_ceiling = percent_multiplier

pub record Exchange : Type 0 where
  pub fee : ℕ
  pub accumulated_fees : ℕ
  pub tokens_received : List ℕ
  pub accumulated_fees_erc20 : ℕ → ℕ
  pub whitelist_deadlines : ℕ → ℕ
  pub whitelist_discounts : ℕ → ℕ
  pub orders : ℕ → ℕ → Order

-- Money that leaves the exchange
pub record Payment : Type 0 where
  pub currency : ℕ
  pub to : ℕ
  pub amount : ℕ

abbrev pub set_order : ℕ → ℕ → Order → Exchange → Exchange
set_order token k o e = record e { orders = put token (put k o (e.orders token)) e.orders }

-- `placeOrder`; `supports` and `draft_returns` are the two calls of the token.
unfoldable pub place_order :
    (supports draft_returns : Bool)
    → Msg
    → (token k price currency : ℕ) → Exchange
    → Result Exchange
place_order supports draft_returns m token k price currency e = do
  _ ← require (ltb 0 price) "FilemarketExchangeV2: price must be positive"
  _ ← require supports "no interface"
  _ ← require ((e.orders token k).price == 0) "FilemarketExchangeV2: order exists"
  _ ← require draft_returns "draftTransfer reverted"
  ok (
      set_order token k
        (record {
          token = token;
          token_id = k;
          price = price;
          currency = currency;
          initiator = m.sender;
          receiver = 0;
          fulfilled = false;
        })
        e)

-- What a buyer pays with: the value that comes with the call, the allowance in the order's currency,
-- and whether its transfer and the call of the token return
pub record Purse : Type 0 where
  pub value : ℕ
  pub allowance : ℕ
  pub transfer_returns : Bool
  pub complete_returns : Bool

-- The money that the exchange takes, and the order that is fulfilled by it
unfoldable pub take_payment : Purse → (currency amount : ℕ) → String → String → Result ℕ
take_payment w currency amount low unequal =
    if not (currency == 0)
    then (do
      _ ← require (leb amount w.allowance) low
      _ ← require w.transfer_returns "SafeERC20: transfer failed"
      ok amount)
    else (do _ ← require (w.value == amount) unequal; ok w.value)

abbrev pub fulfilled_by : Msg → ℕ → ℕ → Exchange → Exchange
fulfilled_by m token k e =
    set_order token k (record (e.orders token k) { receiver = m.sender; fulfilled = true }) e

unfoldable pub fulfill_order : Purse → Msg → (token k : ℕ) → Exchange → Result (Exchange × ℕ)
unfolding take_payment
fulfill_order w m token k e = do
  _ ← require (not ((e.orders token k).price == 0)) "FilemarketExchangeV2: order doesn't exist"
  _ ← require (not (e.orders token k).fulfilled) "FilemarketExchangeV2: order was already fulfilled"
  _ ←
      require ((e.whitelist_deadlines token == 0) || ltb (e.whitelist_deadlines token) m.timestamp)
        "FilemarketExchangeV2: whitelist period"
  taken ←
      take_payment w (e.orders token k).currency (e.orders token k).price
        "FilemarketExchangeV2: allowance must be >= price" "FilemarketExchangeV2: value must equal"
  _ ← require w.complete_returns "completeTransferDraft reverted"
  ok (fulfilled_by m token k e, taken)

-- `signed`: the signature is the owner's for the sender.
unfoldable pub fulfill_order_whitelisted :
    (signed : Bool) → Purse → Msg → (token k : ℕ) → Exchange → Result (Exchange × ℕ)
unfolding take_payment mul_uint sub_uint
fulfill_order_whitelisted signed w m token k e = do
  _ ← require (not ((e.orders token k).price == 0)) "FilemarketExchangeV2: order doesn't exist"
  _ ← require (not (e.orders token k).fulfilled) "FilemarketExchangeV2: order was already fulfilled"
  _ ←
      require (not (e.whitelist_deadlines token == 0))
        "FilemarketExchangeV2: collection doesn't have whitelist"
  _ ←
      require (ltb m.timestamp (e.whitelist_deadlines token))
        "FilemarketExchangeV2: whitelist deadline exceeds"
  _ ← require signed "FilemarketExchangeV2: whitelist invalid signature"
  share ← mul_uint (e.orders token k).price (e.whitelist_discounts token)
  amount ← sub_uint (e.orders token k).price (share / percent_multiplier)
  taken ←
      take_payment w (e.orders token k).currency amount
        "FilemarketExchangeV2: allowance must be >= price with discount"
        "FilemarketExchangeV2: value must equal price with discount"
  _ ← require w.complete_returns "completeTransferDraft reverted"
  ok (fulfilled_by m token k e, taken)

abbrev pub pay : Order → (to amount : ℕ) → Payment
pay o to amount = record { currency = o.currency; to = to; amount = amount }

-- `transferCancelled`, which the token calls
unfoldable pub transfer_cancelled : (token k : ℕ) → Exchange → Result (Exchange × List Payment)
transfer_cancelled token k e = do
  _ ← require (not ((e.orders token k).price == 0)) "FilemarketExchangeV2: order doesn't exist"
  ok (
    set_order token k no_order e,
    if (e.orders token k).fulfilled
        then pay (e.orders token k) (e.orders token k).receiver (e.orders token k).price ∷ []
        else [],
  )

-- `calculateFee`
abbrev pub keep_fee : (currency amount : ℕ) → Exchange → Result Exchange
keep_fee currency amount e =
    if not (currency == 0)
    then (do
      sum ← add_uint (e.accumulated_fees_erc20 currency) amount
      ok (record e {
        accumulated_fees_erc20 = put currency sum e.accumulated_fees_erc20;
        tokens_received =
            if e.accumulated_fees_erc20 currency == 0
            then e.tokens_received ++ currency ∷ []
            else e.tokens_received;
      }))
    else (do sum ← add_uint e.accumulated_fees amount; ok (record e { accumulated_fees = sum }))

unfoldable pub calculate_fee : (price currency : ℕ) → Exchange → Result (Exchange × ℕ)
unfolding mul_uint sub_uint add_uint
calculate_fee price currency e = do
  share ← mul_uint price e.fee
  rest ← sub_uint price (share / percent_multiplier)
  kept ← keep_fee currency (share / percent_multiplier) e
  ok (kept, rest)

-- `payoffRoyalty`, whose `try` gives the receiver and the amount or fails
abbrev pub royalty_paid : Order → ℕ → ℕ × ℕ → Result (List Payment × ℕ)
royalty_paid o final_amount (receiver, amount) =
    if not (receiver == 0) && ltb 0 amount
    then (do rest ← sub_uint final_amount amount; ok (pay o receiver amount ∷ [], rest))
    else ok ([], final_amount)

unfoldable pub payoff_royalty :
    Order → (final_amount : ℕ) → Option (ℕ × ℕ) → Result (List Payment × ℕ)
unfolding mul_uint sub_uint
payoff_royalty o final_amount none = ok ([], final_amount)
payoff_royalty o final_amount (some info) = do
  share ← mul_uint final_amount royalty_ceiling
  _ ←
      require (leb info.1 (share / percent_multiplier))
        "FilemarketExchangeV2: royalty % is too high"
  royalty_paid o final_amount info

-- What `transferFinished` and `transferFraudDetected` share: the payments of the royalty and of the
-- seller, as a list that Market/Paid has go through or revert, and the order that is deleted
unfoldable pub pay_seller :
    (token k : ℕ) → (ℕ → Option (ℕ × ℕ)) → Exchange → Result (Exchange × List Payment)
unfolding calculate_fee payoff_royalty
pay_seller token k royalty_info e = do
  charged ← calculate_fee (e.orders token k).price (e.orders token k).currency e
  paid ← payoff_royalty (e.orders token k) charged.1 (royalty_info charged.1)
  ok (
    set_order token k no_order charged.0,
    paid.0 ++ pay (e.orders token k) (e.orders token k).initiator paid.1 ∷ [],
  )

unfoldable pub transfer_finished :
    (token k : ℕ) → (ℕ → Option (ℕ × ℕ)) → Exchange → Result (Exchange × List Payment)
unfolding pay_seller
transfer_finished token k royalty_info e = do
  _ ← require (not ((e.orders token k).price == 0)) "FilemarketExchangeV2: order doesn't exist"
  _ ← require (e.orders token k).fulfilled "FilemarketExchangeV2: order wasn't fulfilled"
  pay_seller token k royalty_info e

unfoldable pub transfer_fraud_detected :
    (token k : ℕ) → Bool → (ℕ → Option (ℕ × ℕ)) → Exchange → Result (Exchange × List Payment)
unfolding pay_seller
transfer_fraud_detected token k approved royalty_info e = do
  _ ← require (not ((e.orders token k).price == 0)) "FilemarketExchangeV2: order doesn't exist"
  _ ← require (e.orders token k).fulfilled "FilemarketExchangeV2: order wasn't fulfilled"
  if approved
      then ok (
        set_order token k no_order e,
        pay (e.orders token k) (e.orders token k).receiver (e.orders token k).price ∷ [],
      )
      else pay_seller token k royalty_info e
