-- ===== src/Contracts/Market/Fees.antt =====
-- The fee of an order in the chain's own coin, and what its end pays.
use file_market.Base.{
  ℕ, ◌+◌, ◌-◌, ◌*◌, ◌/◌, ◌^◌, ◌≤◌, ◌<◌, ◌≡◌, refl, arith, true, false, Option, List, [], ◌∷◌, ◌++◌,
  ltb, ◌==◌, ltb_of_lt, ltb_of_ge,
}
use file_market.Base.Result.{ok}
use file_market.Contracts.{require}
use file_market.Contracts.Exchange.{
  Order, no_order, Exchange, Payment, set_order, transfer_finished, pay, pay_seller, calculate_fee,
  payoff_royalty, percent_multiplier,
}
use native.Mathlib.Nat.{mul-le-mul_left}

pub not_zero : (n : ℕ) → ltb 0 n ≡ true → (n == 0) ≡ false
not_zero n h = ground (arith, h)

-- The fee of an order that is paid for in the chain's own coin
calculate_fee_lem :
    (price : ℕ) (e : Exchange)
    → e.fee ≤ percent_multiplier
    → price * percent_multiplier < 2 ^ 256
    → e.accumulated_fees + price < 2 ^ 256
    → calculate_fee price 0 e
      ≡ ok (
        record e { accumulated_fees = e.accumulated_fees + price * e.fee / percent_multiplier },
        price - price * e.fee / percent_multiplier,
      )
unfolding calculate_fee
calculate_fee_lem price e low small room =
    let le : price * e.fee ≤ price * percent_multiplier = mul-le-mul_left price low in
    let share : price * e.fee / percent_multiplier ≤ price = omega (arith, le) in
    rw
      (
        ltb_of_lt (price * e.fee) (2 ^ 256) (omega (arith, le, small)),
        ltb_of_ge price (price * e.fee / percent_multiplier) share,
        ltb_of_lt (e.accumulated_fees + price * e.fee / percent_multiplier) (2 ^ 256)
            (omega (arith, share, room)),
      )
      refl

-- A fulfilled order in the chain's own coin
abbrev pub sold_order : (t k price placer buyer : ℕ) → Order
sold_order t k price placer buyer = record {
  token = t;
  token_id = k;
  price = price;
  currency = 0;
  initiator = placer;
  receiver = buyer;
  fulfilled = true;
}

-- The price without the fee
abbrev pub without_fee : (price : ℕ) → Exchange → ℕ
without_fee price e = price - price * e.fee / percent_multiplier

-- What `transferFinished` does for such an order
pub finished_lem :
    (t k price placer buyer : ℕ) (info : ℕ → Option (ℕ × ℕ)) (e : Exchange) (ps : List Payment)
    (rest : ℕ)
    → e.orders t k ≡ sold_order t k price placer buyer
    → (price == 0) ≡ false
    → e.fee ≤ percent_multiplier
    → price * percent_multiplier < 2 ^ 256
    → e.accumulated_fees + price < 2 ^ 256
    → payoff_royalty
        (sold_order t k price placer buyer)
        (without_fee price e)
        (info (without_fee price e))
      ≡ ok (ps, rest)
    → transfer_finished t k info e
      ≡ ok (
        set_order t k no_order (record e {
          accumulated_fees = e.accumulated_fees + price * e.fee / percent_multiplier;
        }),
        ps ++ pay (sold_order t k price placer buyer) placer rest ∷ [],
      )
unfolding transfer_finished pay_seller require
finished_lem t k price placer buyer info e ps rest eo there low small room paid =
    rw (eo, there, calculate_fee_lem price e low small room, paid) refl
