-- ===== src/Contracts/Exchange/Deals.antt =====
-- The money of an order from its fulfilment to its end.
use file_market.Base.{
  ℕ, String, ◌+◌, ◌*◌, ◌/◌, ◌^◌, ◌≡◌, refl, sym, ap, ◌∙◌, inl, inr, Bool, true, List, ltb, leb,
  ◌==◌, ==_iff, Bool-cases,
}
use file_market.Base.Result.{ok}
use file_market.Contracts.{
  Msg, mul_uint, sub_uint, put, put_self, Post, require-Post, seq-Post, Post-ok,
}
use file_market.Contracts.Exchange.{
  Order, percent_multiplier, Exchange, Payment, Purse, take_payment, fulfilled_by, fulfill_order,
  fulfill_order_whitelisted,
}
use file_market.Contracts.Exchange.Balance.{
  total, held, IsPaid, sub_uint-Post, End, end_order, end_order-IsPaid,
}
use mathlib.Core.Path.{subst}

-- What is taken is the amount asked for.
pub take_payment-Post :
    (w : Purse) (currency amount : ℕ) (low unequal : String)
    → Post (λ taken. taken ≡ amount) (take_payment w currency amount low unequal)
unfolding take_payment
take_payment-Post w currency amount low unequal = elim (Bool-cases (currency == 0)) [
  | inl p ↦ rw p (
      require-Post (λ taken. taken ≡ amount) (w.value == amount) unequal _
        (λ e. (==_iff w.value amount).0 e))
  | inr p ↦ rw p (
      require-Post (λ taken. taken ≡ amount) (leb amount w.allowance) low _
        (λ _.
          require-Post (λ taken. taken ≡ amount) w.transfer_returns "SafeERC20: transfer failed" _
            (λ _. refl)))
]

-- What a fulfilment leaves: the order with its price, fulfilled, and the money taken for it
abbrev IsFulfilled : (m : Msg) (token k amount : ℕ) → Exchange → Exchange × ℕ → Type 0
IsFulfilled m token k amount e r =
    (r.1 ≡ amount)
    × (r.0.orders token k ≡ record (e.orders token k) { receiver = m.sender; fulfilled = true })

fulfilled_by-order :
    (m : Msg) (token k : ℕ) (e : Exchange)
    → (fulfilled_by m token k e).orders token k
      ≡ record (e.orders token k) { receiver = m.sender; fulfilled = true }
fulfilled_by-order m token k e =
    let o = record (e.orders token k) { receiver = m.sender; fulfilled = true } in
    ap (λ f. f k) (put_self token (put k o (e.orders token)) e.orders)
    ∙ put_self k o (e.orders token)

fulfill_order-IsFulfilled :
    (w : Purse) (m : Msg) (token k : ℕ) (e : Exchange)
    → Post (IsFulfilled m token k (e.orders token k).price e) (fulfill_order w m token k e)
unfolding fulfill_order
fulfill_order-IsFulfilled w m token k e =
    let P = IsFulfilled m token k (e.orders token k).price e in
    require-Post P _ _ _ (λ _. require-Post P _ _ _ (λ _. require-Post P _ _ _ (λ _.
      seq-Post P (λ taken. taken ≡ (e.orders token k).price)
        (take_payment w (e.orders token k).currency (e.orders token k).price
          "FilemarketExchangeV2: allowance must be >= price"
          "FilemarketExchangeV2: value must equal")
        _ (take_payment-Post w (e.orders token k).currency (e.orders token k).price _ _)
        (λ taken paid. require-Post P _ _ _ (λ _. (paid, fulfilled_by-order m token k e))))))

-- The price without the discount of the collection
abbrev pub discount : (token k : ℕ) → Exchange → ℕ
discount token k e = (e.orders token k).price * e.whitelist_discounts token / percent_multiplier

mul_uint-Post : (a b : ℕ) → Post (λ c. c ≡ a * b) (mul_uint a b)
unfolding mul_uint
mul_uint-Post a b = elim (Bool-cases (ltb (a * b) (2 ^ 256))) [
  | inl p ↦ rw p refl
  | inr p ↦ rw p tt
]

-- What a fulfilment at the discount leaves
abbrev IsDiscounted : (m : Msg) (token k : ℕ) → Exchange → Exchange × ℕ → Type 0
IsDiscounted m token k e r =
    (r.1 + discount token k e ≡ (e.orders token k).price)
    × (r.0.orders token k ≡ record (e.orders token k) { receiver = m.sender; fulfilled = true })

whitelisted-IsDiscounted :
    (signed : Bool) (w : Purse) (m : Msg) (token k : ℕ) (e : Exchange)
    → Post (IsDiscounted m token k e) (fulfill_order_whitelisted signed w m token k e)
unfolding fulfill_order_whitelisted
whitelisted-IsDiscounted signed w m token k e =
    let P = IsDiscounted m token k e in
    require-Post P _ _ _ (λ _. require-Post P _ _ _ (λ _. require-Post P _ _ _ (λ _.
      require-Post P _ _ _ (λ _. require-Post P _ _ _ (λ _.
        seq-Post P (λ share. share ≡ (e.orders token k).price * e.whitelist_discounts token)
          (mul_uint (e.orders token k).price (e.whitelist_discounts token)) _
          (mul_uint-Post (e.orders token k).price (e.whitelist_discounts token))
          (λ share h.
            seq-Post P (λ amount. amount + share / percent_multiplier ≡ (e.orders token k).price)
              (sub_uint (e.orders token k).price (share / percent_multiplier)) _
              (sub_uint-Post (e.orders token k).price (share / percent_multiplier))
              (λ amount g.
                seq-Post P (λ taken. taken ≡ amount)
                  (take_payment w (e.orders token k).currency amount
                    "FilemarketExchangeV2: allowance must be >= price with discount"
                    "FilemarketExchangeV2: value must equal price with discount")
                  _ (take_payment-Post w (e.orders token k).currency amount _ _)
                  (λ taken paid. require-Post P _ _ _ (λ _. (
                    ap (λ t. t + discount token k e) paid
                        ∙ ap (λ t. amount + t / percent_multiplier) (sym h)
                        ∙ g,
                    fulfilled_by-order m token k e,
                  ))))))))))

-- An order whose fields are those of a fulfilled one ends with payments of its price.
ended-total :
    (end : End) (token k : ℕ) (o : Order) (m : Msg) (e : Exchange) (r : Exchange × List Payment)
    → e.orders token k ≡ record o { receiver = m.sender; fulfilled = true }
    → end_order end token k e ≡ ok r
    → total r.1 + held o.currency r.0 ≡ o.price + held o.currency e
ended-total end token k o m e r q h =
    subst (λ d. total r.1 + held d.currency r.0 ≡ d.price + held d.currency e) q
      (Post-ok (IsPaid token k e) (end_order end token k e) h
        (end_order-IsPaid end token k e (ap (λ d. d.fulfilled) q)))

-- An order that is fulfilled at its price and ends later, in whichever way, at a time when the
-- exchange still has it as it was: what the exchange pays for it, with the fee that it keeps, is
-- what it took.
pub fulfill_order-balances :
    (w : Purse) (m : Msg) (end : End) (token k : ℕ) (e after later : Exchange) (taken : ℕ)
    (r : Exchange × List Payment)
    → fulfill_order w m token k e ≡ ok (after, taken)
    → later.orders token k ≡ after.orders token k
    → end_order end token k later ≡ ok r
    → total r.1 + held (e.orders token k).currency r.0
      ≡ taken + held (e.orders token k).currency later
fulfill_order-balances w m end token k e after later taken r f same h =
    let (paid, o) =
      Post-ok (IsFulfilled m token k (e.orders token k).price e) (fulfill_order w m token k e) f
        (fulfill_order-IsFulfilled w m token k e) in
    ended-total end token k (e.orders token k) m later r (same ∙ o) h
    ∙ ap (λ t. t + held (e.orders token k).currency later) (sym paid)

-- An order that is fulfilled at the discount of the whitelist and ends later in the same way: what
-- the exchange pays for it, with the fee that it keeps, is more than it took by the discount.
pub fulfill_order_whitelisted-overpays :
    (signed : Bool) (w : Purse) (m : Msg) (end : End) (token k : ℕ) (e after later : Exchange)
    (taken : ℕ) (r : Exchange × List Payment)
    → fulfill_order_whitelisted signed w m token k e ≡ ok (after, taken)
    → later.orders token k ≡ after.orders token k
    → end_order end token k later ≡ ok r
    → total r.1 + held (e.orders token k).currency r.0
      ≡ taken + discount token k e + held (e.orders token k).currency later
fulfill_order_whitelisted-overpays signed w m end token k e after later taken r f same h =
    let (paid, o) =
      Post-ok (IsDiscounted m token k e) (fulfill_order_whitelisted signed w m token k e) f
        (whitelisted-IsDiscounted signed w m token k e) in
    ended-total end token k (e.orders token k) m later r (same ∙ o) h
    ∙ ap (λ t. t + held (e.orders token k).currency later) (sym paid)
