-- ===== src/Contracts/Exchange/Balance.antt =====
-- What the exchange takes for an order and what it pays when the order ends.
use file_market.Base.{
  ℕ, ◌+◌, ◌/◌, ◌^◌, ◌≡◌, refl, ◌∙◌, inl, inr, Bool, true, false, not, ◌&&◌, Option, none, some,
  List, [], ◌∷◌, ◌++◌, arith, ltb, ◌==◌, if◌then◌else◌, ge_of_ltb, Bool-cases,
}
use file_market.Base.Result.{Result}
use file_market.Contracts.{
  add_uint, mul_uint, sub_uint, put_self, Post, require-Post, bind-Post, seq-Post,
}
use file_market.Contracts.Exchange.{
  Order, percent_multiplier, royalty_ceiling, Exchange, Payment, pay, transfer_cancelled, keep_fee,
  calculate_fee, royalty_paid, payoff_royalty, pay_seller, transfer_finished,
  transfer_fraud_detected,
}

abbrev pub total : List Payment → ℕ
total [] = 0
total (p ∷ ps) = p.amount + total ps

-- The fees of a currency that the exchange keeps
abbrev pub held : ℕ → Exchange → ℕ
held currency e = if currency == 0 then e.accumulated_fees else e.accumulated_fees_erc20 currency

pub sub_uint-Post : (a b : ℕ) → Post (λ c. c + b ≡ a) (sub_uint a b)
unfolding sub_uint
sub_uint-Post a b = elim (Bool-cases (ltb a b)) [
  | inl p ↦ rw p tt
  | inr p ↦ rw p (omega (arith, ge_of_ltb a b p))
]

add_uint-Post : (a b : ℕ) → Post (λ c. c ≡ a + b) (add_uint a b)
unfolding add_uint
add_uint-Post a b = elim (Bool-cases (ltb (a + b) (2 ^ 256))) [
  | inl p ↦ rw p refl
  | inr p ↦ rw p tt
]

keep_fee-Post :
    (currency amount : ℕ) (e : Exchange)
    → Post (λ r. held currency r ≡ held currency e + amount) (keep_fee currency amount e)
keep_fee-Post currency amount e = elim (Bool-cases (currency == 0)) [
  | inl p ↦ rw p (
      seq-Post (λ (r : Exchange). r.accumulated_fees ≡ e.accumulated_fees + amount)
        (λ c. c ≡ e.accumulated_fees + amount) (add_uint e.accumulated_fees amount) _
        (add_uint-Post e.accumulated_fees amount) (λ sum h. h))
  | inr p ↦ rw p (
      seq-Post
        (λ (r : Exchange).
          r.accumulated_fees_erc20 currency ≡ e.accumulated_fees_erc20 currency + amount)
        (λ c. c ≡ e.accumulated_fees_erc20 currency + amount)
        (add_uint (e.accumulated_fees_erc20 currency) amount) _
        (add_uint-Post (e.accumulated_fees_erc20 currency) amount)
        (λ sum h. put_self currency sum e.accumulated_fees_erc20 ∙ h))
]

total-append : (xs ys : List Payment) → total (xs ++ ys) ≡ total xs + total ys
total-append [] ys = omega arith
total-append (x ∷ xs) ys = omega (arith, total-append xs ys)

-- The fee and the rest are the price.
calculate_fee-Post :
    (price currency : ℕ) (e : Exchange)
    → Post (λ r. r.1 + held currency r.0 ≡ price + held currency e) (calculate_fee price currency e)
unfolding calculate_fee
calculate_fee-Post price currency e =
    bind-Post (λ (r : Exchange × ℕ). r.1 + held currency r.0 ≡ price + held currency e)
      (mul_uint price e.fee) _
      (λ share _.
        seq-Post (λ (r : Exchange × ℕ). r.1 + held currency r.0 ≡ price + held currency e)
          (λ rest. rest + share / percent_multiplier ≡ price)
          (sub_uint price (share / percent_multiplier)) _
          (sub_uint-Post price (share / percent_multiplier))
          (λ rest h.
            seq-Post (λ (r : Exchange × ℕ). r.1 + held currency r.0 ≡ price + held currency e)
              (λ kept. held currency kept ≡ held currency e + share / percent_multiplier)
              (keep_fee currency (share / percent_multiplier) e) _
              (keep_fee-Post currency (share / percent_multiplier) e)
              (λ kept g.
                summed (held currency kept) (held currency e) rest (share / percent_multiplier)
                  price h g)))
  where
    summed : (a b r f p : ℕ) → r + f ≡ p → a ≡ b + f → r + a ≡ p + b
    summed a b r f p h g = omega arith

-- The royalty and what is left are the amount.
payoff_royalty-Post :
    (o : Order) (amount : ℕ) (info : Option (ℕ × ℕ))
    → Post (λ r. total r.0 + r.1 ≡ amount) (payoff_royalty o amount info)
unfolding payoff_royalty
payoff_royalty-Post o amount none = omega arith
payoff_royalty-Post o amount (some (receiver, royalty)) =
    bind-Post (λ r. total r.0 + r.1 ≡ amount) (mul_uint amount royalty_ceiling) _
      (λ share _. require-Post (λ r. total r.0 + r.1 ≡ amount) _ _ _ (λ _. paid receiver royalty))
  where
    paid :
        (receiver royalty : ℕ)
        → Post (λ r. total r.0 + r.1 ≡ amount) (royalty_paid o amount (receiver, royalty))
    paid receiver royalty = elim (Bool-cases (not (receiver == 0) && ltb 0 royalty)) [
      | inl p ↦ rw p (
          seq-Post (λ (r : List Payment × ℕ). total r.0 + r.1 ≡ amount)
            (λ rest. rest + royalty ≡ amount) (sub_uint amount royalty) _
            (sub_uint-Post amount royalty) (λ rest h. omega (arith, h)))
      | inr p ↦ rw p (omega arith)
    ]

-- The payments of the end of an order, with the fees that are kept, are its price and the fees.
abbrev pub IsPaid : (token k : ℕ) → Exchange → Exchange × List Payment → Type 0
IsPaid token k e r =
    total r.1 + held (e.orders token k).currency r.0
    ≡ (e.orders token k).price + held (e.orders token k).currency e

pay_seller-Post :
    (token k : ℕ) (royalty_info : ℕ → Option (ℕ × ℕ)) (e : Exchange)
    → Post
        (λ r.
          total r.1 + held (e.orders token k).currency r.0
          ≡ (e.orders token k).price + held (e.orders token k).currency e)
        (pay_seller token k royalty_info e)
unfolding pay_seller
pay_seller-Post token k royalty_info e =
    seq-Post (IsPaid token k e)
      (λ (r : Exchange × ℕ).
        r.1 + held (e.orders token k).currency r.0
        ≡ (e.orders token k).price + held (e.orders token k).currency e)
      (calculate_fee (e.orders token k).price (e.orders token k).currency e) _
      (calculate_fee-Post (e.orders token k).price (e.orders token k).currency e)
      (λ charged h.
        seq-Post (IsPaid token k e) (λ (r : List Payment × ℕ). total r.0 + r.1 ≡ charged.1)
          (payoff_royalty (e.orders token k) charged.1 (royalty_info charged.1)) _
          (payoff_royalty-Post (e.orders token k) charged.1 (royalty_info charged.1))
          (λ paid g.
            summed
              (total (paid.0 ++ pay (e.orders token k) (e.orders token k).initiator paid.1 ∷ []))
              (total paid.0) paid.1 charged.1 (held (e.orders token k).currency charged.0)
              ((e.orders token k).price + held (e.orders token k).currency e)
              (total-append paid.0
                (pay (e.orders token k) (e.orders token k).initiator paid.1 ∷ []))
              g h))
  where
    summed : (t a b c f p : ℕ) → t ≡ a + (b + 0) → a + b ≡ c → c + f ≡ p → t + f ≡ p
    summed t a b c f p x y z = omega arith

-- The ways in which an order ends, as its token reports them
pub data End : Type 0 where
  by_cancellation : End
  by_finish : (royalty_info : ℕ → Option (ℕ × ℕ)) → End
  by_fraud_decision : Bool → (royalty_info : ℕ → Option (ℕ × ℕ)) → End

unfoldable pub end_order : End → (token k : ℕ) → Exchange → Result (Exchange × List Payment)
unfolding transfer_cancelled transfer_finished transfer_fraud_detected
end_order by_cancellation token k e = transfer_cancelled token k e
end_order (by_finish info) token k e = transfer_finished token k info e
end_order (by_fraud_decision approved info) token k e =
    transfer_fraud_detected token k approved info e

refunded : (p f : ℕ) → p + 0 + f ≡ p + f
refunded p f = omega arith

-- However a fulfilled order ends, what the exchange pays, with the fee that it keeps, is its price.
pub end_order-IsPaid :
    (end : End) (token k : ℕ) (e : Exchange)
    → (e.orders token k).fulfilled ≡ true
    → Post (IsPaid token k e) (end_order end token k e)
unfolding end_order transfer_cancelled transfer_finished transfer_fraud_detected
end_order-IsPaid by_cancellation token k e h =
    require-Post (IsPaid token k e) _ _ _ (λ _. rw h (refunded _ _))
end_order-IsPaid (by_finish info) token k e h =
    require-Post (IsPaid token k e) _ _ _
      (λ _. require-Post (IsPaid token k e) _ _ _ (λ _. pay_seller-Post token k info e))
end_order-IsPaid (by_fraud_decision true info) token k e h =
    require-Post (IsPaid token k e) _ _ _ (λ _.
      require-Post (IsPaid token k e) _ _ _
        (λ _. refunded (e.orders token k).price (held (e.orders token k).currency e)))
end_order-IsPaid (by_fraud_decision false info) token k e h =
    require-Post (IsPaid token k e) _ _ _
      (λ _. require-Post (IsPaid token k e) _ _ _ (λ _. pay_seller-Post token k info e))
