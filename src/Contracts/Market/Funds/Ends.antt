-- ===== src/Contracts/Market/Funds/Ends.antt =====
-- What the end of an order does to the money of each currency.
use file_market.Base.{
  ℕ, ◌+◌, ◌/◌, ◌≡◌, refl, inl, inr, arith, true, false, not, ◌&&◌, Option, none, some, List, ltb,
  ◌==◌, Bool-cases, ==_iff,
}
use file_market.Contracts.{
  add_uint, mul_uint, sub_uint, Post, require-Post, bind-Post, seq-Post, Post-map, Post-and,
}
use file_market.Contracts.Exchange.{
  Order, Exchange, Payment, percent_multiplier, royalty_ceiling, keep_fee, calculate_fee,
  royalty_paid, payoff_royalty, pay_seller, transfer_cancelled, transfer_finished,
  transfer_fraud_detected,
}
use file_market.Contracts.Exchange.Balance.{
  held, End, by_cancellation, by_finish, by_fraud_decision, end_order, IsPaid, end_order-IsPaid,
}
use file_market.Contracts.Market.Funds.{
  in_currency, AreIn, AreIn-append, in_currency-total, in_currency-other, pledge,
}
use mathlib.Core.Path.{subst}

keep_fee-other :
    (b c amount : ℕ) (e : Exchange)
    → (c == b) ≡ false
    → Post (λ (f : Exchange). held b f ≡ held b e) (keep_fee c amount e)
keep_fee-other b c amount e n = elim (Bool-cases (c == 0)) [
  | inl p ↦ rw p (
      bind-Post (λ (f : Exchange). held b f ≡ held b e) (add_uint e.accumulated_fees amount) _
        (λ sum _. native_same sum (ground (arith, n, p))))
  | inr p ↦ rw p (
      bind-Post (λ (f : Exchange). held b f ≡ held b e)
        (add_uint (e.accumulated_fees_erc20 c) amount) _
        (λ sum _. let z : (b == c) ≡ false = ground (arith, n) in rw z refl))
]
  where
    native_same : (v : ℕ) → (b == 0) ≡ false → held b (record e { accumulated_fees = v }) ≡ held b e
    native_same v z = rw z refl

calculate_fee-other :
    (b price c : ℕ) (e : Exchange)
    → (c == b) ≡ false
    → Post (λ (r : Exchange × ℕ). held b r.0 ≡ held b e) (calculate_fee price c e)
unfolding calculate_fee
calculate_fee-other b price c e n =
    let P = λ (r : Exchange × ℕ). held b r.0 ≡ held b e in
    bind-Post P (mul_uint price e.fee) _ (λ share _.
      bind-Post P (sub_uint price (share / percent_multiplier)) _ (λ rest _.
        seq-Post P (λ (f : Exchange). held b f ≡ held b e)
          (keep_fee c (share / percent_multiplier) e) _
          (keep_fee-other b c (share / percent_multiplier) e n) (λ kept h. h)))

payoff_royalty-AreIn :
    (d : Order) (amount : ℕ) (info : Option (ℕ × ℕ))
    → Post (λ (r : List Payment × ℕ). AreIn d.currency r.0) (payoff_royalty d amount info)
unfolding payoff_royalty
payoff_royalty-AreIn d amount none = tt
payoff_royalty-AreIn d amount (some (receiver, royalty)) =
    let P = λ (r : List Payment × ℕ). AreIn d.currency r.0 in
    bind-Post P (mul_uint amount royalty_ceiling) _
      (λ share _. require-Post P _ _ _ (λ _. paid receiver royalty))
  where
    paid :
        (receiver royalty : ℕ)
        → Post
            (λ (r : List Payment × ℕ). AreIn d.currency r.0)
            (royalty_paid d amount (receiver, royalty))
    paid receiver royalty = elim (Bool-cases (not (receiver == 0) && ltb 0 royalty)) [
      | inl p ↦ rw p (
          bind-Post (λ (r : List Payment × ℕ). AreIn d.currency r.0) (sub_uint amount royalty) _
            (λ rest _. (refl, tt)))
      | inr p ↦ rw p tt
    ]

-- The payments of an end are in the order's currency.
pay_seller-AreIn :
    (t k : ℕ) (info : ℕ → Option (ℕ × ℕ)) (e : Exchange)
    → Post
        (λ (r : Exchange × List Payment). AreIn (e.orders t k).currency r.1)
        (pay_seller t k info e)
unfolding pay_seller
pay_seller-AreIn t k info e =
    let P = λ (r : Exchange × List Payment). AreIn (e.orders t k).currency r.1 in
    bind-Post P (calculate_fee (e.orders t k).price (e.orders t k).currency e) _ (λ charged _.
      seq-Post P (λ (r : List Payment × ℕ). AreIn (e.orders t k).currency r.0)
        (payoff_royalty (e.orders t k) charged.1 (info charged.1)) _
        (payoff_royalty-AreIn (e.orders t k) charged.1 (info charged.1))
        (λ paid own. AreIn-append (e.orders t k).currency paid.0 _ own (refl, tt)))

pay_seller-other :
    (b t k : ℕ) (info : ℕ → Option (ℕ × ℕ)) (e : Exchange)
    → ((e.orders t k).currency == b) ≡ false
    → Post (λ (r : Exchange × List Payment). held b r.0 ≡ held b e) (pay_seller t k info e)
unfolding pay_seller
pay_seller-other b t k info e n =
    let P = λ (r : Exchange × List Payment). held b r.0 ≡ held b e in
    seq-Post P (λ (r : Exchange × ℕ). held b r.0 ≡ held b e)
      (calculate_fee (e.orders t k).price (e.orders t k).currency e) _
      (calculate_fee-other b (e.orders t k).price (e.orders t k).currency e n)
      (λ charged same.
        bind-Post P (payoff_royalty (e.orders t k) charged.1 (info charged.1)) _ (λ paid _. same))

end-AreIn :
    (end : End) (t k : ℕ) (e : Exchange)
    → (e.orders t k).fulfilled ≡ true
    → Post
        (λ (r : Exchange × List Payment). AreIn (e.orders t k).currency r.1)
        (end_order end t k e)
unfolding end_order transfer_cancelled transfer_finished transfer_fraud_detected
end-AreIn by_cancellation t k e h = require-Post _ _ _ _ (λ _. rw h (refl, tt))
end-AreIn (by_finish info) t k e h =
    require-Post _ _ _ _ (λ _. require-Post _ _ _ _ (λ _. pay_seller-AreIn t k info e))
end-AreIn (by_fraud_decision true info) t k e h =
    require-Post _ _ _ _ (λ _. require-Post _ _ _ _ (λ _. (refl, tt)))
end-AreIn (by_fraud_decision false info) t k e h =
    require-Post _ _ _ _ (λ _. require-Post _ _ _ _ (λ _. pay_seller-AreIn t k info e))

end-other :
    (b : ℕ) (end : End) (t k : ℕ) (e : Exchange)
    → ((e.orders t k).currency == b) ≡ false
    → Post (λ (r : Exchange × List Payment). held b r.0 ≡ held b e) (end_order end t k e)
unfolding end_order transfer_cancelled transfer_finished transfer_fraud_detected
end-other b by_cancellation t k e n = require-Post _ _ _ _ (λ _. refl)
end-other b (by_finish info) t k e n =
    require-Post _ _ _ _ (λ _. require-Post _ _ _ _ (λ _. pay_seller-other b t k info e n))
end-other b (by_fraud_decision true info) t k e n =
    require-Post _ _ _ _ (λ _. require-Post _ _ _ _ (λ _. refl))
end-other b (by_fraud_decision false info) t k e n =
    require-Post _ _ _ _ (λ _. require-Post _ _ _ _ (λ _. pay_seller-other b t k info e n))

-- What the end of an order pays in a currency, with the fees, is what was owed for it and the fees.
abbrev pub Settles : (b t k : ℕ) → Exchange → Exchange × List Payment → Type 0
Settles b t k e r = in_currency b r.1 + held b r.0 ≡ pledge b (e.orders t k) + held b e

paid-Settles :
    (b : ℕ) (end : End) (t k : ℕ) (e : Exchange)
    → (e.orders t k).fulfilled ≡ true
    → Post (Settles b t k e) (end_order end t k e)
paid-Settles b end t k e done = elim (Bool-cases ((e.orders t k).currency == b)) [
  | inl p ↦
      let same = (==_iff (e.orders t k).currency b).0 p in
      Post-map _ (Settles b t k e) (end_order end t k e)
        (Post-and (λ (r : Exchange × List Payment). AreIn (e.orders t k).currency r.1)
          (IsPaid t k e) (end_order end t k e) (end-AreIn end t k e done)
          (end_order-IsPaid end t k e done))
        (λ r (own, paid).
          rw (done, p)
            (subst (λ c. in_currency c r.1 + held c r.0 ≡ (e.orders t k).price + held c e) same
              (rw (in_currency-total (e.orders t k).currency r.1 own) paid)))
  | inr p ↦
      Post-map _ (Settles b t k e) (end_order end t k e)
        (Post-and (λ (r : Exchange × List Payment). AreIn (e.orders t k).currency r.1)
          (λ (r : Exchange × List Payment). held b r.0 ≡ held b e) (end_order end t k e)
          (end-AreIn end t k e done) (end-other b end t k e p))
        (λ r (own, same).
          rw (done, p, in_currency-other b (e.orders t k).currency r.1 p own, same) refl)
]

-- However an order ends, fulfilled or not
pub end-Settles :
    (b : ℕ) (end : End) (t k : ℕ) (e : Exchange) → Post (Settles b t k e) (end_order end t k e)
unfolding end_order transfer_cancelled transfer_finished transfer_fraud_detected
end-Settles b end t k e = elim (Bool-cases (e.orders t k).fulfilled) [
  | inl p ↦ paid-Settles b end t k e p
  | inr p ↦ unpaid end p
]
  where
    unpaid :
        (end : End)
        → (e.orders t k).fulfilled ≡ false
        → Post (Settles b t k e) (end_order end t k e)
    unpaid by_cancellation p = require-Post (Settles b t k e) _ _ _ (λ _. rw p refl)
    unpaid (by_finish info) p =
        require-Post (Settles b t k e) _ _ _
          (λ _. require-Post (Settles b t k e) _ _ _ (λ done. absurd (ground (arith, done, p))))
    unpaid (by_fraud_decision approved info) p =
        require-Post (Settles b t k e) _ _ _
          (λ _. require-Post (Settles b t k e) _ _ _ (λ done. absurd (ground (arith, done, p))))
