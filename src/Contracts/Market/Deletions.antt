-- ===== src/Contracts/Market/Deletions.antt =====
-- The end of an order in the exchange.
use file_market.Base.{
  ℕ, ◌/◌, ◌≡◌, refl, ap, ◌∙◌, inl, inr, Bool, true, false, Option, List, ◌==◌, Bool-cases,
}
use file_market.Base.Result.{Result}
use file_market.Contracts.{
  add_uint, mul_uint, sub_uint, put, put_self, put_ne, Post, require-Post, bind-Post, seq-Post,
}
use file_market.Contracts.Exchange.{
  Order, no_order, Exchange, Payment, set_order, percent_multiplier, keep_fee, pay_seller,
  calculate_fee, payoff_royalty, transfer_cancelled, transfer_finished, transfer_fraud_detected,
}

-- The end of an order: it is deleted, and the other orders stay.
abbrev pub IsDeleted : (t k : ℕ) → Exchange → Exchange → Type 0
IsDeleted t k e f =
    (f.orders t k ≡ no_order) × ((j : ℕ) → (j == k) ≡ false → f.orders t j ≡ e.orders t j)

abbrev pub Deleted : (t k : ℕ) → Exchange → Exchange × List Payment → Type 0
Deleted t k e a = IsDeleted t k e a.0

-- The same of a call of the exchange
abbrev pub Deletes : (t k : ℕ) → Exchange → Result (Exchange × List Payment) → Type 0
Deletes t k e r = Post (λ (a : Exchange × List Payment). IsDeleted t k e a.0) r

pub set_order-same : (t k : ℕ) (d : Order) (e : Exchange) → (set_order t k d e).orders t k ≡ d
set_order-same t k d e =
    ap (λ f. f k) (put_self t (put k d (e.orders t)) e.orders) ∙ put_self k d (e.orders t)

pub set_order-other :
    (t k j : ℕ) (d : Order) (e : Exchange)
    → (j == k) ≡ false
    → (set_order t k d e).orders t j ≡ e.orders t j
set_order-other t k j d e h =
    ap (λ f. f j) (put_self t (put k d (e.orders t)) e.orders) ∙ put_ne k j d (e.orders t) h

set_order-IsDeleted :
    (t k : ℕ) (e f : Exchange) → f.orders ≡ e.orders → IsDeleted t k e (set_order t k no_order f)
set_order-IsDeleted t k e f h =
    (set_order-same t k no_order f, λ j n. set_order-other t k j no_order f n ∙ ap (λ os. os t j) h)

keep_fee-orders :
    (currency amount : ℕ) (e : Exchange)
    → Post (λ (f : Exchange). f.orders ≡ e.orders) (keep_fee currency amount e)
keep_fee-orders currency amount e = elim (Bool-cases (currency == 0)) [
  | inl p ↦ rw p (
      bind-Post (λ (f : Exchange). f.orders ≡ e.orders) (add_uint e.accumulated_fees amount) _
        (λ sum _. refl))
  | inr p ↦ rw p (
      bind-Post (λ (f : Exchange). f.orders ≡ e.orders)
        (add_uint (e.accumulated_fees_erc20 currency) amount) _ (λ sum _. refl))
]

calculate_fee-orders :
    (price currency : ℕ) (e : Exchange)
    → Post (λ r. r.0.orders ≡ e.orders) (calculate_fee price currency e)
unfolding calculate_fee
calculate_fee-orders price currency e =
    let P = λ (r : Exchange × ℕ). r.0.orders ≡ e.orders in
    bind-Post P (mul_uint price e.fee) _ (λ share _.
      bind-Post P (sub_uint price (share / percent_multiplier)) _ (λ rest _.
        seq-Post P (λ (f : Exchange). f.orders ≡ e.orders)
          (keep_fee currency (share / percent_multiplier) e) _
          (keep_fee-orders currency (share / percent_multiplier) e) (λ kept h. h)))

pay_seller-IsDeleted :
    (t k : ℕ) (royalty : ℕ → Option (ℕ × ℕ)) (e : Exchange)
    → Deletes t k e (pay_seller t k royalty e)
unfolding pay_seller
pay_seller-IsDeleted t k royalty e =
    seq-Post (Deleted t k e) (λ r. r.0.orders ≡ e.orders)
      (calculate_fee (e.orders t k).price (e.orders t k).currency e) _
      (calculate_fee-orders (e.orders t k).price (e.orders t k).currency e)
      (λ charged h.
        bind-Post (Deleted t k e) (payoff_royalty (e.orders t k) charged.1 (royalty charged.1)) _
          (λ paid _. set_order-IsDeleted t k e charged.0 h))

pub cancelled-IsDeleted : (t k : ℕ) (e : Exchange) → Deletes t k e (transfer_cancelled t k e)
unfolding transfer_cancelled
cancelled-IsDeleted t k e =
    require-Post (Deleted t k e) _ _ _ (λ _. set_order-IsDeleted t k e e refl)

pub finished-IsDeleted :
    (t k : ℕ) (royalty : ℕ → Option (ℕ × ℕ)) (e : Exchange)
    → Deletes t k e (transfer_finished t k royalty e)
unfolding transfer_finished
finished-IsDeleted t k royalty e =
    require-Post (Deleted t k e) _ _ _
      (λ _. require-Post (Deleted t k e) _ _ _ (λ _. pay_seller-IsDeleted t k royalty e))

pub fraud-IsDeleted :
    (t k : ℕ) (b : Bool) (royalty : ℕ → Option (ℕ × ℕ)) (e : Exchange)
    → Deletes t k e (transfer_fraud_detected t k b royalty e)
unfolding transfer_fraud_detected
fraud-IsDeleted t k true royalty e =
    require-Post (Deleted t k e) _ _ _
      (λ _. require-Post (Deleted t k e) _ _ _ (λ _. set_order-IsDeleted t k e e refl))
fraud-IsDeleted t k false royalty e =
    require-Post (Deleted t k e) _ _ _
      (λ _. require-Post (Deleted t k e) _ _ _ (λ _. pay_seller-IsDeleted t k royalty e))
