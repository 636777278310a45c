-- ===== src/Contracts/Market/Calls.antt =====
-- What the calls that the exchange makes leave of a transfer, and what its own calls leave of an order.
use file_market.Base.{ℕ, ◌/◌, ◌≡◌, refl, Bool, true, false, not, List, [], ◌∷◌, ltb, ◌==◌, ==_iff}
use file_market.Contracts.{Msg, mul_uint, sub_uint, put, Post, require-Post, bind-Post}
use file_market.Contracts.Collection.{
  TransferInfo, no_info, Bytes, Log, log_draft, log_draft_completion, log_public_key_set,
  log_cancellation, Outside, Collection, owner_of_token, call_receiver, require_created,
}
use file_market.Contracts.Collection.Sale.{
  start_transfer, draft_transfer_call, complete_transfer_draft_call,
}
use file_market.Contracts.Collection.Ending.{may_cancel, cancel_transfer_call}
use file_market.Contracts.Collection.Moves.Steps.{false_of_not}
use file_market.Contracts.Exchange.{
  Order, Exchange, Purse, percent_multiplier, take_payment, fulfilled_by, place_order,
  fulfill_order, fulfill_order_whitelisted,
}
use file_market.Contracts.Market.Deletions.{set_order-same, set_order-other}

-- A transfer that the exchange drafts for a token
abbrev pub draft_of : (x k from : ℕ) → TransferInfo
draft_of x k from = record no_info { id = k; initiator = x; from = from; callback_receiver = x }

module _ {L : Type 0} (o : Outside L) (m : Msg) (c : Collection L) (k : ℕ) where
  -- What a call leaves: one transfer, and the events
  abbrev pub Leaves : TransferInfo → List Log → Collection L × List Log → Type 0
  Leaves i ls r = (r.0.transfers ≡ put k i c.transfers) × (r.1 ≡ ls)

  pub draft-Leaves :
      (receiver : ℕ)
      → Post
          (λ r.
            (from : ℕ) × (number : ℕ) × Leaves
              (record no_info {
                id = k;
                initiator = m.sender;
                from = from;
                callback_receiver = receiver;
              })
              (log_draft k from number ∷ [])
              r)
          (draft_transfer_call o m c k receiver)
  unfolding draft_transfer_call
  draft-Leaves receiver = bind-Post _ (start_transfer o m c k) _ (λ number _.
      require-Post _ _ _ _
        (λ _. bind-Post _ (owner_of_token o m c k) _ (λ from _. (from, number, (refl, refl)))))

  pub complete-Leaves :
      (to : ℕ) (key d : Bytes)
      → Post
          (Leaves
            (record (c.transfers k) {
              to = to;
              data_ = d;
              public_key = key;
              public_key_set_at = m.timestamp;
            })
            (log_draft_completion k to ∷ log_public_key_set k key ∷ []))
          (complete_transfer_draft_call o m c k to key d)
  unfolding complete_transfer_draft_call require_created
  complete-Leaves to key d = require-Post _ _ _ _ (λ _.
      require-Post _ _ _ _
        (λ _. require-Post _ _ _ _ (λ _. require-Post _ _ _ _ (λ _. (refl, refl)))))

  pub cancel-Leaves : Post (Leaves no_info (log_cancellation k ∷ [])) (cancel_transfer_call o m c k)
  unfolding cancel_transfer_call require_created
  cancel-Leaves = require-Post _ _ _ _ (λ _. require-Post _ _ _ _ (λ _.
      bind-Post _ (may_cancel o m c k (c.transfers k)) _ (λ allowed _. require-Post _ _ _ _ (λ _.
        bind-Post _
          (call_receiver o m c (c.transfers k).callback_receiver
            (o.transfer_cancelled (c.transfers k).callback_receiver k))
          _ (λ _ _. (refl, refl))))))

-- What a call of the exchange leaves of an order, and of the others
abbrev pub Orders : (t k : ℕ) → Order → Exchange → Exchange → Type 0
Orders t k d e f = (f.orders t k ≡ d) × ((j : ℕ) → (j == k) ≡ false → f.orders t j ≡ e.orders t j)

abbrev pub order_placed : Msg → (t k price currency : ℕ) → Order
order_placed m t k price currency = record {
  token = t;
  token_id = k;
  price = price;
  currency = currency;
  initiator = m.sender;
  receiver = 0;
  fulfilled = false;
}

pub place_order-Orders :
    (supports returns : Bool) (m : Msg) (t k price currency : ℕ) (e : Exchange)
    → Post
        (λ f.
          (ltb 0 price ≡ true)
          × ((e.orders t k).price ≡ 0)
          × Orders t k (order_placed m t k price currency) e f)
        (place_order supports returns m t k price currency e)
unfolding place_order
place_order-Orders supports returns m t k price currency e =
    let d = order_placed m t k price currency in
    require-Post _ _ _ _ (λ p. require-Post _ _ _ _ (λ _. require-Post _ _ _ _ (λ free.
      require-Post _ _ _ _ (λ _. (
        p,
        (==_iff (e.orders t k).price 0).0 free,
        (set_order-same t k d e, λ j n. set_order-other t k j d e n),
      )))))

-- What a fulfilment leaves: the order was there and open
abbrev pub Fulfils : Msg → (t k : ℕ) → Exchange → Exchange → Type 0
Fulfils m t k e f =
    (((e.orders t k).price == 0) ≡ false)
    × ((e.orders t k).fulfilled ≡ false)
    × Orders t k (record (e.orders t k) { receiver = m.sender; fulfilled = true }) e f

fulfilled_by-Fulfils :
    (m : Msg) (t k : ℕ) (e : Exchange)
    → not ((e.orders t k).price == 0) ≡ true
    → not (e.orders t k).fulfilled ≡ true
    → Fulfils m t k e (fulfilled_by m t k e)
fulfilled_by-Fulfils m t k e p f =
    let d = record (e.orders t k) { receiver = m.sender; fulfilled = true } in
    (
      false_of_not _ p,
      false_of_not _ f,
      (set_order-same t k d e, λ j n. set_order-other t k j d e n),
    )

pub fulfill_order-Fulfils :
    (w : Purse) (m : Msg) (t k : ℕ) (e : Exchange)
    → Post (λ (r : Exchange × ℕ). Fulfils m t k e r.0) (fulfill_order w m t k e)
unfolding fulfill_order
fulfill_order-Fulfils w m t k e =
    let P = λ (r : Exchange × ℕ). Fulfils m t k e r.0 in
    require-Post P _ _ _ (λ p. require-Post P _ _ _ (λ f. require-Post P _ _ _ (λ _.
      bind-Post P
        (take_payment w (e.orders t k).currency (e.orders t k).price
          "FilemarketExchangeV2: allowance must be >= price"
          "FilemarketExchangeV2: value must equal")
        _ (λ taken _. require-Post P _ _ _ (λ _. fulfilled_by-Fulfils m t k e p f)))))

pub whitelisted-Fulfils :
    (signed : Bool) (w : Purse) (m : Msg) (t k : ℕ) (e : Exchange)
    → Post (λ (r : Exchange × ℕ). Fulfils m t k e r.0) (fulfill_order_whitelisted signed w m t k e)
unfolding fulfill_order_whitelisted
whitelisted-Fulfils signed w m t k e =
    let P = λ (r : Exchange × ℕ). Fulfils m t k e r.0 in
    require-Post P _ _ _ (λ p. require-Post P _ _ _ (λ f. require-Post P _ _ _ (λ _.
      require-Post P _ _ _ (λ _. require-Post P _ _ _ (λ _.
        bind-Post P (mul_uint (e.orders t k).price (e.whitelist_discounts t)) _ (λ share _.
          bind-Post P (sub_uint (e.orders t k).price (share / percent_multiplier)) _ (λ amount _.
            bind-Post P
              (take_payment w (e.orders t k).currency amount
                "FilemarketExchangeV2: allowance must be >= price with discount"
                "FilemarketExchangeV2: value must equal price with discount")
              _ (λ taken _. require-Post P _ _ _ (λ _. fulfilled_by-Fulfils m t k e p f)))))))))
