-- ===== src/Contracts/Market/Orders.antt =====
-- The order that a transfer of the exchange starts with.
use file_market.Base.{ℕ, ◌≡◌, refl, arith, true, false, ltb, ◌==◌}
use file_market.Contracts.{Msg}
use file_market.Contracts.Collection.{TransferInfo, Bytes}
use file_market.Contracts.Exchange.{Order}
use file_market.Contracts.Market.Linked.{IsLinked}
use file_market.Contracts.Market.Calls.{draft_of, order_placed}

-- A draft of the exchange goes with an order that is placed, and its completion with a fulfilment.
pub drafted-IsLinked :
    (x k from t price currency : ℕ) (m : Msg)
    → ltb 0 price ≡ true
    → IsLinked x (order_placed m t k price currency) (draft_of x k from)
drafted-IsLinked x k from t price currency m h = record {
  placed = ground (arith, h);
  back = λ p. refl;
  bought = λ p. refl;
  buyer = λ p q. cc;
}

pub bought-IsLinked :
    (x to time : ℕ) (key d : Bytes) (q : Order) (i : TransferInfo)
    → (to == 0) ≡ false
    → IsLinked x q i
    → IsLinked x
        (record q { receiver = to; fulfilled = true })
        (record i { to = to; data_ = d; public_key = key; public_key_set_at = time })
bought-IsLinked x to time key d q i n h = record {
  placed = h.placed;
  back = λ p. h.back p;
  bought = λ p. rw n refl;
  buyer = λ p q. refl;
}
