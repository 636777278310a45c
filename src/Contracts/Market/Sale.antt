-- ===== src/Contracts/Market/Sale.antt =====
-- A sale through the exchange, from the order to the token in the hands of the buyer.
use file_market.Base.{
  ℕ, ◌+◌, ◌^◌, ◌≡◌, refl, inl, inr, true, false, Option, some, List, [], ◌++◌, ltb, ◌==◌,
  Bool-cases, ==_refl,
}
use file_market.Base.Result.{ok}
use file_market.Contracts.{Msg, require, add_uint, has_any}
use file_market.Contracts.Collection.{
  Bytes, Outside, approve_transfer, finalize_transfer, set_info, owner_of_token, call_receiver,
  require_created,
}
use file_market.Contracts.Collection.Sale.{
  start_transfer, counted, draft_transfer_call, complete_transfer_draft_call, approve_transfer_call,
}
use file_market.Contracts.Collection.Ending.{
  hand_over, may_finalize, close_transfer, finalize_transfer_call,
}
use file_market.Contracts.Collection.Closable.{or_true}
use file_market.Contracts.Collection.Calls.{call}
use file_market.Contracts.Exchange.{
  Exchange, Payment, Purse, take_payment, place_order, fulfill_order, fulfilled_by, set_order,
  transfer_finished,
}
use file_market.Contracts.Market.{
  Market, placing, buying, calling, called_back, on_collection, outside_with, take_in, act,
}
use file_market.Contracts.Market.Calls.{draft_of, order_placed}

module _ {L : Type 0} (o : Outside L) (royalty : ℕ → ℕ → Option (ℕ × ℕ)) (x t k : ℕ)
    (nz : (x == 0) ≡ false) where
  -- The market after each step of a sale
  abbrev pub placed_market : Msg → (price currency from : ℕ) → Market L → Market L
  placed_market m price currency from s = record {
    collection =
        counted o m s.collection k (s.collection.transfer_counts k + 1) (draft_of x k from);
    exchange = set_order t k (order_placed m t k price currency) s.exchange;
  }

  abbrev pub bought_market : Msg → (key d : Bytes) → Market L → Market L
  bought_market m key d s = record {
    collection =
        set_info k
          (record (s.collection.transfers k) {
            to = m.sender;
            data_ = d;
            public_key = key;
            public_key_set_at = m.timestamp;
          })
          s.collection;
    exchange = fulfilled_by m t k s.exchange;
  }

  abbrev pub approved_market : Msg → (password : Bytes) → Market L → Market L
  approved_market m password s = record s {
    collection =
        set_info k
          (record (s.collection.transfers k) {
            encrypted_password = password;
            password_set_at = m.timestamp;
          })
          s.collection;
  }

  abbrev pub finalized_market : Msg → L → Exchange → Market L → Market L
  finalized_market m l e s = record {
    collection = close_transfer (outside_with o royalty x t s.exchange) m s.collection k l;
    exchange = e;
  }

  pub placing_lem :
      (m : Msg) (price currency from : ℕ) (s : Market L)
      → ltb 0 price ≡ true
      → ((s.exchange.orders t k).price == 0) ≡ true
      → o.is_approved_or_owner s.collection.ledger x k ≡ true
      → ((s.collection.transfers k).initiator == 0) ≡ true
      → ltb (s.collection.transfer_counts k + 1) (2 ^ 256) ≡ true
      → ltb s.collection.sales_start_timestamp m.timestamp ≡ true
      → o.owner_of s.collection.ledger k ≡ some from
      → act o royalty x t m (placing true k price currency) s
        ≡ ok (record { market = placed_market m price currency from s; taken = []; paid = [] })
  unfolding act on_collection place_order call draft_transfer_call start_transfer add_uint
      outside_with owner_of_token require called_back
  placing_lem m price currency from s p free able fresh few open_ owned =
      rw (p, free, able, fresh, few, open_, owned)
        (rw (or_true (s.collection.owner == x))
          (elim (Bool-cases ((s.collection.transfers k).callback_receiver == x)) [
            | inl p ↦ rw p refl
            | inr p ↦ rw p refl
          ]))

  pub buying_lem :
      (w : Purse) (m : Msg) (key d : Bytes) (s : Market L)
      → ((s.exchange.orders t k).price == 0) ≡ false
      → (s.exchange.orders t k).fulfilled ≡ false
      → ((s.exchange.orders t k).currency == 0) ≡ true
      → (s.exchange.whitelist_deadlines t == 0) ≡ true
      → (w.value == (s.exchange.orders t k).price) ≡ true
      → has_any key ≡ true
      → (s.collection.transfers k).initiator ≡ x
      → ((s.collection.transfers k).to == 0) ≡ true
      → (s.collection.transfers k).callback_receiver ≡ x
      → act o royalty x t m (buying w k key d) s
        ≡ ok (record {
          market = bought_market m key d s;
          taken = take_in o royalty x t k w.value s;
          paid = [];
        })
  unfolding act on_collection fulfill_order take_payment call complete_transfer_draft_call
      outside_with require_created require called_back
  buying_lem w m key d s there open_ coin listed paid any made free back =
      rw (there, open_, coin, listed, paid, any, made, nz, ==_refl x, free, back)
        (rw (==_refl x) refl)

  pub approve_lem :
      (m : Msg) (password : Bytes) (s : Market L)
      → has_any password ≡ true
      → (s.collection.transfers k).initiator ≡ x
      → o.owner_of s.collection.ledger k ≡ some m.sender
      → has_any (s.collection.transfers k).public_key ≡ true
      → has_any (s.collection.transfers k).encrypted_password ≡ false
      → (s.collection.transfers k).callback_receiver ≡ x
      → act o royalty x t m (calling (approve_transfer k password)) s
        ≡ ok (record { market = approved_market m password s; taken = []; paid = [] })
  unfolding act on_collection call approve_transfer_call outside_with owner_of_token require_created
      require called_back
  approve_lem m password s any made owned keyed new back =
      rw (any, made, nz, owned, ==_refl m.sender, keyed, new, back, ==_refl x) refl

  pub finalize_lem :
      (m : Msg) (from : ℕ) (l : L) (s : Market L) (r : Exchange × List Payment)
      → (s.collection.transfers k).initiator ≡ x
      → has_any (s.collection.transfers k).encrypted_password ≡ true
      → (s.collection.transfers k).fraud_reported ≡ false
      → ((s.collection.transfers k).to == m.sender) ≡ true
      → o.owner_of s.collection.ledger k ≡ some from
      → o.safe_transfer s.collection.ledger from
          (s.collection.transfers k).to
          k
          (s.collection.transfers k).data_
        ≡ some l
      → (s.collection.transfers k).callback_receiver ≡ x
      → transfer_finished t k (royalty k) s.exchange ≡ ok r
      → act o royalty x t m (calling (finalize_transfer k)) s
        ≡ ok (record { market = finalized_market m l r.0 s; taken = []; paid = r.1 ++ [] })
  unfolding act on_collection call finalize_transfer_call outside_with owner_of_token
      require_created require may_finalize hand_over call_receiver called_back
  finalize_lem m from l s r made given fair mine owned sent back paid =
      rw (made, nz, given, fair, mine, owned, sent, back, ==_refl x, paid, or_true (x == 0))
        (rw paid refl)
