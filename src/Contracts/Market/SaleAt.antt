-- ===== src/Contracts/Market/SaleAt.antt =====
-- The later deeds of a sale, by the order and the transfer that they find.
use file_market.Base.{
  ℕ, ◌≡◌, refl, ◌∙◌, true, false, Option, some, List, [], ◌∷◌, ◌++◌, ltb, ◌==◌, ==_refl,
}
use file_market.Base.Result.{ok}
use file_market.Contracts.{Msg, has_any}
use file_market.Contracts.Collection.{
  TransferInfo, Bytes, Outside, approve_transfer, finalize_transfer,
}
use file_market.Contracts.Exchange.{Exchange, Payment, Purse, transfer_finished}
use file_market.Contracts.Market.{Market, buying, calling, deal}
use file_market.Contracts.Market.Calls.{draft_of, order_placed}
use file_market.Contracts.Market.Sale.{
  bought_market, approved_market, finalized_market, buying_lem, approve_lem, finalize_lem,
}
use file_market.Contracts.Market.Steps.{deal_lem}
use file_market.Contracts.Market.Fees.{not_zero}

module _ {L : Type 0} (o : Outside L) (royalty : ℕ → ℕ → Option (ℕ × ℕ)) (x t k : ℕ)
    (nz : (x == 0) ≡ false) where
  -- The three later deeds, by the order and the transfer that they find
  abbrev pub bought_info : (buyer : Msg) → (from : ℕ) → (key d : Bytes) → TransferInfo
  bought_info buyer from key d = record (draft_of x k from) {
    to = buyer.sender;
    data_ = d;
    public_key = key;
    public_key_set_at = buyer.timestamp;
  }

  pub buying_at :
      (placer buyer : Msg) (w : Purse) (price from : ℕ) (key d : Bytes) (s : Market L)
      → s.exchange.orders t k ≡ order_placed placer t k price 0
      → s.collection.transfers k ≡ draft_of x k from
      → (s.exchange.whitelist_deadlines t == 0) ≡ true
      → ltb 0 price ≡ true
      → w.value ≡ price
      → has_any key ≡ true
      → deal o royalty x t buyer (buying w k key d) s ≡ record {
        market = bought_market o royalty x t k nz buyer key d s;
        taken = record { currency = 0; to = x; amount = price } ∷ [];
        paid = [];
      }
  buying_at placer buyer w price from key d s order drafted listed positive pays any =
      deal_lem o royalty x t buyer (buying w k key d) s (
        buying_lem o royalty x t k nz w buyer key d s (rw order (not_zero price positive))
          (rw order refl) (rw order refl) listed (rw (order, pays) (==_refl price)) any
          (rw drafted refl) (rw drafted refl) (rw drafted refl))
      ∙ rw (order, pays) refl

  pub approving_at :
      (buyer owner : Msg) (from : ℕ) (key d password : Bytes) (s : Market L)
      → s.collection.transfers k ≡ bought_info buyer from key d
      → o.owner_of s.collection.ledger k ≡ some owner.sender
      → has_any key ≡ true
      → has_any password ≡ true
      → deal o royalty x t owner (calling (approve_transfer k password)) s ≡ record {
        market = approved_market o royalty x t k nz owner password s;
        taken = [];
        paid = [];
      }
  approving_at buyer owner from key d password s bought owned any given =
      deal_lem o royalty x t owner (calling (approve_transfer k password)) s (
        approve_lem o royalty x t k nz owner password s given (rw bought refl) owned (rw bought any)
          (rw bought refl) (rw bought refl))

  pub finalizing_at :
      (buyer closer : Msg) (from : ℕ) (l : L) (i : TransferInfo) (s : Market L)
      (r : Exchange × List Payment)
      → s.collection.transfers k ≡ i
      → i.initiator ≡ x
      → i.callback_receiver ≡ x
      → has_any i.encrypted_password ≡ true
      → i.fraud_reported ≡ false
      → i.to ≡ buyer.sender
      → closer.sender ≡ buyer.sender
      → o.owner_of s.collection.ledger k ≡ some from
      → o.safe_transfer s.collection.ledger from buyer.sender k i.data_ ≡ some l
      → transfer_finished t k (royalty k) s.exchange ≡ ok r
      → deal o royalty x t closer (calling (finalize_transfer k)) s ≡ record {
        market = finalized_market o royalty x t k nz closer l r.0 s;
        taken = [];
        paid = r.1 ++ [];
      }
  finalizing_at buyer closer from l i s r at made back given fair to mine owned sent paid =
      deal_lem o royalty x t closer (calling (finalize_transfer k)) s (
        finalize_lem o royalty x t k nz closer from l s r (rw at made) (rw at given) (rw at fair)
          (rw (at, to, mine) (==_refl buyer.sender)) owned (rw (at, to) sent) (rw at back) paid)
