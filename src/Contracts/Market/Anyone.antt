-- ===== src/Contracts/Market/Anyone.antt =====
-- `cancelOrder` of the exchange asks for nothing of its sender.
use file_market.Base.{
  ℕ, ◌≡◌, refl, ap, ◌∙◌, Bool, true, false, not, Option, some, [], ◌==◌, ==_iff, ==_refl,
}
use file_market.Contracts.{Msg, require, put_self}
use file_market.Contracts.Collection.{
  no_info, Outside, owner_of_token, call_receiver, require_created,
}
use file_market.Contracts.Collection.Closable.{or_true}
use file_market.Contracts.Collection.Ending.{may_cancel, cancel_transfer_call}
use file_market.Contracts.Collection.Calls.{call}
use file_market.Contracts.Exchange.{no_order, transfer_cancelled}
use file_market.Contracts.Market.{
  Market, cancelling, cancel_order, called_back, on_collection, outside_with, act, deal,
}
use file_market.Contracts.Market.Linked.{IsLinked}
use file_market.Contracts.Market.Deletions.{set_order-same}

true_of_flip : (b c : Bool) → c ≡ not b → c ≡ false → b ≡ true
true_of_flip true c e f = refl
true_of_flip false c e f = cc

module _ {L : Type 0} (o : Outside L) (royalty : ℕ → ℕ → Option (ℕ × ℕ)) (x t k : ℕ)
    (nz : (x == 0) ≡ false) where
  -- Whoever asks for it, an order that is not fulfilled, of a token that has an owner, is cancelled:
  -- the order and its transfer are gone and nothing is paid.
  pub cancelling-anyone :
      (m : Msg) (from : ℕ) (s : Market L)
      → IsLinked x (s.exchange.orders t k) (s.collection.transfers k)
      → ((s.exchange.orders t k).price == 0) ≡ false
      → (s.exchange.orders t k).fulfilled ≡ false
      → (s.collection.transfers k).fraud_reported ≡ false
      → o.owner_of s.collection.ledger k ≡ some from
      → ((deal o royalty x t m (cancelling k) s).market.collection.transfers k ≡ no_info)
        × ((deal o royalty x t m (cancelling k) s).market.exchange.orders t k ≡ no_order)
        × ((deal o royalty x t m (cancelling k) s).paid ≡ [])
  unfolding deal act on_collection cancel_order call cancel_transfer_call require_created require
      may_cancel owner_of_token call_receiver outside_with transfer_cancelled called_back
  cancelling-anyone m from s h there open_ fair owned =
      let made = (==_iff (s.collection.transfers k).initiator x).0 (h.placed ∙ ap not there) in
      let free = true_of_flip ((s.collection.transfers k).to == 0) _ (h.bought there) open_ in
      rw (there, open_, made, nz, fair, owned, free, ==_refl x, or_true (x == from), h.back there)
        (rw (==_refl x, or_true (x == 0))
          (rw (there, open_)
            (
              put_self k no_info s.collection.transfers,
              set_order-same t k no_order s.exchange,
              refl,
            )))
