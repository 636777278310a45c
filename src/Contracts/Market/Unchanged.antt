-- ===== src/Contracts/Market/Unchanged.antt =====
-- The ledger of the collection is the same, whatever the exchange answers when it is called back.
use file_market.Base.{ℕ, Option}
use file_market.Contracts.Collection.{Outside, Collection}
use file_market.Contracts.Collection.Ownership.{IsLedger}
use file_market.Contracts.Exchange.{Exchange}
use file_market.Contracts.Market.{outside_with}
use file_market.Contracts.Market.Burned.{IsOrphan}

module _ {L : Type 0} (o : Outside L) (royalty : ℕ → ℕ → Option (ℕ × ℕ)) (x t k : ℕ) where
  pub with-IsOrphan :
      (e : Exchange) (c : Collection L)
      → IsOrphan o k c
      → IsOrphan (outside_with o royalty x t e) k c
  unfolding outside_with
  with-IsOrphan e c h = record {
    gone = h.gone;
    made = h.made;
    received = h.received;
    keyed_ = h.keyed_;
    not_given = h.not_given;
    fair = h.fair;
  }

  pub without-IsOrphan :
      (e : Exchange) (c : Collection L)
      → IsOrphan (outside_with o royalty x t e) k c
      → IsOrphan o k c
  unfolding outside_with
  without-IsOrphan e c h = record {
    gone = h.gone;
    made = h.made;
    received = h.received;
    keyed_ = h.keyed_;
    not_given = h.not_given;
    fair = h.fair;
  }

  pub with-IsLedger : (e : Exchange) → IsLedger o → IsLedger (outside_with o royalty x t e)
  unfolding outside_with
  with-IsLedger e law = record { taken = law.taken; apart = law.apart }
