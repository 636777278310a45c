-- ===== src/Contracts/Market/Funds/Runs.antt =====
-- The money of the exchange along any sequence of deeds.
use file_market.Base.{ℕ, ◌+◌, ◌≡◌, Option, List}
use file_market.Base.Result.{Result}
use file_market.Contracts.Collection.{Outside, token_of}
use file_market.Contracts.Exchange.{Exchange}
use file_market.Contracts.Market.{
  Market, Outcome, Deed, placing, buying, buying_listed, cancelling, calling,
}
use file_market.Contracts.Market.Funds.{in_currency, times}
use file_market.Contracts.Market.Funds.Deeds.{kept_for}

-- The conservation of money, deed by deed: what is taken and what was kept is what is paid and what is
-- kept after.
module _ {L : Type 0} (o : Outside L) (royalty : ℕ → ℕ → Option (ℕ × ℕ)) (x t b : ℕ)
    (ks : List ℕ) where
  abbrev pub Conserves : Market L → Outcome L → Type 0
  Conserves s r =
      in_currency b r.taken + kept_for b t ks s.exchange
      ≡ in_currency b r.paid + kept_for b t ks r.market.exchange

  -- A deed at full price, for one of the tokens `ks`
  abbrev pub IsFull : Deed → Type 0
  IsFull (placing supports k price currency) = times k ks ≡ 1
  IsFull (buying w k key d) = times k ks ≡ 1
  IsFull (buying_listed signed w k key d) = ⊥
  IsFull (cancelling k) = times k ks ≡ 1
  IsFull (calling a) = times (token_of a) ks ≡ 1
