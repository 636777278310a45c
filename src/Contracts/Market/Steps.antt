-- ===== src/Contracts/Market/Steps.antt =====
-- What comes of a deed.
use file_market.Base.{ℕ, ◌≡◌, refl, Option}
use file_market.Base.Result.{ok}
use file_market.Contracts.{Msg}
use file_market.Contracts.Collection.{Outside}
use file_market.Contracts.Market.{Market, Outcome, Deed, act, deal}

pub deal_lem :
    {L : Type 0} (o : Outside L) (royalty : ℕ → ℕ → Option (ℕ × ℕ)) (x t : ℕ) (m : Msg) (a : Deed)
    (s : Market L) {r : Outcome L}
    → act o royalty x t m a s ≡ ok r
    → deal o royalty x t m a s ≡ r
unfolding deal
deal_lem o royalty x t m a s e = rw e refl
