-- ===== src/Contracts/Market/Paid.antt =====
-- `safeTransferCurrency` of FilemarketExchangeV2.sol: a transaction of the market one of whose payments
-- does not go through reverts. Whether a payment goes through in a transaction is up to the currency
-- and the account, and is a parameter.
use file_market.Base.{ℕ, ◌≡◌, refl, ap, ◌∙◌, Bool, Option, List, [], ◌∷◌, ◌++◌, if◌then◌else◌}
use file_market.Base.Result.{Result, ok, err, ◌>>=◌}
use file_market.Contracts.{Msg}
use file_market.Contracts.Collection.{Outside}
use file_market.Contracts.Exchange.{Payment}
use file_market.Contracts.Market.{Market, Outcome, Deed, act, settled, deal}

module _ (goes_through : Msg → Payment → Bool) where
  unfoldable pub safe_transfer_currency : Msg → Payment → Result {0} Unit
  safe_transfer_currency m p = if goes_through m p then ok tt else err "the payment reverts"

  unfoldable pub pay_all : Msg → List Payment → Result {0} Unit
  unfolding safe_transfer_currency
  pay_all m [] = ok tt
  pay_all m (p ∷ ps) = do _ ← safe_transfer_currency m p; pay_all m ps

  module _ {L : Type 0} (o : Outside L) (royalty : ℕ → ℕ → Option (ℕ × ℕ)) (x t : ℕ) where
    unfoldable pub act_paid : Msg → Deed → Market L → Result (Outcome L)
    unfolding act pay_all
    act_paid m a s = do r ← act o royalty x t m a s; _ ← pay_all m r.paid; ok r

    unfoldable pub deal_paid : Msg → Deed → Market L → Outcome L
    unfolding act_paid
    deal_paid m a s = settled o royalty x t s (act_paid m a s)

    -- What comes of a sequence of deeds
    unfoldable pub deals_paid : List (Msg × Deed) → Market L → Outcome L
    unfolding deal_paid
    deals_paid [] s = record { market = s; taken = []; paid = [] }
    deals_paid ((m, a) ∷ as') s =
        let first = deal_paid m a s in
        let rest = deals_paid as' first.market in
        record {
          market = rest.market;
          taken = first.taken ++ rest.taken;
          paid = first.paid ++ rest.paid;
        }

    -- Where the payments of a deed go through, it is that deed.
    pub deal_paid_lem :
        (m : Msg) (a : Deed) (s : Market L) {r : Outcome L}
        → deal o royalty x t m a s ≡ r
        → pay_all m r.paid ≡ ok tt
        → deal_paid m a s ≡ r
    unfolding deal deal_paid act_paid
    deal_paid_lem m a s {r} e paid = go (act o royalty x t m a s) e
      where
        go :
            (q : Result (Outcome L))
            → settled o royalty x t s q ≡ r
            → settled o royalty x t s (q >>= λ r'. pay_all m r'.paid >>= λ u. ok r') ≡ r
        go (ok r') e = rw (ap (λ (u : Outcome L). pay_all m u.paid) e ∙ paid) e
        go (err message) e = e

    pub deals_paid_end :
        (s : Market L) → deals_paid [] s ≡ record { market = s; taken = []; paid = [] }
    unfolding deals_paid
    deals_paid_end s = refl

    pub deals_paid_step :
        (m : Msg) (a : Deed) (as' : List (Msg × Deed)) (s : Market L) {r q : Outcome L}
        → deal o royalty x t m a s ≡ r
        → pay_all m r.paid ≡ ok tt
        → deals_paid as' r.market ≡ q
        → deals_paid ((m, a) ∷ as') s
          ≡ record { market = q.market; taken = r.taken ++ q.taken; paid = r.paid ++ q.paid }
    unfolding deals_paid
    deals_paid_step m a as' s {r} {q} first sent rest =
        ap
          (λ (r' : Outcome L). record {
            market = (deals_paid as' r'.market).market;
            taken = r'.taken ++ (deals_paid as' r'.market).taken;
            paid = r'.paid ++ (deals_paid as' r'.market).paid;
          })
          (deal_paid_lem m a s first sent)
        ∙ ap
            (λ (q' : Outcome L). record {
              market = q'.market;
              taken = r.taken ++ q'.taken;
              paid = r.paid ++ q'.paid;
            })
            rest
