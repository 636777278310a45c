-- ===== src/Contracts/Market/Sold.antt =====
-- A whole sale through the exchange: who gets the token and who gets the money.
use file_market.Base.{
  ℕ, ◌+◌, ◌*◌, ◌/◌, ◌^◌, ◌≤◌, ◌<◌, ◌≡◌, refl, sym, ap, ◌∙◌, Bool, true, false, Option, some, List,
  [], ◌∷◌, ◌++◌, ltb, ◌==◌,
}
use file_market.Base.Result.{ok}
use file_market.Contracts.{Msg, has_any, put_self}
use file_market.Contracts.Collection.{
  TransferInfo, no_info, Bytes, Outside, approve_transfer, finalize_transfer,
}
use file_market.Contracts.Exchange.{
  Order, no_order, Payment, Purse, payoff_royalty, percent_multiplier,
}
use file_market.Contracts.Market.{Market, Outcome, Deed, placing, buying, calling}
use file_market.Contracts.Market.Calls.{draft_of, order_placed}
use file_market.Contracts.Market.Deletions.{set_order-same}
use file_market.Contracts.Market.Sale.{placed_market, bought_market, approved_market, placing_lem}
use file_market.Contracts.Collection.Ownership.{IsLedger}
use mathlib.Core.Path.{subst}
use mathlib.Core.List.{append-nil}
use file_market.Contracts.Market.Steps.{deal_lem}
use file_market.Contracts.Market.Paid.{pay_all, deals_paid, deals_paid_end, deals_paid_step}
use file_market.Contracts.Market.Fees.{sold_order, without_fee, finished_lem, not_zero}
use file_market.Contracts.Market.SaleAt.{bought_info, buying_at, approving_at, finalizing_at}

-- A token of `owner` that can be put on sale: the exchange is approved for it, and it has neither a
-- transfer nor an order
pub record IsForSale {L : Type 0} (o : Outside L) (x t k owner : ℕ) (s : Market L) : Type 0 where
  pub approved : o.is_approved_or_owner s.collection.ledger x k ≡ true
  pub owned : o.owner_of s.collection.ledger k ≡ some owner
  pub no_transfer : ((s.collection.transfers k).initiator == 0) ≡ true
  pub few : ltb (s.collection.transfer_counts k + 1) (2 ^ 256) ≡ true
  pub unordered : ((s.exchange.orders t k).price == 0) ≡ true
  pub no_whitelist : (s.exchange.whitelist_deadlines t == 0) ≡ true
  pub fee_low : s.exchange.fee ≤ percent_multiplier

module _ {L : Type 0} (o : Outside L) (royalty : ℕ → ℕ → Option (ℕ × ℕ)) (x t k : ℕ)
    (nz : (x == 0) ≡ false) where
  -- The deeds of a sale
  abbrev pub sale :
      (placer buyer owner closer : Msg)
      → (price : ℕ) → Purse
      → (key d password : Bytes) → List (Msg × Deed)
  sale placer buyer owner closer price w key d password =
      (placer, placing true k price 0)
      ∷ (buyer, buying w k key d)
      ∷ (owner, calling (approve_transfer k password))
      ∷ (closer, calling (finalize_transfer k))
      ∷ []

  -- What a sale leaves: the token is the buyer's, the order and the transfer are gone, the exchange has
  -- taken the price and paid it, without the fee, to the royalty's receiver and to the placer.
  pub record IsSold (placer buyer price rest : ℕ) (ps : List Payment) (r : Outcome L) : Type 0 where
    pub handed : o.owner_of r.market.collection.ledger k ≡ some buyer
    pub closed : r.market.collection.transfers k ≡ no_info
    pub deleted : r.market.exchange.orders t k ≡ no_order
    pub took : r.taken ≡ record { currency = 0; to = x; amount = price } ∷ []
    pub paid : r.paid ≡ ps ++ record { currency = 0; to = placer; amount = rest } ∷ []

  -- The four deeds of a sale all succeed, for a token that `IsForSale`, a price in the native currency
  -- for which price and fee fit in a uint256, a royalty that is paid off from it, a token that the
  -- ledger hands over, and payments at the end that all go through.
  pub sale-IsSold :
      (goes_through : Msg → Payment → Bool) (placer buyer owner closer : Msg) (price rest : ℕ)
      (w : Purse) (key d password : Bytes) (l : L) (s : Market L) (ps : List Payment)
      → IsLedger o
      → IsForSale o x t k owner.sender s
      → closer.sender ≡ buyer.sender
      → ltb s.collection.sales_start_timestamp placer.timestamp ≡ true
      → ltb 0 price ≡ true
      → price * percent_multiplier < 2 ^ 256
      → s.exchange.accumulated_fees + price < 2 ^ 256
      → w.value ≡ price
      → has_any key ≡ true
      → has_any password ≡ true
      → o.safe_transfer s.collection.ledger owner.sender buyer.sender k d ≡ some l
      → payoff_royalty
          (sold_order t k price placer.sender buyer.sender)
          (without_fee price s.exchange)
          (royalty k (without_fee price s.exchange))
        ≡ ok (ps, rest)
      → pay_all goes_through closer
          (ps ++ record { currency = 0; to = placer.sender; amount = rest } ∷ [])
        ≡ ok tt
      → IsSold placer.sender buyer.sender price rest ps (
          deals_paid goes_through o royalty x t
            (sale placer buyer owner closer price w key d password)
            s)
  unfolding pay_all
  sale-IsSold goes_through placer buyer owner closer price rest w key d password l s ps law able
        mine begun positive small room pays any given sent paid through =
      let s1 = placed_market o royalty x t k nz placer price 0 owner.sender s in
      let s2 = bought_market o royalty x t k nz buyer key d s1 in
      let s3 = approved_market o royalty x t k nz owner password s2 in
      let e1 = deal_lem o royalty x t placer (placing true k price 0) s (
        placing_lem o royalty x t k nz placer price 0 owner.sender s positive able.unordered
          able.approved able.no_transfer able.few begun able.owned) in
      let q1 = set_order-same t k (order_placed placer t k price 0) s.exchange in
      let i1 = put_self k (draft_of x k owner.sender) s.collection.transfers in
      let e2 =
        buying_at o royalty x t k nz placer buyer w price owner.sender key d s1 q1 i1
          able.no_whitelist positive pays any in
      let keyed = λ (i : TransferInfo). record i {
        to = buyer.sender;
        data_ = d;
        public_key = key;
        public_key_set_at = buyer.timestamp;
      } in
      let i2 =
        put_self k (keyed (s1.collection.transfers k)) s1.collection.transfers ∙ ap keyed i1 in
      let e3 =
        approving_at o royalty x t k nz buyer owner owner.sender key d password s2 i2 able.owned any
          given in
      let unlocked = λ (i : TransferInfo). record i {
        encrypted_password = password;
        password_set_at = owner.timestamp;
      } in
      let i3 =
        put_self k (unlocked (s2.collection.transfers k)) s2.collection.transfers
        ∙ ap unlocked i2 in
      let fulfilled_ = λ (q : Order). record q { receiver = buyer.sender; fulfilled = true } in
      let q2 =
        set_order-same t k (fulfilled_ (s1.exchange.orders t k)) s1.exchange ∙ ap fulfilled_ q1 in
      let charged = record s2.exchange {
        accumulated_fees =
            s2.exchange.accumulated_fees + price * s2.exchange.fee / percent_multiplier;
      } in
      let end =
        finished_lem t k price placer.sender buyer.sender (royalty k) s2.exchange ps rest q2
          (not_zero price positive) able.fee_low small room paid in
      let e4 =
        finalizing_at o royalty x t k nz buyer closer owner.sender l
          (unlocked (bought_info o royalty x t k nz buyer owner.sender key d)) s3 _ i3 refl refl
          given refl refl mine able.owned sent end in
      let all = deals_paid_step goes_through o royalty x t _ _ _ _ e1 refl (
        deals_paid_step goes_through o royalty x t _ _ _ _ e2 refl (
          deals_paid_step goes_through o royalty x t _ _ _ _ e3 refl (
            deals_paid_step goes_through o royalty x t _ _ _ _ e4
              (ap (pay_all goes_through closer) (append-nil _) ∙ through)
              (deals_paid_end goes_through o royalty x t _)))) in
      subst (IsSold placer.sender buyer.sender price rest ps) (sym all) (record {
        handed = law.taken s.collection.ledger l owner.sender buyer.sender k d sent;
        closed = put_self k no_info s3.collection.transfers;
        deleted = set_order-same t k no_order charged;
        took = refl;
        paid = append-nil _ ∙ append-nil _;
      })
