-- ===== src/Contracts/Market/Lost.antt =====
-- The money of a buyer whose token is burned before its password is given.
use file_market.Base.{
  ℕ, ◌≡◌, refl, sym, ap, ◌∙◌, inl, inr, arith, Bool, true, false, not, Option, none, List, [], ◌∷◌,
  ◌==◌, Bool-cases, ==_iff,
}
use file_market.Base.Result.{Result, ok, err, ◌>>=◌}
use file_market.Contracts.{Msg, has_any, Post, bind-Post, seq-Post}
use file_market.Contracts.Collection.{
  Log, Outside, Collection, Call, draft_transfer, complete_transfer_draft, cancel_transfer,
  token_of,
}
use file_market.Contracts.Collection.Calls.{call}
use file_market.Contracts.Collection.Moves.{IsMove}
use file_market.Contracts.Collection.Moves.Close.{call-IsMove}
use file_market.Contracts.Collection.Ownership.{IsLedger}
use file_market.Contracts.Exchange.{
  Order, Exchange, Payment, place_order, fulfill_order, fulfill_order_whitelisted,
}
use file_market.Contracts.Market.{
  Market, Outcome, Deed, placing, buying, buying_listed, cancelling, calling, completing,
  cancel_order, called_back_all, notify, on_collection, outside_with, by_exchange, outcome, act,
  settled, deal, deals,
}
use file_market.Contracts.Market.Linked.{IsLinked, Move-others}
use file_market.Contracts.Market.Calls.{
  place_order-Orders, fulfill_order-Fulfils, whitelisted-Fulfils,
}
use file_market.Contracts.Market.Unchanged.{with-IsOrphan, without-IsOrphan, with-IsLedger}
use file_market.Contracts.Collection.Burn.{burn_call, burn_call-ledger}
use file_market.Contracts.Market.Burned.{IsOrphan, orphan-stuck, other-IsOrphan}

-- A fulfilled order
abbrev IsPending : Order → Type 0
IsPending q = ((q.price == 0) ≡ false) × (q.fulfilled ≡ true)

module _ {L : Type 0} (o : Outside L) (royalty : ℕ → ℕ → Option (ℕ × ℕ)) (x t k : ℕ) (q : Order)
    (law : IsLedger o) (pending : IsPending q) where
  -- The token is gone, its transfer has no password, and the order is `q`.
  abbrev IsLost : Collection L → Exchange → Type 0
  IsLost c e = IsOrphan o k c × (e.orders t k ≡ q)

  abbrev Lost : Market L × List Payment → Type 0
  Lost r = IsLost r.0.collection r.0.exchange

  abbrev AfterLost : Outcome L → Type 0
  AfterLost r = IsLost r.market.collection r.market.exchange

  calling-Lost :
      (m : Msg) (a : Call) (s : Market L)
      → IsLost s.collection s.exchange
      → Post Lost (on_collection o royalty x t m a s)
  unfolding on_collection
  calling-Lost m a s (orphan, order) = elim (Bool-cases (k == token_of a)) [
    | inl p ↦
        seq-Post Lost _ (call (outside_with o royalty x t s.exchange) m s.collection a) _
          (orphan-stuck (outside_with o royalty x t s.exchange) m s.collection k
            (with-IsOrphan o royalty x t k s.exchange s.collection orphan) a
            (sym ((==_iff k (token_of a)).0 p)))
          (λ r never. absurd never)
    | inr p ↦
        seq-Post Lost _ (call (outside_with o royalty x t s.exchange) m s.collection a) _
          (call-IsMove (outside_with o royalty x t s.exchange) m s.collection a) (told p)
  ]
    where
      told :
          (k == token_of a) ≡ false
          → (r : Collection L × List Log)
          → IsMove (outside_with o royalty x t s.exchange) m.sender (token_of a) s.collection r
          → Post Lost (
              notify o royalty x t
                (s.collection.transfers (token_of a)).callback_receiver
                r.1
                s.exchange
              >>= λ h. ok (record { collection = r.0; exchange = h.0 }, h.1))
      told p r mv =
          let left = without-IsOrphan o royalty x t k s.exchange r.0 (
            other-IsOrphan (outside_with o royalty x t s.exchange) m s.collection k
              (with-IsOrphan o royalty x t k s.exchange s.collection orphan) (token_of a) r
              (with-IsLedger o royalty x t k s.exchange law) p mv) in
          elim (Bool-cases ((s.collection.transfers (token_of a)).callback_receiver == x)) [
            | inl b ↦ rw b (
                seq-Post Lost
                  (λ (h : Exchange × List Payment). h.0.orders t k ≡ s.exchange.orders t k)
                  (called_back_all o royalty x t r.1 s.exchange) _
                  (Move-others o royalty x t k s.exchange p mv.moved)
                  (λ h same. (left, same ∙ order)))
            | inr b ↦ rw b (left, order)
          ]

  after-Lost :
      (taken : List Payment) (r : Result (Market L × List Payment))
      → Post Lost r
      → Post AfterLost (r >>= λ a. ok (outcome o royalty x t taken a))
  after-Lost taken r h = seq-Post AfterLost Lost r _ h (λ a z. z)

  -- An order that is open is another than `q`.
  open-other :
      (j : ℕ) (e : Exchange)
      → e.orders t k ≡ q
      → (e.orders t j).fulfilled ≡ false
      → (k == j) ≡ false
  open-other j e same open_ = elim (Bool-cases (k == j)) [
    | inl p ↦ absurd (
        clash
          (ap (λ (d : Order). d.fulfilled) (sym same ∙ ap (e.orders t) ((==_iff k j).0 p)) ∙ open_))
    | inr p ↦ p
  ]
    where
      clash : q.fulfilled ≡ false → ⊥
      clash e = cc (pending.1)

  -- An order that is not there is another than `q`.
  priced_other :
      (j : ℕ) (e : Exchange) → e.orders t k ≡ q → (e.orders t j).price ≡ 0 → (k == j) ≡ false
  priced_other j e same free = elim (Bool-cases (k == j)) [
    | inl p ↦
        absurd (
          clash
            (ap (λ (d : Order). d.price) (sym same ∙ ap (e.orders t) ((==_iff k j).0 p)) ∙ free))
    | inr p ↦ p
  ]
    where
      clash : q.price ≡ 0 → ⊥
      clash e = ground (arith, pending.0, e)

  act-Lost :
      (m : Msg) (a : Deed) (s : Market L)
      → IsLost s.collection s.exchange
      → Post AfterLost (act o royalty x t m a s)
  unfolding act cancel_order
  act-Lost m (placing supports j price currency) s (orphan, order) =
      seq-Post AfterLost _ (place_order supports true m t j price currency s.exchange) _
        (place_order-Orders supports true m t j price currency s.exchange)
        (λ f (positive, free, (placed, others)). after-Lost [] _ (
          calling-Lost (by_exchange o royalty x t m) (draft_transfer j x)
            (record s { exchange = f })
            (orphan, others k (priced_other j s.exchange order free) ∙ order)))
  act-Lost m (buying w j key d) s (orphan, order) =
      seq-Post AfterLost _ (fulfill_order (completing w) m t j s.exchange) _
        (fulfill_order-Fulfils (completing w) m t j s.exchange)
        (λ bought (there, open_, (now, others)). after-Lost _ _ (
          calling-Lost (by_exchange o royalty x t m) (complete_transfer_draft j m.sender key d)
            (record s { exchange = bought.0 })
            (orphan, others k (open-other j s.exchange order open_) ∙ order)))
  act-Lost m (buying_listed signed w j key d) s (orphan, order) =
      seq-Post AfterLost _ (fulfill_order_whitelisted signed (completing w) m t j s.exchange) _
        (whitelisted-Fulfils signed (completing w) m t j s.exchange)
        (λ bought (there, open_, (now, others)). after-Lost _ _ (
          calling-Lost (by_exchange o royalty x t m) (complete_transfer_draft j m.sender key d)
            (record s { exchange = bought.0 })
            (orphan, others k (open-other j s.exchange order open_) ∙ order)))
  act-Lost m (cancelling j) s lost = bind-Post AfterLost (cancel_order t j s.exchange) _ (λ _ _.
      after-Lost [] _ (calling-Lost (by_exchange o royalty x t m) (cancel_transfer j) s lost))
  act-Lost m (calling a) s lost = after-Lost [] _ (calling-Lost m a s lost)

  deal-Lost :
      (m : Msg) (a : Deed) (s : Market L)
      → IsLost s.collection s.exchange
      → AfterLost (deal o royalty x t m a s)
  unfolding deal
  deal-Lost m a s lost = go (act o royalty x t m a s) (act-Lost m a s lost)
    where
      go : (r : Result (Outcome L)) → Post AfterLost r → AfterLost (settled o royalty x t s r)
      go (ok r) h = h
      go (err message) h = lost

  deals-Lost :
      (as' : List (Msg × Deed)) (s : Market L)
      → IsLost s.collection s.exchange
      → AfterLost (deals o royalty x t as' s)
  unfolding deals
  deals-Lost [] s lost = lost
  deals-Lost ((m, a) ∷ as') s lost =
      deals-Lost as' (deal o royalty x t m a s).market (deal-Lost m a s lost)

false_of_flip : (b c : Bool) → c ≡ not b → c ≡ true → b ≡ false
false_of_flip true c e f = cc
false_of_flip false c e f = refl

-- The owner of a token may burn it at any time. If its order is fulfilled and its password is not given
-- yet, then whatever anyone does afterwards the order stays as it is: the buyer's money is neither
-- paid out nor given back, as long as no token is minted again in its place.
pub burn_call-loses :
    {L : Type 0} (o : Outside L) (royalty : ℕ → ℕ → Option (ℕ × ℕ)) (x t k : ℕ) (burned : L → ℕ → L)
    (m : Msg) (s : Market L) (c : Collection L) (as' : List (Msg × Deed))
    → IsLedger o
    → ((l : L) (j : ℕ) → o.owner_of (burned l j) j ≡ none)
    → (x == 0) ≡ false
    → IsLinked x (s.exchange.orders t k) (s.collection.transfers k)
    → ((s.exchange.orders t k).price == 0) ≡ false
    → (s.exchange.orders t k).fulfilled ≡ true
    → has_any (s.collection.transfers k).public_key ≡ true
    → has_any (s.collection.transfers k).encrypted_password ≡ false
    → (s.collection.transfers k).fraud_reported ≡ false
    → burn_call o burned m k s.collection ≡ ok c
    → (deals o royalty x t as' (record s { collection = c })).market.exchange.orders t k
      ≡ s.exchange.orders t k
burn_call-loses o royalty x t k burned m s c as' law gone nz linked there done keyed_ new fair e =
    let same = burn_call-ledger o burned m k s.collection e in
    let initiator =
      (==_iff (s.collection.transfers k).initiator x).0 (linked.placed ∙ ap not there) in
    (deals-Lost o royalty x t k (s.exchange.orders t k) law (there, done) as'
      (record s { collection = c })
      (
        rw same (record {
          gone = gone s.collection.ledger k;
          made = rw initiator nz;
          received =
              false_of_flip ((s.collection.transfers k).to == 0) _ (linked.bought there) done;
          keyed_ = keyed_;
          not_given = new;
          fair = fair;
        }),
        refl,
      )).1
