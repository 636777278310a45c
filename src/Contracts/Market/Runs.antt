-- ===== src/Contracts/Market/Runs.antt =====
-- The market along any sequence of deeds.
use file_market.Base.{
  ℕ, ◌≡◌, refl, inl, inr, Bool, true, false, Option, List, [], ◌∷◌, ◌==◌, Bool-cases, All,
}
use file_market.Base.Result.{Result, ok, err, ◌>>=◌}
use file_market.Contracts.{Msg, put, put_self, put_ne, Post, bind-Post, seq-Post, Post-map}
use file_market.Contracts.Collection.{
  TransferInfo, no_info, Bytes, Log, Outside, Collection, Call, draft_transfer,
  complete_transfer_draft, cancel_transfer, token_of,
}
use file_market.Contracts.Collection.Ending.{cancel_transfer_call}
use file_market.Contracts.Collection.Calls.{call}
use file_market.Contracts.Exchange.{
  Exchange, Payment, place_order, fulfill_order, fulfill_order_whitelisted, transfer_cancelled,
}
use file_market.Contracts.Market.{
  Market, Outcome, Deed, placing, buying, buying_listed, cancelling, calling, completing,
  cancel_order, called_back, called_back_all, notify, on_collection, outside_with, by_exchange, act,
  outcome, take_in, settled, deal, deals,
}
use file_market.Contracts.Market.Orders.{drafted-IsLinked, bought-IsLinked}
use file_market.Contracts.Market.Linked.{IsLinked}
use file_market.Contracts.Market.Deletions.{Deleted, cancelled-IsDeleted}
use file_market.Contracts.Market.Deals.{
  AreLinked, one-AreLinked, over-AreLinked, Linked, calling-AreLinked,
}
use file_market.Contracts.Market.Calls.{
  draft_of, draft-Leaves, complete-Leaves, cancel-Leaves, place_order-Orders, Fulfils,
  fulfill_order-Fulfils, whitelisted-Fulfils,
}

module _ {L : Type 0} (o : Outside L) (royalty : ℕ → ℕ → Option (ℕ × ℕ)) (x t : ℕ)
    (nz : (x == 0) ≡ false) where
  -- What a call of the collection leaves: one transfer, which goes with the order, and no callback
  abbrev GoesWith : (k : ℕ) → Collection L → Exchange → Collection L × List Log → Type 0
  GoesWith k c f r =
      (i : TransferInfo) × IsLinked x (f.orders t k) i
      × (r.0.transfers ≡ put k i c.transfers)
      × (called_back_all o royalty x t r.1 f ≡ ok (f, []))

  quiet-AreLinked :
      (m : Msg) (a : Call) (c : Collection L) (e f : Exchange)
      → AreLinked x t c e
      → ((j : ℕ) → (j == token_of a) ≡ false → f.orders t j ≡ e.orders t j)
      → Post (GoesWith (token_of a) c f) (call (outside_with o royalty x t f) m c a)
      → Post
          (Linked o royalty x t nz)
          (on_collection o royalty x t m a (record { collection = c; exchange = f }))
  unfolding on_collection
  quiet-AreLinked m a c e f linked orders left =
      seq-Post (Linked o royalty x t nz) (GoesWith (token_of a) c f)
        (call (outside_with o royalty x t f) m c a) _ left told
    where
      told :
          (r : Collection L × List Log)
          → GoesWith (token_of a) c f r
          → Post (Linked o royalty x t nz) (
              notify o royalty x t (c.transfers (token_of a)).callback_receiver r.1 f >>= λ h.
              ok (record { collection = r.0; exchange = h.0 }, h.1))
      told r (i, goes, at, quiet) =
          let linked_after =
            one-AreLinked x t c e linked (token_of a) r.0 f
              (rw (at, put_self (token_of a) i c.transfers) goes)
              (λ j n. rw (at, put_ne (token_of a) j i c.transfers n) refl) orders in
          elim (Bool-cases ((c.transfers (token_of a)).callback_receiver == x)) [
            | inl p ↦ rw (p, quiet) linked_after
            | inr p ↦ rw p linked_after
          ]

  -- The same of what comes of a deed
  abbrev AfterLinked : Outcome L → Type 0
  AfterLinked r = AreLinked x t r.market.collection r.market.exchange

  then-Linked :
      (taken : List Payment) (r : Result (Market L × List Payment))
      → Post (Linked o royalty x t nz) r
      → Post AfterLinked (r >>= λ a. ok (outcome o royalty x t taken a))
  then-Linked taken r h = seq-Post AfterLinked (Linked o royalty x t nz) r _ h (λ a q. q)

  placing-AreLinked :
      (m : Msg) (supports : Bool) (k price currency : ℕ) (s : Market L)
      → AreLinked x t s.collection s.exchange
      → Post AfterLinked (act o royalty x t m (placing supports k price currency) s)
  unfolding act called_back call
  placing-AreLinked m supports k price currency s linked =
      seq-Post AfterLinked _ (place_order supports true m t k price currency s.exchange) _
        (place_order-Orders supports true m t k price currency s.exchange)
        (λ f (positive, free, (order, others)). then-Linked [] _ (
          quiet-AreLinked (by_exchange o royalty x t m) (draft_transfer k x) s.collection s.exchange
            f linked others
            (Post-map _ (GoesWith k s.collection f) _
              (draft-Leaves (outside_with o royalty x t f) (by_exchange o royalty x t m)
                s.collection k x)
              (λ r (from, number, (at, sent)). (
                draft_of x k from,
                rw order (drafted-IsLinked x k from t price currency m positive),
                at,
                rw sent refl,
              )))))

  -- A fulfilment, however it is paid for
  fulfilled-AreLinked :
      (m : Msg) (k : ℕ) (key d : Bytes) (s : Market L) (f : Exchange)
      → (m.sender == 0) ≡ false
      → AreLinked x t s.collection s.exchange
      → Fulfils m t k s.exchange f
      → Post (Linked o royalty x t nz) (
          on_collection o royalty x t
            (by_exchange o royalty x t m)
            (complete_transfer_draft k m.sender key d)
            (record s { exchange = f }))
  unfolding called_back call AreLinked
  fulfilled-AreLinked m k key d s f n linked (there, open_, (order, others)) =
      quiet-AreLinked (by_exchange o royalty x t m) (complete_transfer_draft k m.sender key d)
        s.collection s.exchange f linked others
        (Post-map _ (GoesWith k s.collection f) _
          (complete-Leaves (outside_with o royalty x t f) (by_exchange o royalty x t m) s.collection
            k m.sender key d)
          (λ r (at, sent). (
            record (s.collection.transfers k) {
              to = m.sender;
              data_ = d;
              public_key = key;
              public_key_set_at = m.timestamp;
            },
            rw order (
                bought-IsLinked x m.sender m.timestamp key d (s.exchange.orders t k)
                  (s.collection.transfers k) n (linked k)),
            at,
            rw sent refl,
          )))

  -- A cancellation through the exchange: the transfer is over and the order is deleted.
  cancelling-AreLinked :
      (m : Msg) (k : ℕ) (s : Market L)
      → AreLinked x t s.collection s.exchange
      → Post
          (Linked o royalty x t nz)
          (on_collection o royalty x t (by_exchange o royalty x t m) (cancel_transfer k) s)
  unfolding on_collection called_back call
  cancelling-AreLinked m k s linked =
      seq-Post (Linked o royalty x t nz) _
        (cancel_transfer_call (outside_with o royalty x t s.exchange) (by_exchange o royalty x t m)
          s.collection k)
        _
        (cancel-Leaves (outside_with o royalty x t s.exchange) (by_exchange o royalty x t m)
          s.collection k)
        (λ r (at, sent).
          seq-Post (Linked o royalty x t nz)
            (λ (h : Exchange × List Payment). AreLinked x t r.0 h.0)
            (notify o royalty x t (s.collection.transfers k).callback_receiver r.1 s.exchange) _
            (over-AreLinked x t s.collection s.exchange linked o royalty k r.0 r.1 nz
              (rw at (put_self k no_info s.collection.transfers))
              (λ j n. rw at (put_ne k j no_info s.collection.transfers n))
              (rw sent (
                seq-Post (Deleted t k s.exchange) (Deleted t k s.exchange)
                  (transfer_cancelled t k s.exchange) _ (cancelled-IsDeleted t k s.exchange)
                  (λ a q. q))))
            (λ h q. q))

  -- An account that acts in the market: not the exchange, and not the zero address
  abbrev pub IsAccount : Msg → Type 0
  IsAccount m = ((m.sender == x) ≡ false) × ((m.sender == 0) ≡ false)

  act-AreLinked :
      (m : Msg) (a : Deed) (s : Market L)
      → IsAccount m
      → AreLinked x t s.collection s.exchange
      → Post AfterLinked (act o royalty x t m a s)
  unfolding act
  act-AreLinked m (placing supports k price currency) s n linked =
      placing-AreLinked m supports k price currency s linked
  act-AreLinked m (buying w k key d) s n linked =
      seq-Post AfterLinked _ (fulfill_order (completing w) m t k s.exchange) _
        (fulfill_order-Fulfils (completing w) m t k s.exchange)
        (λ bought q.
          then-Linked (take_in o royalty x t k bought.1 s) _
            (fulfilled-AreLinked m k key d s bought.0 n.1 linked q))
  act-AreLinked m (buying_listed signed w k key d) s n linked =
      seq-Post AfterLinked _ (fulfill_order_whitelisted signed (completing w) m t k s.exchange) _
        (whitelisted-Fulfils signed (completing w) m t k s.exchange)
        (λ bought q.
          then-Linked (take_in o royalty x t k bought.1 s) _
            (fulfilled-AreLinked m k key d s bought.0 n.1 linked q))
  act-AreLinked m (cancelling k) s n linked =
      bind-Post AfterLinked (cancel_order t k s.exchange) _
        (λ _ _. then-Linked [] _ (cancelling-AreLinked m k s linked))
  act-AreLinked m (calling a) s n linked =
      then-Linked [] _ (calling-AreLinked o royalty x t nz m a s n.0 linked)

  deal-AreLinked :
      (m : Msg) (a : Deed) (s : Market L)
      → IsAccount m
      → AreLinked x t s.collection s.exchange
      → AfterLinked (deal o royalty x t m a s)
  unfolding deal
  deal-AreLinked m a s n linked = go (act o royalty x t m a s) (act-AreLinked m a s n linked)
    where
      go : (r : Result (Outcome L)) → Post AfterLinked r → AfterLinked (settled o royalty x t s r)
      go (ok r) h = h
      go (err message) h = linked

  -- Whatever accounts do in the market, in whatever order: a token of the collection has an order if
  -- and only if its transfer is the exchange's, which is then called back at its end; and the order is
  -- fulfilled if and only if the transfer has a receiver, who is then the buyer of the order.
  pub deals-AreLinked :
      (as' : List (Msg × Deed)) (s : Market L)
      → All (λ a. IsAccount a.0) as'
      → AreLinked x t s.collection s.exchange
      → AreLinked x t
          (deals o royalty x t as' s).market.collection
          (deals o royalty x t as' s).market.exchange
  unfolding deals
  deals-AreLinked [] s n linked = linked
  deals-AreLinked ((m, a) ∷ as') s n linked =
      deals-AreLinked as' (deal o royalty x t m a s).market n.1 (deal-AreLinked m a s n.0 linked)
