-- ===== src/Contracts/Market/Funds/Deeds.antt =====
-- What each deed in the market does to the money of each currency.
use file_market.Base.{
  ℕ, ◌+◌, ◌≡◌, refl, inl, inr, arith, Option, List, [], ◌∷◌, ◌++◌, ◌==◌, Bool-cases,
}
use file_market.Contracts.{Msg, Post, seq-Post, Post-map, Post-and}
use file_market.Contracts.Collection.{
  TransferInfo, Log, log_fraud_decided, Outside, Collection, Call, token_of,
}
use file_market.Contracts.Collection.Calls.{call}
use file_market.Contracts.Collection.Moves.{
  Move, started, drafted, completed, keyed, approved, ended, reported, judged_at_once, judged,
  withdrawn, IsMove,
}
use file_market.Contracts.Collection.Moves.Close.{call-IsMove}
use file_market.Contracts.Exchange.{Exchange, Payment}
use file_market.Contracts.Exchange.Balance.{
  held, End, by_cancellation, by_finish, by_fraud_decision, end_order,
}
use file_market.Contracts.Market.{
  Market, called_back, called_back_all, notify, on_collection, outside_with,
}
use file_market.Contracts.Market.Deletions.{
  IsDeleted, cancelled-IsDeleted, finished-IsDeleted, fraud-IsDeleted,
}
use file_market.Contracts.Market.Funds.{in_currency, pledge, pledges, pledges-one, times}
use file_market.Contracts.Market.Funds.Ends.{Settles, end-Settles}
use mathlib.Core.List.{append-nil}

-- What the exchange keeps in a currency for the tokens `ks`: the fees, and the prices of the orders that
-- are fulfilled
abbrev pub kept_for : (b t : ℕ) → List ℕ → Exchange → ℕ
kept_for b t ks e = held b e + pledges b (e.orders t) ks

module _ {L : Type 0} (o : Outside L) (royalty : ℕ → ℕ → Option (ℕ × ℕ)) (x t b : ℕ)
    (ks : List ℕ) where
  -- What is paid goes out of what is kept.
  abbrev pub Pays : Exchange → Exchange × List Payment → Type 0
  Pays e h = in_currency b h.1 + kept_for b t ks h.0 ≡ kept_for b t ks e

  kept :
      (e f : Exchange) (ps : List Payment) (k : ℕ)
      → times k ks ≡ 1
      → IsDeleted t k e f
      → in_currency b ps + held b f ≡ pledge b (e.orders t k) + held b e
      → in_currency b ps + kept_for b t ks f ≡ kept_for b t ks e
  kept e f ps k once (gone, others) h =
      let one = pledges-one b k (f.orders t) (e.orders t) ks once others in
      let none_left : pledge b (f.orders t k) ≡ 0 = rw gone refl in omega (arith, one, h, none_left)

  end-IsDeleted :
      (end : End) (k : ℕ) (e : Exchange)
      → Post (λ (h : Exchange × List Payment). IsDeleted t k e h.0) (end_order end t k e)
  unfolding end_order
  end-IsDeleted by_cancellation k e = cancelled-IsDeleted t k e
  end-IsDeleted (by_finish info) k e = finished-IsDeleted t k info e
  end-IsDeleted (by_fraud_decision v info) k e = fraud-IsDeleted t k v info e

  end-Pays :
      (end : End) (k : ℕ) (e : Exchange) → times k ks ≡ 1 → Post (Pays e) (end_order end t k e)
  end-Pays end k e once =
      Post-map _ (Pays e) (end_order end t k e)
        (Post-and (λ (h : Exchange × List Payment). IsDeleted t k e h.0) (Settles b t k e)
          (end_order end t k e) (end-IsDeleted end k e) (end-Settles b end t k e))
        (λ h (gone, settles). kept e h.0 h.1 k once gone settles)

  alone : (e : Exchange) (h : Exchange × List Payment) → Pays e h → Pays e (h.0, h.1 ++ [])
  alone e h p = rw (append-nil h.1) p

  unpaid : (e : Exchange) → Pays e (e, [])
  unpaid e = omega arith

  Move-Pays :
      {w k : ℕ} {i j : TransferInfo} {ls : List Log} (e : Exchange)
      → times k ks ≡ 1
      → Move w k i j ls
      → Post (Pays e) (called_back_all o royalty x t ls e)
  unfolding called_back end_order
  Move-Pays e once (started from to receiver number d free) = unpaid e
  Move-Pays e once (drafted from receiver number free) = unpaid e
  Move-Pays e once (completed to time key d any made own free) = unpaid e
  Move-Pays e once (keyed time key any made new) = unpaid e
  Move-Pays e once (approved time password any made has new) = unpaid e
  Move-Pays e once (reported made given fair) = unpaid e
  Move-Pays {w} {k} e once (ended made given fair) =
      seq-Post (Pays e) (Pays e) (end_order (by_finish (royalty k)) t k e) _
        (end-Pays (by_finish (royalty k)) k e once) (λ h p. alone e h p)
  Move-Pays {w} {k} e once (judged_at_once v made given fair) =
      seq-Post (Pays e) (Pays e) (called_back_all o royalty x t (log_fraud_decided k v ∷ []) e) _
        (seq-Post (Pays e) (Pays e) (end_order (by_fraud_decision v (royalty k)) t k e) _
          (end-Pays (by_fraud_decision v (royalty k)) k e once) (λ h p. alone e h p))
        (λ h p. p)
  Move-Pays {w} {k} e once (judged v made told) =
      seq-Post (Pays e) (Pays e) (end_order (by_fraud_decision v (royalty k)) t k e) _
        (end-Pays (by_fraud_decision v (royalty k)) k e once) (λ h p. alone e h p)
  Move-Pays {w} {k} e once (withdrawn made fair) =
      seq-Post (Pays e) (Pays e) (end_order by_cancellation t k e) _
        (end-Pays by_cancellation k e once) (λ h p. alone e h p)

  -- A call of the collection, with its callback
  pub calling-Pays :
      (m : Msg) (a : Call) (s : Market L)
      → times (token_of a) ks ≡ 1
      → Post
          (λ (r : Market L × List Payment). Pays s.exchange (r.0.exchange, r.1))
          (on_collection o royalty x t m a s)
  unfolding on_collection
  calling-Pays m a s once =
      let P = λ (r : Market L × List Payment). Pays s.exchange (r.0.exchange, r.1) in
      seq-Post P _ (call (outside_with o royalty x t s.exchange) m s.collection a) _
        (call-IsMove (outside_with o royalty x t s.exchange) m s.collection a)
        (λ r mv.
          seq-Post P (Pays s.exchange)
            (notify o royalty x t (s.collection.transfers (token_of a)).callback_receiver r.1
              s.exchange)
            _ (told r mv) (λ h p. p))
    where
      told :
          (r : Collection L × List Log)
          → IsMove (outside_with o royalty x t s.exchange) m.sender (token_of a) s.collection r
          → Post (Pays s.exchange) (
              notify o royalty x t
                (s.collection.transfers (token_of a)).callback_receiver
                r.1
                s.exchange)
      told r mv = elim (Bool-cases ((s.collection.transfers (token_of a)).callback_receiver == x)) [
        | inl p ↦ rw p (Move-Pays s.exchange once mv.moved)
        | inr p ↦ rw p (unpaid s.exchange)
      ]
