-- ===== src/Contracts/Market/Deals.antt =====
-- What each deed in the market leaves of the orders and the transfers.
use file_market.Base.{
  ℕ, ◌≡◌, refl, sym, inl, inr, arith, true, false, Option, List, ◌==◌, Bool-cases, ==_iff,
}
use file_market.Contracts.{Msg, Post, seq-Post, Post-map}
use file_market.Contracts.Collection.{no_info, Log, Outside, Collection, Call, token_of}
use file_market.Contracts.Collection.Calls.{call}
use file_market.Contracts.Collection.Moves.{IsMove}
use file_market.Contracts.Collection.Moves.Close.{call-IsMove}
use file_market.Contracts.Exchange.{Exchange, Payment}
use file_market.Contracts.Market.{Market, called_back_all, notify, on_collection, outside_with}
use file_market.Contracts.Market.Linked.{
  IsLinked, Kept, no_price-IsLinked, Kept-IsLinked, Move-cases,
}
use file_market.Contracts.Market.Deletions.{Deletes, Deleted}
use mathlib.Core.Path.{subst}

-- The orders and the transfers of all tokens of the collection go together.
unfoldable pub AreLinked : {L : Type 0} → (x t : ℕ) → Collection L → Exchange → Type 0
AreLinked x t c e = (j : ℕ) → IsLinked x (e.orders t j) (c.transfers j)

zero_other : (x : ℕ) → (x == 0) ≡ false → (no_info.initiator == x) ≡ false
zero_other x h = ground (arith, h)

-- What holds of one step and what it asks for elsewhere
module _ {L : Type 0} (x t : ℕ) (c : Collection L) (e : Exchange) (linked : AreLinked x t c e) where
  pub one-AreLinked :
      (k : ℕ) (d : Collection L) (f : Exchange)
      → IsLinked x (f.orders t k) (d.transfers k)
      → ((j : ℕ) → (j == k) ≡ false → d.transfers j ≡ c.transfers j)
      → ((j : ℕ) → (j == k) ≡ false → f.orders t j ≡ e.orders t j)
      → AreLinked x t d f
  unfolding AreLinked
  one-AreLinked k d f h others orders j = elim (Bool-cases (j == k)) [
    | inl p ↦ subst (λ i. IsLinked x (f.orders t i) (d.transfers i)) (sym ((==_iff j k).0 p)) h
    | inr p ↦ rw (others j p, orders j p) (linked j)
  ]

  -- A transfer that is not the exchange's to be told of has no order.
  no_callback-no_price :
      (k : ℕ)
      → ((c.transfers k).callback_receiver == x) ≡ false
      → ((e.orders t k).price == 0) ≡ true
  unfolding AreLinked
  no_callback-no_price k h = elim (Bool-cases ((e.orders t k).price == 0)) [
    | inl p ↦ p
    | inr p ↦
        absurd
          (ground (arith, h, (==_iff (c.transfers k).callback_receiver x).1 ((linked k).back p)))
  ]

  -- A transfer that is over, and the callback that deletes its order
  pub over-AreLinked :
      (o : Outside L) (royalty : ℕ → ℕ → Option (ℕ × ℕ)) (k : ℕ) (d : Collection L) (ls : List Log)
      → (x == 0) ≡ false
      → d.transfers k ≡ no_info
      → ((j : ℕ) → (j == k) ≡ false → d.transfers j ≡ c.transfers j)
      → Deletes t k e (called_back_all o royalty x t ls e)
      → Post
          (λ (h : Exchange × List Payment). AreLinked x t d h.0)
          (notify o royalty x t (c.transfers k).callback_receiver ls e)
  over-AreLinked o royalty k d ls nz over others deletes =
      elim (Bool-cases ((c.transfers k).callback_receiver == x)) [
        | inl p ↦ rw p (
            Post-map (Deleted t k e) (λ (h : Exchange × List Payment). AreLinked x t d h.0)
              (called_back_all o royalty x t ls e) deletes
              (λ h q.
                one-AreLinked k d h.0
                  (rw over (
                    no_price-IsLinked x (h.0.orders t k) no_info (rw (q.0) refl) (zero_other x nz)))
                  others q.1))
        | inr p ↦ rw p (
            one-AreLinked k d e
              (rw over (
                no_price-IsLinked x (e.orders t k) no_info (no_callback-no_price k p)
                  (zero_other x nz)))
              others (λ j q. refl))
      ]

-- The addresses: the exchange's is not zero.
module _ {L : Type 0} (o : Outside L) (royalty : ℕ → ℕ → Option (ℕ × ℕ)) (x t : ℕ)
    (nz : (x == 0) ≡ false) where
  -- What `P` says of the market, of a call with the callback that it makes
  abbrev pub Linked : Market L × List Payment → Type 0
  Linked r = AreLinked x t r.0.collection r.0.exchange

  -- A call of the collection by any account but the exchange keeps orders and transfers together.
  pub calling-AreLinked :
      (m : Msg) (a : Call) (s : Market L)
      → (m.sender == x) ≡ false
      → AreLinked x t s.collection s.exchange
      → Post Linked (on_collection o royalty x t m a s)
  unfolding on_collection AreLinked
  calling-AreLinked m a s n linked =
      seq-Post Linked
        (IsMove (outside_with o royalty x t s.exchange) m.sender (token_of a) s.collection)
        (call (outside_with o royalty x t s.exchange) m s.collection a) _
        (call-IsMove (outside_with o royalty x t s.exchange) m s.collection a)
        (λ r mv.
          seq-Post Linked (λ (h : Exchange × List Payment). AreLinked x t r.0 h.0)
            (notify o royalty x t (s.collection.transfers (token_of a)).callback_receiver r.1
              s.exchange)
            _ (told r mv) (λ h q. q))
    where
      told :
          (r : Collection L × List Log)
          → IsMove (outside_with o royalty x t s.exchange) m.sender (token_of a) s.collection r
          → Post
              (λ (h : Exchange × List Payment). AreLinked x t r.0 h.0)
              (notify o royalty x t
                (s.collection.transfers (token_of a)).callback_receiver
                r.1
                s.exchange)
      told r mv = elim (Move-cases o royalty x t s.exchange n mv.moved) [
        | inl (kept, none) ↦
            elim (Bool-cases ((s.collection.transfers (token_of a)).callback_receiver == x)) [
              | inl p ↦ rw (p, none) (goes_on r mv kept)
              | inr p ↦ rw p (goes_on r mv kept)
            ]
        | inr (over, deletes) ↦
            over-AreLinked x t s.collection s.exchange linked o royalty (token_of a) r.0 r.1 nz over
              mv.others deletes
      ]
        where
          goes_on :
              (r : Collection L × List Log)
              → IsMove (outside_with o royalty x t s.exchange) m.sender (token_of a) s.collection r
              → Kept x (s.collection.transfers (token_of a)) (r.0.transfers (token_of a))
              → AreLinked x t r.0 s.exchange
          goes_on r mv kept =
              one-AreLinked x t s.collection s.exchange linked (token_of a) r.0 s.exchange
                (Kept-IsLinked x (s.exchange.orders t (token_of a)) _ _ nz (linked (token_of a))
                  kept)
                mv.others (λ j q. refl)
