-- ===== src/Contracts/Market/Linked.antt =====
-- How the orders of the exchange and the transfers of the collection go together.
use file_market.Base.{
  ℕ, ◌≡◌, refl, sym, ◌∙◌, ◌⊎◌, inl, inr, arith, true, false, not, Option, List, [], ◌∷◌, ◌==◌,
}
use file_market.Base.Result.{ok}
use file_market.Contracts.{Post, seq-Post}
use file_market.Contracts.Collection.{TransferInfo, no_info, Log, log_fraud_decided, Outside}
use file_market.Contracts.Collection.Moves.{
  Move, started, drafted, completed, keyed, approved, ended, reported, judged_at_once, judged,
  withdrawn,
}
use file_market.Contracts.Exchange.{
  Order, Exchange, Payment, transfer_cancelled, transfer_finished, transfer_fraud_detected,
}
use file_market.Contracts.Market.Deletions.{
  Deleted, Deletes, cancelled-IsDeleted, finished-IsDeleted, fraud-IsDeleted,
}
use file_market.Contracts.Market.{called_back, called_back_all}

-- An order and the transfer of its token: the transfer is the exchange's if and only if there is an
-- order; then the exchange is called back at its end, and it has a receiver, the buyer, if and only
-- if the order is fulfilled.
pub record IsLinked (x : ℕ) (d : Order) (i : TransferInfo) : Type 0 where
  pub placed : (i.initiator == x) ≡ not (d.price == 0)
  pub back : (d.price == 0) ≡ false → i.callback_receiver ≡ x
  pub bought : (d.price == 0) ≡ false → d.fulfilled ≡ not (i.to == 0)
  pub buyer : (d.price == 0) ≡ false → d.fulfilled ≡ true → i.to ≡ d.receiver

-- What a call of the collection by another account than the exchange leaves of a transfer that is not
-- over: one that is not the exchange's, or the exchange's with the same receivers.
pub data Kept (x : ℕ) (i j : TransferInfo) : Type 0 where
  same :
      j.initiator ≡ i.initiator
      → j.to ≡ i.to
      → j.callback_receiver ≡ i.callback_receiver
      → Kept x i j
  fresh : (i.initiator == 0) ≡ true → (j.initiator == x) ≡ false → Kept x i j
  foreign : (i.initiator == x) ≡ false → j.initiator ≡ i.initiator → Kept x i j

-- An order without a price stands for none.
pub no_price-IsLinked :
    (x : ℕ) (d : Order) (i : TransferInfo)
    → (d.price == 0) ≡ true
    → (i.initiator == x) ≡ false
    → IsLinked x d i
no_price-IsLinked x d i n h = record {
  placed = rw (n, h) refl;
  back = λ e. absurd (ground (arith, n, e));
  bought = λ e. absurd (ground (arith, n, e));
  buyer = λ e. absurd (ground (arith, n, e));
}

zero_ne : (a x : ℕ) → (x == 0) ≡ false → (a == 0) ≡ true → (a == x) ≡ false
zero_ne a x h g = ground (arith, h, g)

pub Kept-IsLinked :
    (x : ℕ) (d : Order) (i j : TransferInfo)
    → (x == 0) ≡ false
    → IsLinked x d i
    → Kept x i j
    → IsLinked x d j
Kept-IsLinked x d i j nz h (same e f g) = record {
  placed = rw e h.placed;
  back = λ p. g ∙ h.back p;
  bought = λ p. rw f (h.bought p);
  buyer = λ p q. f ∙ h.buyer p q;
}
Kept-IsLinked x d i j nz h (fresh free other) =
    let none_placed : not (d.price == 0) ≡ false = sym h.placed ∙ zero_ne i.initiator x nz free in
    record {
      placed = other ∙ sym none_placed;
      back = λ p. ground (arith, none_placed, p);
      bought = λ p. ground (arith, none_placed, p);
      buyer = λ p. ground (arith, none_placed, p);
    }
Kept-IsLinked x d i j nz h (foreign other e) =
    let none_placed : not (d.price == 0) ≡ false = sym h.placed ∙ other in
    record {
      placed = rw e h.placed;
      back = λ p. ground (arith, none_placed, p);
      bought = λ p. ground (arith, none_placed, p);
      buyer = λ p. ground (arith, none_placed, p);
    }

module _ {L : Type 0} (o : Outside L) (royalty : ℕ → ℕ → Option (ℕ × ℕ)) (x t : ℕ) where
  -- A move of the transfer of a token by an account other than the exchange, for the exchange: the
  -- transfer goes on, and no callback comes; or it is over, and the callback deletes the order.
  pub Move-cases :
      {w k : ℕ} {i j : TransferInfo} {ls : List Log} (e : Exchange)
      → (w == x) ≡ false
      → Move w k i j ls
      → (Kept x i j × (called_back_all o royalty x t ls e ≡ ok (e, [])))
        ⊎ ((j ≡ no_info) × Deletes t k e (called_back_all o royalty x t ls e))
  unfolding called_back
  Move-cases e n (started from to receiver number d free) = inl (fresh free n, refl)
  Move-cases e n (drafted from receiver number free) = inl (fresh free n, refl)
  Move-cases e n (completed to time key d any made own free) =
      inl (foreign (ground (arith, n, own)) refl, refl)
  Move-cases e n (keyed time key any made new) = inl (same refl refl refl, refl)
  Move-cases e n (approved time password any made has new) = inl (same refl refl refl, refl)
  Move-cases e n (reported made given fair) = inl (same refl refl refl, refl)
  Move-cases {w} {k} e n (ended made given fair) = inr (
    refl,
    seq-Post (Deleted t k e) (Deleted t k e) (transfer_finished t k (royalty k) e) _
        (finished-IsDeleted t k (royalty k) e) (λ a d. d),
  )
  Move-cases {w} {k} e n (judged_at_once b made given fair) = inr (
    refl,
    seq-Post (Deleted t k e) (Deleted t k e)
        (called_back_all o royalty x t (log_fraud_decided k b ∷ []) e) _
        (seq-Post (Deleted t k e) (Deleted t k e) (transfer_fraud_detected t k b (royalty k) e) _
          (fraud-IsDeleted t k b (royalty k) e) (λ a d. d))
        (λ a d. d),
  )
  Move-cases {w} {k} e n (judged b made told) = inr (
    refl,
    seq-Post (Deleted t k e) (Deleted t k e) (transfer_fraud_detected t k b (royalty k) e) _
        (fraud-IsDeleted t k b (royalty k) e) (λ a d. d),
  )
  Move-cases {w} {k} e n (withdrawn made fair) = inr (
    refl,
    seq-Post (Deleted t k e) (Deleted t k e) (transfer_cancelled t k e) _
        (cancelled-IsDeleted t k e) (λ a d. d),
  )

  -- The callbacks of a move of one token leave the orders of the others.
  pub Move-others :
      {w j : ℕ} {i i' : TransferInfo} {ls : List Log} (k : ℕ) (e : Exchange)
      → (k == j) ≡ false
      → Move w j i i' ls
      → Post
          (λ (h : Exchange × List Payment). h.0.orders t k ≡ e.orders t k)
          (called_back_all o royalty x t ls e)
  unfolding called_back
  Move-others k e n (started from to receiver number d free) = refl
  Move-others k e n (drafted from receiver number free) = refl
  Move-others k e n (completed to time key d any made own free) = refl
  Move-others k e n (keyed time key any made new) = refl
  Move-others k e n (approved time password any made has new) = refl
  Move-others k e n (reported made given fair) = refl
  Move-others {w} {j} k e n (ended made given fair) =
      seq-Post (λ (h : Exchange × List Payment). h.0.orders t k ≡ e.orders t k) (Deleted t j e)
        (transfer_finished t j (royalty j) e) _ (finished-IsDeleted t j (royalty j) e)
        (λ a d. d.1 k n)
  Move-others {w} {j} k e n (judged_at_once b made given fair) =
      seq-Post (λ (h : Exchange × List Payment). h.0.orders t k ≡ e.orders t k) (Deleted t j e)
        (called_back_all o royalty x t (log_fraud_decided j b ∷ []) e) _
        (seq-Post (Deleted t j e) (Deleted t j e) (transfer_fraud_detected t j b (royalty j) e) _
          (fraud-IsDeleted t j b (royalty j) e) (λ a d. d))
        (λ a d. d.1 k n)
  Move-others {w} {j} k e n (judged b made told) =
      seq-Post (λ (h : Exchange × List Payment). h.0.orders t k ≡ e.orders t k) (Deleted t j e)
        (transfer_fraud_detected t j b (royalty j) e) _ (fraud-IsDeleted t j b (royalty j) e)
        (λ a d. d.1 k n)
  Move-others {w} {j} k e n (withdrawn made fair) =
      seq-Post (λ (h : Exchange × List Payment). h.0.orders t k ≡ e.orders t k) (Deleted t j e)
        (transfer_cancelled t j e) _ (cancelled-IsDeleted t j e) (λ a d. d.1 k n)
