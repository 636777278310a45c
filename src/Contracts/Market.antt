-- ===== src/Contracts/Market.antt =====
-- The exchange of FilemarketExchangeV2.sol and one collection of FilemarketCollectionV2.sol, which
-- call each other: an order drafts, completes and cancels a transfer of the collection, and the
-- collection calls the exchange back at the end of each transfer whose callback receiver it is. The
-- addresses of the exchange and of the collection are `x` and `t`; the royalty is the collection's
-- `royaltyInfo`. Only the exchange's own code sends with its address.
use file_market.Base.{ℕ, Bool, true, false, not, Option, List, [], ◌∷◌, ◌++◌, ◌==◌, if◌then◌else◌}
use file_market.Base.Result.{Result, ok, err, ◌>>=◌}
use file_market.Contracts.{Msg, require}
use file_market.Contracts.Collection.{
  Bytes, Log, log_init, log_draft, log_draft_completion, log_public_key_set, log_password_set,
  log_finished, log_fraud_reported, log_fraud_decided, log_cancellation, Outside, Collection, Call,
  draft_transfer, complete_transfer_draft, cancel_transfer, token_of,
}
use file_market.Contracts.Collection.Calls.{call}
use file_market.Contracts.Exchange.{
  Exchange, Payment, Purse, place_order, fulfill_order, fulfill_order_whitelisted,
  transfer_cancelled, transfer_finished, transfer_fraud_detected,
}
pub mod Deletions
pub mod Linked
pub mod Orders
pub mod Deals
pub mod Calls
pub mod Runs
pub mod Sale
pub mod Steps
pub mod Paid
pub mod Fees
pub mod SaleAt
pub mod Sold
pub mod Anyone
pub mod Burned
pub mod Unchanged
pub mod Lost
pub mod Funds

pub record Market (L : Type 0) : Type 0 where
  pub collection : Collection L
  pub exchange : Exchange

abbrev pub is_ok {ℓ} : {A : Type ℓ} → Result A → Bool
is_ok (ok a) = true
is_ok (err message) = false

-- What comes of a deed: the money that the exchange takes and the money that it pays
pub record Outcome (L : Type 0) : Type 0 where
  pub market : Market L
  pub taken : List Payment
  pub paid : List Payment

-- What an account does in the market: the calls of the exchange for a token of the collection, and
-- the calls of the collection
pub data Deed : Type 0 where
  placing : (supports : Bool) → (k price currency : ℕ) → Deed
  buying : Purse → (k : ℕ) → (key d : Bytes) → Deed
  buying_listed : (signed : Bool) → Purse → (k : ℕ) → (key d : Bytes) → Deed
  cancelling : (k : ℕ) → Deed
  calling : Call → Deed

-- A purse, where the call of the token that follows returns
abbrev pub completing : Purse → Purse
completing w = record w { complete_returns = true }

-- The guards of `cancelOrder`
unfoldable pub cancel_order : (t k : ℕ) → Exchange → Result {0} Unit
cancel_order t k e = do
  _ ← require (not ((e.orders t k).price == 0)) "FilemarketExchangeV2: order doesn't exist"
  require (not (e.orders t k).fulfilled) "FilemarketExchangeV2: order was fulfilled"

module _ {L : Type 0} (o : Outside L) (royalty : ℕ → ℕ → Option (ℕ × ℕ)) (x t : ℕ) where
  -- The callbacks, as the collection sees them: those of the exchange are its code.
  unfoldable pub outside_with : Exchange → Outside L
  outside_with e = record o {
    transfer_finished = λ r k.
        if r == x then is_ok (transfer_finished t k (royalty k) e) else o.transfer_finished r k;
    transfer_cancelled =
        λ r k. if r == x then is_ok (transfer_cancelled t k e) else o.transfer_cancelled r k;
    transfer_fraud_detected = λ r k b.
        if r == x
        then is_ok (transfer_fraud_detected t k b (royalty k) e)
        else o.transfer_fraud_detected r k b;
  }

  -- What the callback of the exchange does; it comes with the event of the end of a transfer.
  unfoldable pub called_back : Log → Exchange → Result (Exchange × List Payment)
  unfolding transfer_finished transfer_cancelled transfer_fraud_detected
  called_back (log_init k from to number) e = ok (e, [])
  called_back (log_draft k from number) e = ok (e, [])
  called_back (log_draft_completion k to) e = ok (e, [])
  called_back (log_public_key_set k key) e = ok (e, [])
  called_back (log_password_set k password) e = ok (e, [])
  called_back (log_finished k) e = transfer_finished t k (royalty k) e
  called_back (log_fraud_reported k) e = ok (e, [])
  called_back (log_fraud_decided k b) e = transfer_fraud_detected t k b (royalty k) e
  called_back (log_cancellation k) e = transfer_cancelled t k e

  abbrev pub called_back_all : List Log → Exchange → Result (Exchange × List Payment)
  called_back_all [] e = ok (e, [])
  called_back_all (l ∷ ls) e = do
    first ← called_back l e
    rest ← called_back_all ls first.0
    ok (rest.0, first.1 ++ rest.1)

  abbrev pub notify : (receiver : ℕ) → List Log → Exchange → Result (Exchange × List Payment)
  notify receiver ls e = if receiver == x then called_back_all ls e else ok (e, [])

  -- A call of the collection, with the callback that it makes
  unfoldable pub on_collection : Msg → Call → Market L → Result (Market L × List Payment)
  unfolding called_back outside_with call
  on_collection m a s = do
    r ← call (outside_with s.exchange) m s.collection a
    h ← notify (s.collection.transfers (token_of a)).callback_receiver r.1 s.exchange
    ok (record { collection = r.0; exchange = h.0 }, h.1)

  -- The sender that the collection sees when the exchange calls it
  abbrev pub by_exchange : Msg → Msg
  by_exchange m = record m { sender = x }

  abbrev pub outcome : List Payment → Market L × List Payment → Outcome L
  outcome taken (s, paid) = record { market = s; taken = taken; paid = paid }

  abbrev pub take_in : (k amount : ℕ) → Market L → List Payment
  take_in k amount s =
      record { currency = (s.exchange.orders t k).currency; to = x; amount = amount } ∷ []

  unfoldable pub act : Msg → Deed → Market L → Result (Outcome L)
  unfolding on_collection place_order fulfill_order fulfill_order_whitelisted cancel_order
  act m (placing supports k price currency) s = do
    placed ← place_order supports true m t k price currency s.exchange
    r ← on_collection (by_exchange m) (draft_transfer k x) (record s { exchange = placed })
    ok (outcome [] r)
  act m (buying w k key d) s = do
    bought ← fulfill_order (completing w) m t k s.exchange
    r ←
        on_collection (by_exchange m) (complete_transfer_draft k m.sender key d)
          (record s { exchange = bought.0 })
    ok (outcome (take_in k bought.1 s) r)
  act m (buying_listed signed w k key d) s = do
    bought ← fulfill_order_whitelisted signed (completing w) m t k s.exchange
    r ←
        on_collection (by_exchange m) (complete_transfer_draft k m.sender key d)
          (record s { exchange = bought.0 })
    ok (outcome (take_in k bought.1 s) r)
  act m (cancelling k) s = do
    _ ← cancel_order t k s.exchange
    r ← on_collection (by_exchange m) (cancel_transfer k) s
    ok (outcome [] r)
  act m (calling a) s = do r ← on_collection m a s; ok (outcome [] r)

  -- A deed that reverts changes nothing, takes nothing and pays nothing.
  abbrev pub settled : Market L → Result (Outcome L) → Outcome L
  settled s (ok r) = r
  settled s (err message) = record { market = s; taken = []; paid = [] }

  unfoldable pub deal : Msg → Deed → Market L → Outcome L
  unfolding act
  deal m a s = settled s (act m a s)

  -- What comes of a sequence of deeds
  unfoldable pub deals : List (Msg × Deed) → Market L → Outcome L
  unfolding deal
  deals [] s = record { market = s; taken = []; paid = [] }
  deals ((m, a) ∷ as') s =
      let first = deal m a s in
      let rest = deals as' first.market in
      record {
        market = rest.market;
        taken = first.taken ++ rest.taken;
        paid = first.paid ++ rest.paid;
      }
