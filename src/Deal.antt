-- ===== src/Deal.antt =====
-- The actions of a deal on the page of a token: components/NFT/NFTDeal of
-- packages/frontend/src/app. A button's action awaits a call of a contract, and meanwhile the store
-- may change by other events; the call and those changes are parameters.
use file_market.Base.{
  ℕ, String, Bool, true, false, not, ◌||◌, Option, none, some, List, [], ◌∷◌, ◌++◌, is_some,
}
use file_market.Base.Result.{Result, ok, err}
use file_market.Stores.Transfer.{
  Transfer, TransferStore, set_waiting_event, set_waiting_receipt, set_waiting_socket, can_continue,
  is_waiting_for_continue,
}
use file_market.Stores.Transfer.Handlers.{
  transfer_draft, transfer_public_key_set, transfer_password_set, transfer_finished,
  transfer_fraud_reported, transfer_cancellation, on_event,
}
use file_market.Stores.Transfer.Permissions.{
  owner_can_approve, owner_can_finalize, owner_can_cancel, owner_can_cancel_order,
  owner_can_wait_buyer, buyer_can_fulfill_order, buyer_can_set_public_key, buyer_can_finalize,
  buyer_can_report_fraud, buyer_can_cancel, buyer_can_wait_seller,
}
pub mod Waiting
pub mod Following
pub mod Receiver
pub mod Offers
pub mod Statuses
pub mod Shown

pub data Action : Type 0 where
  waiting_for_seller : Action
  fulfill_order : Action
  set_public_key : Action
  finalize : Action
  report_fraud : Action
  cancel_transfer : Action
  waiting_for_buyer : Action
  approve : Action
  cancel_order : Action
  place_order : Action
  approve_exchange : Action
  gift : Action

-- `HideAction`
abbrev pub hide_action : Bool → Action → List Action
hide_action true a = []
hide_action false a = a ∷ []

-- What `NFTDealActionsBuyer` shows
unfoldable pub buyer_actions : ℕ → Bool → Option Transfer → List Action
buyer_actions now is_buyer t =
    hide_action (not is_buyer || not (is_some t) || not (buyer_can_wait_seller t))
      waiting_for_seller
    ++ hide_action (not (is_some t) || not (buyer_can_fulfill_order t)) fulfill_order
    ++ hide_action (not is_buyer || not (is_some t) || not (buyer_can_set_public_key t))
        set_public_key
    ++ hide_action (not is_buyer || not (is_some t) || not (buyer_can_finalize t)) finalize
    ++ hide_action (not is_buyer || not (is_some t) || not (buyer_can_report_fraud t)) report_fraud
    ++ hide_action (not is_buyer || not (is_some t) || not (buyer_can_cancel now t)) cancel_transfer

-- What `NFTDealActionOwner` shows
unfoldable pub owner_actions : ℕ → Bool → Option Transfer → List Action
owner_actions now is_approved_exchange t =
    hide_action (not (is_some t) || not (owner_can_wait_buyer t)) waiting_for_buyer
    ++ hide_action (not (is_some t) || not (owner_can_approve t)) approve
    ++ hide_action (not (is_some t) || not (owner_can_finalize now t)) finalize
    ++ hide_action (not (is_some t) || not (owner_can_cancel_order t)) cancel_order
    ++ hide_action (not (is_some t) || not (owner_can_cancel t)) cancel_transfer
    ++ hide_action (is_some t || not is_approved_exchange) place_order
    ++ hide_action (is_some t || is_approved_exchange) approve_exchange
    ++ hide_action (is_some t) gift

-- `isDisabled` of `NFTDealActions`, for a collection other than File Bunnies
unfoldable pub is_disabled : TransferStore → Bool
unfolding can_continue is_waiting_for_continue
is_disabled s = not (can_continue s.block_store) || is_waiting_for_continue s

-- `wrapButtonActionsFunction`
unfoldable pub on_action_start : TransferStore → TransferStore
unfolding set_waiting_event set_waiting_receipt set_waiting_socket
on_action_start s = set_waiting_socket true (set_waiting_receipt true (set_waiting_event true s))

unfoldable pub on_action_error : TransferStore → TransferStore
unfolding set_waiting_event set_waiting_receipt set_waiting_socket
on_action_error s = set_waiting_socket false (set_waiting_event false (set_waiting_receipt false s))

unfoldable pub on_action_end : TransferStore → TransferStore
unfolding set_waiting_receipt
on_action_end s = set_waiting_receipt false s

-- What the awaited call of an action does to the store once it is through, or its error; `other` is
-- what else happens to the store until then.
unfoldable pub wrap_action :
    (other : TransferStore → TransferStore)
    → Result (TransferStore → TransferStore)
    → TransferStore
    → TransferStore × Result {0} Unit
unfolding on_action_start on_action_error on_action_end
wrap_action other (ok finish) s = (on_action_end (finish (other (on_action_start s))), ok tt)
wrap_action other (err e) s = (on_action_error (other (on_action_start s)), err e)

-- The receipt of a transaction, as the buttons read it. A block's number 0 is no number.
pub record Receipt : Type 0 where
  pub from : String
  pub block_number : Option ℕ

-- `if (receipt?.blockNumber) ...`
abbrev pub at_block :
    Option Receipt → (Receipt → ℕ → TransferStore → TransferStore) → TransferStore → TransferStore
at_block none f s = s
at_block (some r) f s = elim r.block_number [ none ↦ s | some n ↦ f r n s ]

-- What each button does to the store after its call, with the number of the page's token
module _ (big_int : String → ℕ) (token_id now : ℕ) (receipt : Option Receipt) where
  unfoldable pub place_order_done : TransferStore → TransferStore
  unfolding on_event
  place_order_done =
      at_block receipt (λ r n. on_event big_int (transfer_draft r.from n) token_id now)

  unfoldable pub gift_done : TransferStore → TransferStore
  unfolding on_event
  gift_done = at_block receipt (λ r n. on_event big_int (transfer_draft r.from n) token_id now)

  -- The key of the buyer is missing where the account or its seed is
  abbrev pub with_hex :
      Option String → (String → TransferStore → TransferStore) → TransferStore → TransferStore
  with_hex none f s = s
  with_hex (some hex) f s = f hex s

  unfoldable pub fulfill_order_done : Option String → TransferStore → TransferStore
  unfolding on_event
  fulfill_order_done public_key = at_block receipt (λ r n.
      with_hex public_key (λ hex. on_event big_int (transfer_public_key_set hex n) token_id now))

  unfoldable pub set_public_key_done : Option String → TransferStore → TransferStore
  unfolding on_event
  set_public_key_done public_key = at_block receipt (λ r n.
      with_hex public_key (λ hex. on_event big_int (transfer_public_key_set hex n) token_id now))

  unfoldable pub approve_done : Option String → TransferStore → TransferStore
  unfolding on_event
  approve_done password = at_block receipt (λ r n.
      with_hex password (λ hex. on_event big_int (transfer_password_set hex n) token_id now))

  unfoldable pub finalize_done : TransferStore → TransferStore
  unfolding on_event
  finalize_done = on_event big_int transfer_finished token_id now

  unfoldable pub report_fraud_done : TransferStore → TransferStore
  unfolding on_event
  report_fraud_done =
      at_block receipt (λ r n. on_event big_int (transfer_fraud_reported n) token_id now)

  unfoldable pub cancel_transfer_done : TransferStore → TransferStore
  unfolding on_event
  cancel_transfer_done =
      at_block receipt (λ r n. on_event big_int (transfer_cancellation n) token_id now)

  unfoldable pub cancel_order_done : TransferStore → TransferStore
  unfolding on_event
  cancel_order_done =
      at_block receipt (λ r n. on_event big_int (transfer_cancellation n) token_id now)
