-- ===== src/Tests/Pages.antt =====
-- What the page of the token of Deals offers, and its actions.
use file_market.Base.{str_eq, false, ℕ, ◌≡◌, refl, true, none, some, [], ◌∷◌}
use file_market.Contracts.Collection.{
  TransferInfo, no_info, Collection, approve_transfer, finalize_transfer, set_transfer_public_key,
  cancel_transfer, set_info, log_draft, log_draft_completion, log_public_key_set,
}
use file_market.Contracts.Collection.Calls.{call}
use file_market.Contracts.Collection.Moves.{drafted as draft_started, completed}
use file_market.Contracts.Mirror.{FollowsStatus}
use file_market.Deal.{Receipt, fulfill_order_done, place_order_done, cancel_order, owner_actions}
use file_market.Deal.Following.{mined, button_done, button_done-FollowsStatus}
use file_market.Deal.Receiver.{is_buyer, fulfill_order_done-is_buyer}
use file_market.Deal.Offers.{implies, is_ok, owner-accepted, buyer-accepted}
use file_market.Deal.Shown.{owner_actions-shown}
use file_market.Stores.Transfer.{drafted, password_set, Transfer, TransferStore, new_transfer}
use file_market.Stores.Transfer.Handlers.{draft_body, on_event}
use file_market.Stores.Transfer.Permissions.{
  owner_can_approve, owner_can_cancel, buyer_can_set_public_key, buyer_can_finalize,
}
use file_market.Tests.Deals.{
  toy_outside, toy_collection, toy_texts, toy_page, opened_page, opened-FollowsStatus,
}

-- A draft with an order, and a transfer whose password is given
abbrev on_sale : Transfer
on_sale = record (new_transfer "0xc0" "7" "0x5" none drafted 3 12) { order_id = some 1 }

abbrev given : Transfer
given = new_transfer "0xc0" "7" "0x5" (some "0x6") password_set 3 12

owner_actions-shown_example : owner_actions 0 true (some on_sale) ≡ cancel_order ∷ []
owner_actions-shown_example = owner_actions-shown 0 true (some on_sale)

abbrev receipt : Receipt
receipt = record { from = "0x5"; block_number = some 12 }

abbrev on_sale_info : TransferInfo
on_sale_info = record no_info { id = 7; initiator = 5; from = 5 }

button_done-FollowsStatus_example :
    FollowsStatus toy_texts toy_page on_sale_info
      (button_done toy_texts 7 3 receipt 12 (log_draft 7 5 1 ∷ []) opened_page)
button_done-FollowsStatus_example =
    button_done-FollowsStatus toy_texts toy_page receipt 12 3 5 no_info on_sale_info
      (log_draft 7 5 1 ∷ []) opened_page refl (draft_started 5 0 1 refl) refl opened-FollowsStatus

-- The transfer of the token, the page and the collection once the key of the buyer is there
abbrev keyed_info : TransferInfo
keyed_info = record on_sale_info { to = 6; public_key = 1 ∷ []; public_key_set_at = 100 }

abbrev drafted_page : TransferStore
drafted_page = button_done toy_texts 7 3 receipt 12 (log_draft 7 5 1 ∷ []) opened_page

abbrev keyed : Collection ℕ × TransferStore
keyed = (
  set_info 7 keyed_info toy_collection,
  button_done toy_texts 7 3 receipt 12
      (log_draft_completion 7 6 ∷ log_public_key_set 7 (1 ∷ []) ∷ []) drafted_page,
)

drafted-FollowsStatus : FollowsStatus toy_texts toy_page on_sale_info drafted_page
drafted-FollowsStatus =
    button_done-FollowsStatus toy_texts toy_page receipt 12 3 5 no_info on_sale_info
      (log_draft 7 5 1 ∷ []) opened_page refl (draft_started 5 0 1 refl) refl opened-FollowsStatus

keyed-FollowsStatus : FollowsStatus toy_texts toy_page (keyed.0.transfers 7) keyed.1
keyed-FollowsStatus =
    button_done-FollowsStatus toy_texts toy_page receipt 12 3 5 on_sale_info keyed_info
      (log_draft_completion 7 6 ∷ log_public_key_set 7 (1 ∷ []) ∷ []) drafted_page refl
      (completed 6 100 (1 ∷ []) [] refl refl refl refl) refl drafted-FollowsStatus

keyed-owned : toy_outside.owner_of keyed.0.ledger 7 ≡ some 5
keyed-owned = refl

keyed-to : (keyed.0.transfers 7).to ≡ 6
keyed-to = refl

owner-accepted_example :
    (implies (owner_can_approve keyed.1.data_) (
        is_ok (
          call toy_outside
            (record { sender = 5; timestamp = 200 })
            keyed.0
            (approve_transfer 7 (2 ∷ []))))
      ≡ true)
    × (implies (owner_can_cancel keyed.1.data_) (
          is_ok
            (call toy_outside (record { sender = 5; timestamp = 200 }) keyed.0 (cancel_transfer 7)))
        ≡ true)
owner-accepted_example =
    owner-accepted toy_texts toy_page toy_outside (record { sender = 5; timestamp = 200 }) keyed.0
      keyed.1 keyed-FollowsStatus (2 ∷ []) keyed-owned refl refl

buyer-accepted_example :
    (implies (buyer_can_set_public_key keyed.1.data_) (
        is_ok (
          call toy_outside
            (record { sender = 6; timestamp = 200 })
            keyed.0
            (set_transfer_public_key 7 (1 ∷ []) (keyed.0.transfer_counts 7))))
      ≡ true)
    × (implies (buyer_can_finalize keyed.1.data_) (
          is_ok (
            call toy_outside
              (record { sender = 6; timestamp = 200 })
              keyed.0
              (finalize_transfer 7)))
        ≡ true)
buyer-accepted_example =
    buyer-accepted toy_texts toy_page toy_outside (record { sender = 6; timestamp = 200 }) keyed.0
      keyed.1 keyed-FollowsStatus (1 ∷ []) 5 6 keyed-to refl keyed-owned refl refl

fulfill_order_done-is_buyer_example :
    is_buyer
      (λ a b. str_eq a b)
      (some "0x6")
      (fulfill_order_done toy_texts.big_int 7 3 (mined receipt 12) (some "0x1") drafted_page).data_
    ≡ false
unfolding button_done place_order_done on_event draft_body
fulfill_order_done-is_buyer_example =
    fulfill_order_done-is_buyer toy_texts toy_page receipt 12 3 on_sale_info drafted_page "0x1"
      (λ a b. str_eq a b) (some "0x6") refl drafted-FollowsStatus refl
