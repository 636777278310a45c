-- ===== src/Stores/Transfer/Permissions.antt =====
-- utils/transfer/status.ts of packages/frontend/src/app: what the two parties of a transfer may
-- do by the latest of its statuses. A missing timestamp is 0.
use file_market.Base.{
  ℕ, ◌+◌, ◌*◌, ◌≤◌, ◌≡◌, refl, inl, inr, Bool, true, false, not, ◌&&◌, ◌||◌, Option, none, some,
  List, [], ◌∷◌, arith, ltb, ◌==◌, Option-cases, is_some,
}
use file_market.Stores.Transfer.{
  TransferStatus, drafted, created, public_key_set, password_set, fraud_reported, finished,
  cancelled, same_status, TransferStatusInfo, Transfer, statuses_of,
}

-- `mark3dConfig.transferTimeout`
abbrev pub transfer_timeout : ℕ
transfer_timeout = 24 * 60 * 60 * 1000

-- `transferStatusInfo`
abbrev pub first_status : List TransferStatusInfo → Option TransferStatusInfo
first_status [] = none
first_status (i ∷ is) = some i

unfoldable pub transfer_status_info : Option Transfer → Option TransferStatusInfo
transfer_status_info t = first_status (statuses_of t)

abbrev pub info_is : TransferStatus → Option TransferStatusInfo → Bool
info_is st none = false
info_is st (some i) = same_status i.status st

-- `transferStatus(transfer) === st`
unfoldable pub status_is : TransferStatus → Option Transfer → Bool
unfolding transfer_status_info
status_is st t = info_is st (transfer_status_info t)

-- The status, and that its time is known and the timeout is over since then
abbrev pub timed_out : TransferStatus → ℕ → Option TransferStatusInfo → Bool
timed_out st now none = false
timed_out st now (some i) =
    same_status i.status st && not (i.timestamp == 0) && ltb (i.timestamp + transfer_timeout) now

abbrev pub has_order : Option Transfer → Bool
has_order none = false
has_order (some t) = is_some t.order_id

-- `transferPermissions.owner`
unfoldable pub owner_can_approve : Option Transfer → Bool
unfolding status_is
owner_can_approve t = status_is public_key_set t

unfoldable pub owner_can_finalize : ℕ → Option Transfer → Bool
unfolding transfer_status_info
owner_can_finalize now t = timed_out password_set now (transfer_status_info t)

unfoldable pub owner_can_cancel : Option Transfer → Bool
unfolding status_is
owner_can_cancel t =
    (status_is drafted t && not (has_order t))
    || (status_is created t || status_is public_key_set t || status_is password_set t)

unfoldable pub owner_can_cancel_order : Option Transfer → Bool
unfolding status_is
owner_can_cancel_order t = status_is drafted t && has_order t

unfoldable pub owner_can_wait_buyer : Option Transfer → Bool
unfolding status_is
owner_can_wait_buyer t = status_is password_set t

-- `transferPermissions.buyer`
unfoldable pub buyer_can_fulfill_order : Option Transfer → Bool
unfolding status_is
buyer_can_fulfill_order t = status_is drafted t

unfoldable pub buyer_can_set_public_key : Option Transfer → Bool
unfolding status_is
buyer_can_set_public_key t = status_is created t

unfoldable pub buyer_can_finalize : Option Transfer → Bool
unfolding status_is
buyer_can_finalize t = status_is password_set t

unfoldable pub buyer_can_report_fraud : Option Transfer → Bool
unfolding status_is
buyer_can_report_fraud t = status_is password_set t

unfoldable pub buyer_can_view_hidden_files : Option Transfer → Bool
unfolding status_is
buyer_can_view_hidden_files t = status_is password_set t || status_is finished t

unfoldable pub buyer_can_cancel : ℕ → Option Transfer → Bool
unfolding transfer_status_info
buyer_can_cancel now t = timed_out public_key_set now (transfer_status_info t)

unfoldable pub buyer_can_wait_seller : Option Transfer → Bool
unfolding status_is
buyer_can_wait_seller t = status_is public_key_set t

abbrev pub to_number : Bool → ℕ
to_number true = 1
to_number false = 0

-- The number of steps that carry the transfer on and that one of the parties may take
unfoldable pub moves : Option Transfer → ℕ
unfolding buyer_can_fulfill_order buyer_can_set_public_key owner_can_approve buyer_can_finalize
moves t =
    to_number (buyer_can_fulfill_order t)
    + (to_number (buyer_can_set_public_key t)
        + (to_number (owner_can_approve t) + to_number (buyer_can_finalize t)))

-- The owner may cancel the transfer or its order.
unfoldable pub owner_can_stop : Option Transfer → Bool
unfolding owner_can_cancel owner_can_cancel_order
owner_can_stop t = owner_can_cancel t || owner_can_cancel_order t

moves_by_status :
    (st : TransferStatus) (o : Bool)
    → (to_number (same_status st drafted)
        + (to_number (same_status st created)
            + (to_number (same_status st public_key_set)
                + to_number (same_status st password_set))))
      ≡ to_number (
          ((same_status st drafted && not o)
            || (same_status st created
                || same_status st public_key_set
                || same_status st password_set))
          || (same_status st drafted && o))
unfolding same_status
moves_by_status drafted true = refl
moves_by_status drafted false = refl
moves_by_status created o = refl
moves_by_status public_key_set o = refl
moves_by_status password_set o = refl
moves_by_status fraud_reported o = refl
moves_by_status finished o = refl
moves_by_status cancelled o = refl

cancel_by_status :
    (st : TransferStatus) (o : Bool)
    → (((same_status st drafted && not o)
          || (same_status st created
              || same_status st public_key_set
              || same_status st password_set))
        && (same_status st drafted && o))
      ≡ false
unfolding same_status
cancel_by_status drafted true = refl
cancel_by_status drafted false = refl
cancel_by_status created o = refl
cancel_by_status public_key_set o = refl
cancel_by_status password_set o = refl
cancel_by_status fraud_reported o = refl
cancel_by_status finished o = refl
cancel_by_status cancelled o = refl

-- Of the steps that carry a transfer on, one party may take exactly one while the owner may
-- still cancel the transfer or its order, and none otherwise.
moves-owner_can_stop : (t : Option Transfer) → moves t ≡ to_number (owner_can_stop t)
unfolding moves owner_can_stop status_is buyer_can_fulfill_order buyer_can_set_public_key
    owner_can_approve buyer_can_finalize owner_can_cancel owner_can_cancel_order
moves-owner_can_stop t = elim (Option-cases (transfer_status_info t)) [
  | inl p ↦ rw p refl
  | inr (i, p) ↦ rw p (moves_by_status i.status (has_order t))
]

-- The owner may cancel the transfer or its order, but never both.
cancel_one : (t : Option Transfer) → (owner_can_cancel t && owner_can_cancel_order t) ≡ false
unfolding owner_can_cancel owner_can_cancel_order status_is
cancel_one t = elim (Option-cases (transfer_status_info t)) [
  | inl p ↦ rw p refl
  | inr (i, p) ↦ rw p (cancel_by_status i.status (has_order t))
]

timed_out_later :
    (st : TransferStatus) (now later : ℕ) (i : Option TransferStatusInfo)
    → now ≤ later
    → timed_out st now i ≡ true
    → (timed_out st later i ≡ true) × (info_is st i ≡ true)
timed_out_later st now later none h e = cc
timed_out_later st now later (some i) h e = (ground (arith, e), ground (arith, e))

-- Once the owner may finalize without the buyer, this stays until the status changes, and the
-- buyer may still finalize or report a fraud.
owner_can_finalize_later :
    (now later : ℕ) (t : Option Transfer)
    → now ≤ later
    → owner_can_finalize now t ≡ true
    → (owner_can_finalize later t ≡ true)
      × (buyer_can_finalize t ≡ true)
      × (buyer_can_report_fraud t ≡ true)
unfolding owner_can_finalize buyer_can_finalize buyer_can_report_fraud status_is
owner_can_finalize_later now later t h e = (
  (timed_out_later password_set now later (transfer_status_info t) h e).0,
  (timed_out_later password_set now later (transfer_status_info t) h e).1,
  (timed_out_later password_set now later (transfer_status_info t) h e).1,
)
