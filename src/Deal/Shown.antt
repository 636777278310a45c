-- ===== src/Deal/Shown.antt =====
-- What the page shows to the owner and to the others, by the latest status of the transfer.
use file_market.Base.{
  ℕ, ◌+◌, ◌≡◌, refl, Bool, true, false, not, ◌&&◌, Option, none, some, List, [], ◌∷◌, ◌++◌, ltb,
  ◌==◌, if◌then◌else◌,
}
use file_market.Deal.{
  Action, waiting_for_seller, fulfill_order, set_public_key, finalize, report_fraud,
  cancel_transfer, waiting_for_buyer, approve, cancel_order, place_order, approve_exchange, gift,
  buyer_actions, owner_actions,
}
use file_market.Stores.Transfer.{
  TransferStatus, drafted, created, public_key_set, password_set, fraud_reported, finished,
  cancelled, same_status, TransferStatusInfo, Transfer, statuses_of,
}
use file_market.Stores.Transfer.Permissions.{
  transfer_timeout, has_order, status_is, transfer_status_info, owner_can_approve,
  owner_can_finalize, owner_can_cancel, owner_can_cancel_order, owner_can_wait_buyer,
  buyer_can_fulfill_order, buyer_can_set_public_key, buyer_can_finalize, buyer_can_report_fraud,
  buyer_can_cancel, buyer_can_wait_seller,
}

-- The day that a party has to answer is over.
abbrev pub is_late : ℕ → TransferStatusInfo → Bool
is_late now i = not (i.timestamp == 0) && ltb (i.timestamp + transfer_timeout) now

abbrev pub if_late : Bool → Action → List Action
if_late true a = a ∷ []
if_late false a = []

abbrev pub owner_table : Bool → Bool → TransferStatus → List Action
owner_table late ordered drafted = if ordered then cancel_order ∷ [] else cancel_transfer ∷ []
owner_table late ordered created = cancel_transfer ∷ []
owner_table late ordered public_key_set = approve ∷ cancel_transfer ∷ []
owner_table late ordered password_set =
    waiting_for_buyer ∷ if_late late finalize ++ cancel_transfer ∷ []
owner_table late ordered fraud_reported = []
owner_table late ordered finished = []
owner_table late ordered cancelled = []

abbrev pub buyer_table : Bool → TransferStatus → List Action
buyer_table late drafted = fulfill_order ∷ []
buyer_table late created = set_public_key ∷ []
buyer_table late public_key_set = waiting_for_seller ∷ if_late late cancel_transfer
buyer_table late password_set = finalize ∷ report_fraud ∷ []
buyer_table late fraud_reported = []
buyer_table late finished = []
buyer_table late cancelled = []

abbrev pub shown_to_owner : ℕ → Bool → Option Transfer → List TransferStatusInfo → List Action
shown_to_owner now ex none is = (if ex then place_order else approve_exchange) ∷ gift ∷ []
shown_to_owner now ex (some t) [] = []
shown_to_owner now ex (some t) (i ∷ is) = owner_table (is_late now i) (has_order (some t)) i.status

abbrev pub others_table : TransferStatus → List Action
others_table drafted = fulfill_order ∷ []
others_table st = []

abbrev pub shown_to_others : ℕ → Bool → List TransferStatusInfo → List Action
shown_to_others now is_buyer [] = []
shown_to_others now is_buyer (i ∷ is) =
    if is_buyer then buyer_table (is_late now i) i.status else others_table i.status

module _ (now : ℕ) (t : Transfer) (i : TransferStatusInfo) (is : List TransferStatusInfo)
    (e : statuses_of (some t) ≡ i ∷ is) where
  owner_row :
      (ex late ordered : Bool) (st : TransferStatus)
      → i.status ≡ st
      → is_late now i ≡ late
      → has_order (some t) ≡ ordered
      → owner_actions now ex (some t) ≡ owner_table late ordered st
  unfolding owner_actions status_is transfer_status_info same_status owner_can_approve
      owner_can_finalize owner_can_cancel owner_can_cancel_order owner_can_wait_buyer
  owner_row ex late true drafted es el eo = rw (e, es, eo) refl
  owner_row ex late false drafted es el eo = rw (e, es, eo) refl
  owner_row ex late ordered created es el eo = rw (e, es) refl
  owner_row ex late ordered public_key_set es el eo = rw (e, es) refl
  owner_row ex true ordered password_set es el eo = rw (e, es, el) refl
  owner_row ex false ordered password_set es el eo = rw (e, es, el) refl
  owner_row ex late ordered fraud_reported es el eo = rw (e, es) refl
  owner_row ex late ordered finished es el eo = rw (e, es) refl
  owner_row ex late ordered cancelled es el eo = rw (e, es) refl

  buyer_row :
      (late : Bool) (st : TransferStatus)
      → i.status ≡ st
      → is_late now i ≡ late
      → buyer_actions now true (some t) ≡ buyer_table late st
  unfolding buyer_actions status_is transfer_status_info same_status buyer_can_fulfill_order
      buyer_can_set_public_key buyer_can_finalize buyer_can_report_fraud buyer_can_cancel
      buyer_can_wait_seller
  buyer_row late drafted es el = rw (e, es) refl
  buyer_row late created es el = rw (e, es) refl
  buyer_row true public_key_set es el = rw (e, es, el) refl
  buyer_row false public_key_set es el = rw (e, es, el) refl
  buyer_row late password_set es el = rw (e, es) refl
  buyer_row late fraud_reported es el = rw (e, es) refl
  buyer_row late finished es el = rw (e, es) refl
  buyer_row late cancelled es el = rw (e, es) refl

  others_row :
      (st : TransferStatus) → i.status ≡ st → buyer_actions now false (some t) ≡ others_table st
  unfolding buyer_actions status_is transfer_status_info same_status buyer_can_fulfill_order
      buyer_can_set_public_key buyer_can_finalize buyer_can_report_fraud buyer_can_cancel
      buyer_can_wait_seller
  others_row drafted es = rw (e, es) refl
  others_row created es = rw (e, es) refl
  others_row public_key_set es = rw (e, es) refl
  others_row password_set es = rw (e, es) refl
  others_row fraud_reported es = rw (e, es) refl
  others_row finished es = rw (e, es) refl
  others_row cancelled es = rw (e, es) refl

-- The page offers to the owner, by the latest status: to sell or give away a token without a
-- transfer; to cancel one whose fraud is not reported, as its order while it has one; to give the
-- password for a key; to finalize what the buyer leaves open for a day.
pub owner_actions-shown :
    (now : ℕ) (ex : Bool) (t : Option Transfer)
    → owner_actions now ex t ≡ shown_to_owner now ex t (statuses_of t)
unfolding owner_actions status_is transfer_status_info owner_can_approve owner_can_finalize
    owner_can_cancel owner_can_cancel_order owner_can_wait_buyer
owner_actions-shown now true none = refl
owner_actions-shown now false none = refl
owner_actions-shown now ex (some t) = go (statuses_of (some t)) refl
  where
    go :
        (is : List TransferStatusInfo)
        → statuses_of (some t) ≡ is
        → owner_actions now ex (some t) ≡ shown_to_owner now ex (some t) is
    go [] e = rw e refl
    go (i ∷ is) e =
        owner_row now t i is e ex (is_late now i) (has_order (some t)) i.status refl refl refl

-- To an account that is not the owner's the page offers, by the latest status: to fulfil the order
-- of a draft; and, if the transfer is to that account, to accept it, to wait for the password and
-- cancel after a day, and to finalize or to report a fraud once it is given.
buyer_actions-shown :
    (now : ℕ) (is_buyer : Bool) (t : Option Transfer)
    → buyer_actions now is_buyer t ≡ shown_to_others now is_buyer (statuses_of t)
unfolding buyer_actions status_is transfer_status_info buyer_can_fulfill_order
    buyer_can_set_public_key buyer_can_finalize buyer_can_report_fraud buyer_can_cancel
    buyer_can_wait_seller
buyer_actions-shown now true none = refl
buyer_actions-shown now false none = refl
buyer_actions-shown now is_buyer (some t) = go is_buyer (statuses_of (some t)) refl
  where
    go :
        (b : Bool) (is : List TransferStatusInfo)
        → statuses_of (some t) ≡ is
        → buyer_actions now b (some t) ≡ shown_to_others now b is
    go true [] e = rw e refl
    go false [] e = rw e refl
    go true (i ∷ is) e = buyer_row now t i is e (is_late now i) i.status refl refl
    go false (i ∷ is) e = others_row now t i is e i.status refl
