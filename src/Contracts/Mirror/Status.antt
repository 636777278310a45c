-- ===== src/Contracts/Mirror/Status.antt =====
-- The statuses of a store that follows the contract.
use file_market.Base.{
  ◌≡◌, refl, ap, ◌∙◌, false, none, some, List, [], ◌==◌, or_else, inl, inr, Bool-cases,
}
use file_market.Contracts.Collection.{TransferInfo}
use file_market.Contracts.Mirror.{Texts, Page, IsMirror, FollowsStatus, latest_status}
use file_market.Stores.Transfer.{
  TransferStatus, TransferStatusInfo, Transfer, TransferStore, has_status, statuses_of,
  check_exist_status,
}
use file_market.Contracts.Collection.Status.{transfer_status}

pub unseen :
    (st : TransferStatus) (s : TransferStore) → s.data_ ≡ none → check_exist_status st s ≡ false
unfolding check_exist_status
unseen st s e = ap (λ d. has_status st (statuses_of d)) e

pub seen_in :
    (x : Texts) (p : Page x) (st : TransferStatus) (i : TransferInfo) (t : Transfer)
    (is : List TransferStatusInfo) (s : TransferStore)
    → s.data_ ≡ some t
    → IsMirror x p.token_text i t is
    → check_exist_status st s ≡ has_status st is
unfolding check_exist_status
seen_in x p st i t is s e h =
    ap (λ d. has_status st (statuses_of d)) e ∙ ap (λ o. has_status st (or_else o [])) h.statuses

module _ (x : Texts) (p : Page x) where
  -- What follows has the status of the contract, which is none where no transfer is.
  pub FollowsStatus-latest :
      (i : TransferInfo) (s : TransferStore)
      → FollowsStatus x p i s
      → latest_status (statuses_of s.data_) ≡ transfer_status i
  unfolding transfer_status
  FollowsStatus-latest i s h = elim (Bool-cases (i.initiator == 0)) [
    | inl q ↦ ap (λ d. latest_status (statuses_of d)) (h.absent q) ∙ rw q refl
    | inr q ↦
        let (t, is, e, mir) = h.present q in
        ap (λ d. latest_status (statuses_of d)) e
        ∙ ap (λ o. latest_status (or_else o [])) mir.statuses
        ∙ mir.latest
  ]
