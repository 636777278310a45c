-- ===== src/Deal/Statuses.antt =====
-- What the page shows as the status of a transfer, against what the contract has of it.
use file_market.Base.{
  ℕ, zero, suc, ◌≡◌, refl, sym, ap, ◌∙◌, Bool, true, false, Option, none, some, List, [], ◌∷◌,
  ==_iff, if◌then◌else◌,
}
use file_market.Contracts.Collection.{TransferInfo}
use file_market.Contracts.Collection.Status.{transfer_status}
use file_market.Contracts.Mirror.{Texts, Page, latest_status, FollowsStatus}
use file_market.Contracts.Mirror.Status.{FollowsStatus-latest}
use file_market.Stores.Transfer.{
  TransferStatus, drafted, created, public_key_set, password_set, fraud_reported, finished,
  cancelled, status_code, same_status, TransferStatusInfo, TransferStore,
}
use file_market.Stores.Transfer.Permissions.{first_status, info_is, transfer_status_info, status_is}

pub status_of_code : ℕ → TransferStatus
status_of_code zero = drafted
status_of_code (suc zero) = created
status_of_code (suc (suc zero)) = public_key_set
status_of_code (suc (suc (suc zero))) = password_set
status_of_code (suc (suc (suc (suc zero)))) = fraud_reported
status_of_code (suc (suc (suc (suc (suc zero))))) = finished
status_of_code (suc (suc (suc (suc (suc (suc n)))))) = cancelled

pub status_of_code-code : (a : TransferStatus) → status_of_code (status_code a) ≡ a
unfolding status_of_code
status_of_code-code drafted = refl
status_of_code-code created = refl
status_of_code-code public_key_set = refl
status_of_code-code password_set = refl
status_of_code-code fraud_reported = refl
status_of_code-code finished = refl
status_of_code-code cancelled = refl

pub same_status-true : (a b : TransferStatus) → same_status a b ≡ true → a ≡ b
unfolding same_status
same_status-true a b e =
    sym (status_of_code-code a)
    ∙ ap status_of_code ((==_iff (status_code a) (status_code b)).0 e)
    ∙ status_of_code-code b

-- The page shows the latest status of the contract.
pub status_is-latest :
    (st : TransferStatus) (is : List TransferStatusInfo)
    → info_is st (first_status is) ≡ true
    → latest_status is ≡ some st
status_is-latest st [] e = cc
status_is-latest st (i ∷ is) e = ap some (same_status-true i.status st e)

pub shown :
    (x : Texts) (p : Page x) (st : TransferStatus) (i : TransferInfo) (s : TransferStore)
    → FollowsStatus x p i s
    → status_is st s.data_ ≡ true
    → transfer_status i ≡ some st
unfolding status_is transfer_status_info
shown x p st i s h e = sym (FollowsStatus-latest x p i s h) ∙ status_is-latest st _ e

-- What the contract has of a transfer by its status
abbrev pub flags : Bool → Bool → Bool → Bool → Bool → Option TransferStatus
flags free fraud given key nobody =
    if free
    then none
    else if fraud
    then some fraud_reported
    else if given
    then some password_set
    else if key
    then some public_key_set
    else if nobody
    then some drafted
    else some created

pub flags_drafted :
    (a b c d e : Bool)
    → flags a b c d e ≡ some drafted
    → (a ≡ false) × (b ≡ false) × (c ≡ false) × (d ≡ false) × (e ≡ true)
flags_drafted true b c d e h = cc
flags_drafted false true c d e h = cc
flags_drafted false false true d e h = cc
flags_drafted false false false true e h = cc
flags_drafted false false false false true h = (refl, refl, refl, refl, refl)
flags_drafted false false false false false h = cc

pub flags_created :
    (a b c d e : Bool)
    → flags a b c d e ≡ some created
    → (a ≡ false) × (b ≡ false) × (c ≡ false) × (d ≡ false) × (e ≡ false)
flags_created true b c d e h = cc
flags_created false true c d e h = cc
flags_created false false true d e h = cc
flags_created false false false true e h = cc
flags_created false false false false true h = cc
flags_created false false false false false h = (refl, refl, refl, refl, refl)

pub flags_keyed :
    (a b c d e : Bool)
    → flags a b c d e ≡ some public_key_set
    → (a ≡ false) × (b ≡ false) × (c ≡ false) × (d ≡ true)
flags_keyed true b c d e h = cc
flags_keyed false true c d e h = cc
flags_keyed false false true d e h = cc
flags_keyed false false false true e h = (refl, refl, refl, refl)
flags_keyed false false false false true h = cc
flags_keyed false false false false false h = cc

pub flags_given :
    (a b c d e : Bool)
    → flags a b c d e ≡ some password_set
    → (a ≡ false) × (b ≡ false) × (c ≡ true)
flags_given true b c d e h = cc
flags_given false true c d e h = cc
flags_given false false true d e h = (refl, refl, refl)
flags_given false false false true e h = cc
flags_given false false false false true h = cc
flags_given false false false false false h = cc
