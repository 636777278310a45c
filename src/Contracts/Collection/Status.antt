-- ===== src/Contracts/Collection/Status.antt =====
-- How far the transfer of a token has come, by what the contract has of it.
use file_market.Base.{ℕ, ◌≡◌, true, Option, none, some, List, ◌==◌, if◌then◌else◌}
use file_market.Contracts.{has_any}
use file_market.Contracts.Collection.{TransferInfo, no_info, Log}
use file_market.Contracts.Collection.Moves.{
  Move, started, drafted as draft_started, completed, keyed, approved, ended, reported,
  judged_at_once, judged, withdrawn,
}
use file_market.Stores.Transfer.{
  TransferStatus, drafted, created, public_key_set, password_set, fraud_reported,
}

-- A password is given only for a key, and a fraud reported only of a password.
pub record IsOrdered (i : TransferInfo) : Type 0 where
  pub keyed_before : has_any i.encrypted_password ≡ true → has_any i.public_key ≡ true
  pub given_before : i.fraud_reported ≡ true → has_any i.encrypted_password ≡ true

pub no_info-IsOrdered : IsOrdered no_info
no_info-IsOrdered = record { keyed_before = λ h. cc; given_before = λ h. cc }

pub Move-IsOrdered :
    {w k : ℕ} {i j : TransferInfo} {ls : List Log} → Move w k i j ls → IsOrdered i → IsOrdered j
Move-IsOrdered (started from to receiver number d free) h = record {
  keyed_before = λ e. cc;
  given_before = λ e. cc;
}
Move-IsOrdered (draft_started from receiver number free) h = record {
  keyed_before = λ e. cc;
  given_before = λ e. cc;
}
Move-IsOrdered (completed to time key d any made own free) h = record {
  keyed_before = λ e. any;
  given_before = h.given_before;
}
Move-IsOrdered (keyed time key any made new) h = record {
  keyed_before = λ e. any;
  given_before = h.given_before;
}
Move-IsOrdered (approved time password any made key new) h = record {
  keyed_before = λ e. key;
  given_before = λ e. any;
}
Move-IsOrdered (ended made given fair) h = no_info-IsOrdered
Move-IsOrdered (reported made given fair) h = record {
  keyed_before = h.keyed_before;
  given_before = λ e. given;
}
Move-IsOrdered (judged_at_once approve made given fair) h = no_info-IsOrdered
Move-IsOrdered (judged approve made unfair) h = no_info-IsOrdered
Move-IsOrdered (withdrawn made fair) h = no_info-IsOrdered

-- What a page shows of a transfer of the contract
unfoldable pub transfer_status : TransferInfo → Option TransferStatus
transfer_status i =
    if i.initiator == 0
    then none
    else if i.fraud_reported
    then some fraud_reported
    else if has_any i.encrypted_password
    then some password_set
    else if has_any i.public_key
    then some public_key_set
    else if i.to == 0
    then some drafted
    else some created
