-- ===== src/Contracts/Mirror.antt =====
-- The transfer that the store of a page has, against that of the contract: TransferStore.ts of
-- packages/frontend/src/app/stores/Transfer and sol-contracts/contracts/FilemarketCollectionV2.sol.
-- How an address and bytes are written as texts is a parameter, and so is the number that `BigInt`
-- reads from a text.
use file_market.Base.{
  ℕ, String, ◌≡◌, true, false, Option, none, some, List, [], ◌∷◌, str_eq, ◌==◌, if◌then◌else◌,
}
use file_market.Contracts.{has_any}
use file_market.Contracts.Collection.{
  Bytes, TransferInfo, Log, log_init, log_draft, log_draft_completion, log_public_key_set,
  log_password_set, log_finished, log_fraud_reported, log_fraud_decided, log_cancellation,
}
use file_market.Contracts.Collection.Status.{IsOrdered, transfer_status}
use file_market.Stores.Transfer.{
  TransferStatus, public_key_set, password_set, fraud_reported, finished, TransferStatusInfo,
  Transfer, TransferStore, has_status,
}
use file_market.Stores.Transfer.Handlers.{
  ContractEvent, transfer_init, transfer_draft, transfer_draft_completion, transfer_public_key_set,
  transfer_password_set, transfer_finished, transfer_fraud_reported, transfer_fraud_decided,
  transfer_cancellation, on_event,
}
pub mod Steps
pub mod Bodies
pub mod Status

-- What `ethers` and `viem` make of a number of the contract for the page
pub record Texts : Type 0 where
  pub big_int : String → ℕ
  pub address_text : ℕ → String
  pub hex : Bytes → String

-- The page of the token: its collection, and the token's id as a text and as a number
pub record Page (x : Texts) : Type 0 where
  pub collection : String
  pub token_text : String
  pub token_id : ℕ
  pub is_number : x.big_int token_text ≡ token_id
  pub is_full : str_eq token_text "" ≡ false

-- The text of bytes that are there
abbrev pub written : Texts → Bytes → Option String
written x bytes = if has_any bytes then some (x.hex bytes) else none

abbrev pub latest_status : List TransferStatusInfo → Option TransferStatus
latest_status [] = none
latest_status (i ∷ is) = some i.status

-- What the store has of a transfer that the contract has, but for sender and receiver. `latest` is the status a page shows.
pub record IsMirror (x : Texts) (token_text : String) (i : TransferInfo) (t : Transfer)
    (is : List TransferStatusInfo) : Type 0 where
  pub statuses : t.statuses ≡ some is
  pub id : t.token_id ≡ token_text
  pub latest : latest_status is ≡ transfer_status i
  pub key_known : has_status public_key_set is ≡ has_any i.public_key
  pub password_known : has_status password_set is ≡ has_any i.encrypted_password
  pub fraud_known : has_status fraud_reported is ≡ i.fraud_reported
  pub finished_known : has_status finished is ≡ false
  pub public_key : t.public_key ≡ written x i.public_key
  pub password : t.encrypted_password ≡ written x i.encrypted_password

-- The store is active for the token, and has a transfer just where the contract has one, of the
-- same status, key and password. The sender and the receiver may differ: see Deal/Receiver.
pub record FollowsStatus (x : Texts) (p : Page x) (i : TransferInfo) (s : TransferStore)
    : Type 0 where
  pub activated : s.is_activated ≡ true
  pub full_id : s.token_full_id ≡ some (p.collection, p.token_text)
  pub ordered : IsOrdered i
  pub absent : (i.initiator == 0) ≡ true → s.data_ ≡ none
  pub present :
      (i.initiator == 0) ≡ false
      → (t : Transfer) × (is : List TransferStatusInfo) × (s.data_ ≡ some t)
        × IsMirror x p.token_text i t is
