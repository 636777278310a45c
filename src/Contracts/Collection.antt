-- ===== src/Contracts/Collection.antt =====
-- sol-contracts/contracts/FilemarketCollectionV2.sol: the transfers of the tokens of a collection.
-- The ERC721 ledger is OpenZeppelin's, and the callback receivers and the fraud decider are other
-- contracts: they are parameters. A callback either returns or reverts, and does not call the
-- collection again. Minting, burning and the settings of the owner and of the admin do not move
-- the transfers and are left out.
use file_market.Base.{ℕ, String, Bool, false, not, ◌||◌, Option, List, [], ◌==◌}
use file_market.Base.Result.{Result, or_throw}
use file_market.Contracts.{Msg, require, put}
pub mod Sale
pub mod Ending
pub mod Calls
pub mod Moves
pub mod Ownership
pub mod Closable
pub mod Burn
pub mod Unpaid
pub mod Status

abbrev pub Bytes : Type 0
Bytes = List ℕ

pub record TransferInfo : Type 0 where
  pub id : ℕ
  pub initiator : ℕ
  pub from : ℕ
  pub to : ℕ
  pub callback_receiver : ℕ
  pub data_ : Bytes
  pub public_key : Bytes
  pub encrypted_password : Bytes
  pub fraud_reported : Bool
  pub public_key_set_at : ℕ
  pub password_set_at : ℕ

-- What a mapping has where nothing was put, and after `delete`
abbrev pub no_info : TransferInfo
no_info = record {
  id = 0;
  initiator = 0;
  from = 0;
  to = 0;
  callback_receiver = 0;
  data_ = [];
  public_key = [];
  encrypted_password = [];
  fraud_reported = false;
  public_key_set_at = 0;
  password_set_at = 0;
}

-- The events of a transfer, each with the token's id
pub data Log : Type 0 where
  log_init : (token_id from to transfer_number : ℕ) → Log
  log_draft : (token_id from transfer_number : ℕ) → Log
  log_draft_completion : (token_id to : ℕ) → Log
  log_public_key_set : (token_id : ℕ) → (public_key : Bytes) → Log
  log_password_set : (token_id : ℕ) → (encrypted_password : Bytes) → Log
  log_finished : (token_id : ℕ) → Log
  log_fraud_reported : (token_id : ℕ) → Log
  log_fraud_decided : (token_id : ℕ) → (approved : Bool) → Log
  log_cancellation : (token_id : ℕ) → Log

-- The contracts that the collection calls. `none` is a call that reverts, and so is `false` of a
-- callback; `is_approved_or_owner` is false also for a token that does not exist.
pub record Outside (L : Type 0) : Type 0 where
  pub owner_of : L → ℕ → Option ℕ
  pub is_approved_or_owner : L → (spender token_id : ℕ) → Bool
  pub safe_transfer : L → (from to token_id : ℕ) → Bytes → Option L
  pub transfer_finished : (receiver token_id : ℕ) → Bool
  pub transfer_cancelled : (receiver token_id : ℕ) → Bool
  pub transfer_fraud_detected : (receiver token_id : ℕ) → Bool → Bool
  pub decide :
      (token_id : ℕ)
      → String
      → (public_key private_key encrypted_password : Bytes) → Option (Bool × Bool)

pub record Collection (L : Type 0) : Type 0 where
  pub ledger : L
  pub owner : ℕ
  pub transfers : ℕ → TransferInfo
  pub transfer_counts : ℕ → ℕ
  pub token_uris : ℕ → String
  pub fraud_late_decision_enabled : Bool
  pub fraud_decider : ℕ
  pub finalize_transfer_timeout : ℕ
  pub sales_start_timestamp : ℕ

-- The calls that move a transfer, each with the token's id
pub data Call : Type 0 where
  init_transfer : (token_id to : ℕ) → (data_ : Bytes) → (callback_receiver : ℕ) → Call
  draft_transfer : (token_id callback_receiver : ℕ) → Call
  complete_transfer_draft : (token_id to : ℕ) → (public_key data_ : Bytes) → Call
  set_transfer_public_key : (token_id : ℕ) → (public_key : Bytes) → (transfer_number : ℕ) → Call
  approve_transfer : (token_id : ℕ) → (encrypted_password : Bytes) → Call
  finalize_transfer : (token_id : ℕ) → Call
  report_fraud : (token_id : ℕ) → (private_key : Bytes) → Call
  apply_fraud_decision : (token_id : ℕ) → (approve : Bool) → Call
  cancel_transfer : (token_id : ℕ) → Call

abbrev pub set_info : {L : Type 0} → ℕ → TransferInfo → Collection L → Collection L
set_info token_id info c = record c { transfers = put token_id info c.transfers }

module _ {L : Type 0} (o : Outside L) (m : Msg) (c : Collection L) where
  unfoldable pub owner_of_token : ℕ → Result ℕ
  owner_of_token token_id = or_throw (o.owner_of c.ledger token_id) "ERC721: invalid token ID"

  -- `if (address(receiver) != address(0)) receiver.callback(...)`
  unfoldable pub call_receiver : ℕ → Bool → Result {0} Unit
  call_receiver receiver returns = require ((receiver == 0) || returns) "callback reverted"

  -- `require(info.initiator != address(0), ...)`
  unfoldable pub require_created : TransferInfo → Result {0} Unit
  require_created info =
      require (not (info.initiator == 0))
        "FilemarketCollectionV2: transfer for this token wasn't created"

abbrev pub token_of : Call → ℕ
token_of (init_transfer token_id to data_ receiver) = token_id
token_of (draft_transfer token_id receiver) = token_id
token_of (complete_transfer_draft token_id to public_key data_) = token_id
token_of (set_transfer_public_key token_id public_key number) = token_id
token_of (approve_transfer token_id password) = token_id
token_of (finalize_transfer token_id) = token_id
token_of (report_fraud token_id private_key) = token_id
token_of (apply_fraud_decision token_id approve) = token_id
token_of (cancel_transfer token_id) = token_id
