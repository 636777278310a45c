-- ===== src/Stores/Transfer.antt =====
-- stores/Transfer/TransferStore.ts, stores/BlockStore/BlockStore.ts and utils/transfer/status.ts of
-- packages/frontend/src/app. The requester of the store is that of Stores/Request; here stands
-- the rest of it. The callbacks that other parts register are effects, in the order of their calls;
-- block numbers are below 2 ^ 53, where `Number` is exact.
use file_market.Base.{
  ℕ, zero, suc, ◌+◌, String, Bool, false, ◌&&◌, ◌||◌, Option, none, some, List, [], ◌∷◌, leb, ◌==◌,
  if◌then◌else◌, or_else, is_some,
}
pub mod Handlers
pub mod Distinct
pub mod Statuses
pub mod Events
pub mod Permissions
pub mod Activation

pub data TransferStatus : Type 0 where
  drafted : TransferStatus
  created : TransferStatus
  public_key_set : TransferStatus
  password_set : TransferStatus
  fraud_reported : TransferStatus
  finished : TransferStatus
  cancelled : TransferStatus

abbrev pub status_code : TransferStatus → ℕ
status_code drafted = 0
status_code created = 1
status_code public_key_set = 2
status_code password_set = 3
status_code fraud_reported = 4
status_code finished = 5
status_code cancelled = 6

-- `===` of two statuses
unfoldable pub same_status : TransferStatus → TransferStatus → Bool
same_status a b = status_code a == status_code b

pub record TransferStatusInfo : Type 0 where
  pub status : TransferStatus
  pub timestamp : ℕ

-- `Transfer` of the backend's interface, as the store uses it; `block` has its number
pub record Transfer : Type 0 where
  pub collection : String
  pub token_id : String
  pub from : Option String
  pub to : Option String
  pub order_id : Option ℕ
  pub fraud_approved : Option Bool
  pub public_key : Option String
  pub encrypted_password : Option String
  pub statuses : Option (List TransferStatusInfo)
  pub block : Option (Option ℕ)

pub record BlockStore : Type 0 where
  pub current_block_number : ℕ
  pub receipt_block_number : ℕ
  pub last_current_block_number : ℕ

abbrev pub new_block_store : BlockStore
new_block_store = record {
  current_block_number = 1;
  receipt_block_number = 0;
  last_current_block_number = 1;
}

abbrev pub extra_confirmations : ℕ
extra_confirmations = 1

unfoldable pub set_current_block : ℕ → BlockStore → BlockStore
set_current_block n b = record b { current_block_number = n }

unfoldable pub set_receipt_block : ℕ → BlockStore → BlockStore
set_receipt_block n b = record b {
  receipt_block_number = n;
  last_current_block_number = b.current_block_number;
}

unfoldable pub can_continue : BlockStore → Bool
can_continue b =
    (b.last_current_block_number == 1)
    || leb (b.receipt_block_number + extra_confirmations) b.current_block_number

-- What a handler does besides changing the store
pub data Effect : Type 0 where
  token_store_reload : Effect
  finished_call : Effect
  public_key_set_call : Effect
  draft_call : Effect
  cancel_call : Effect

pub record TransferStore : Type 0 where
  pub data_ : Option Transfer
  pub token_full_id : Option (String × String)
  pub is_activated : Bool
  pub is_waiting_for_event : Bool
  pub is_waiting_for_receipt : Bool
  pub is_waiting_for_socket : Bool
  pub block_store : BlockStore
  pub effects : List Effect

-- `checkExistStatus`
abbrev pub has_status : TransferStatus → List TransferStatusInfo → Bool
has_status st [] = false
has_status st (i ∷ is) = same_status i.status st || has_status st is

abbrev pub statuses_of : Option Transfer → List TransferStatusInfo
statuses_of none = []
statuses_of (some t) = or_else t.statuses []

unfoldable pub check_exist_status : TransferStatus → TransferStore → Bool
check_exist_status st s = has_status st (statuses_of s.data_)

unfoldable pub set_waiting_event : Bool → TransferStore → TransferStore
set_waiting_event b s = record s { is_waiting_for_event = b }

unfoldable pub set_waiting_receipt : Bool → TransferStore → TransferStore
set_waiting_receipt b s = record s { is_waiting_for_receipt = b }

unfoldable pub set_waiting_socket : Bool → TransferStore → TransferStore
set_waiting_socket b s = record s { is_waiting_for_socket = b }

unfoldable pub is_waiting_for_continue : TransferStore → Bool
is_waiting_for_continue s =
    s.is_waiting_for_event && s.is_waiting_for_receipt && s.is_waiting_for_socket

-- `setBlockTransfer`
abbrev pub block_transfer_aux : ℕ → TransferStore → Option Transfer → TransferStore
block_transfer_aux n s none = s
block_transfer_aux n s (some t) =
    if is_some t.block
    then record s {
      data_ = some (record t { block = some (some n) });
      block_store = record s.block_store {
        receipt_block_number = n;
        last_current_block_number = s.block_store.current_block_number;
      };
    }
    else s

unfoldable pub set_block_transfer : ℕ → TransferStore → TransferStore
set_block_transfer n s = block_transfer_aux n s s.data_

-- `transfer?.block?.number ?? 0`
abbrev pub block_number : Option Transfer → ℕ
block_number none = 0
block_number (some t) = or_else (or_else t.block none) 0

unfoldable pub set_data : Option Transfer → TransferStore → TransferStore
unfolding set_block_transfer set_waiting_event
set_data t s =
    set_block_transfer (block_number t) (set_waiting_event false (record s { data_ = t }))

-- The callback of `request`: `null` and `undefined` are both no transfer
abbrev pub receipt_of : Option ℕ → TransferStore → TransferStore
receipt_of none s = s
receipt_of (some zero) s = s
receipt_of (some (suc n)) s = record s { block_store = set_receipt_block (suc n) s.block_store }

unfoldable pub transfer_loaded : Option Transfer → TransferStore → TransferStore
transfer_loaded none s = record s { data_ = none }
transfer_loaded (some t) s = receipt_of (or_else t.block none) (record s { data_ = some t })

-- The transfer that `onTransferInit` and `onTransferDraft` put in the store
abbrev pub new_transfer :
    String → String → String → Option String → TransferStatus → ℕ → ℕ → Transfer
new_transfer collection token_id from to st now block_number = record {
  collection = collection;
  token_id = token_id;
  from = some from;
  to = to;
  order_id = none;
  fraud_approved = none;
  public_key = none;
  encrypted_password = none;
  statuses = some (record { status = st; timestamp = now } ∷ []);
  block = some (some block_number);
}
