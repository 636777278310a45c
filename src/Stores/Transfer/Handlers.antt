-- ===== src/Stores/Transfer/Handlers.antt =====
-- The handlers of the events of the contract: TransferStore.ts of
-- packages/frontend/src/app/stores/Transfer.
use file_market.Base.{
  ℕ, String, Bool, false, not, ◌&&◌, Option, none, some, List, [], ◌∷◌, str_eq, ◌==◌, if◌then◌else◌,
  or_else, is_some,
}
use file_market.Stores.Transfer.{
  finished_call, public_key_set_call, draft_call, cancel_call, token_store_reload, TransferStatus,
  drafted, created, public_key_set, password_set, fraud_reported, finished, TransferStatusInfo,
  Transfer, Effect, TransferStore, has_status, check_exist_status, set_waiting_event,
  set_block_transfer, block_number, new_transfer,
}

-- `data.statuses?.unshift`
abbrev pub unshift_aux :
    TransferStatus → ℕ → Option (List TransferStatusInfo) → Option (List TransferStatusInfo)
unshift_aux st now none = none
unshift_aux st now (some is) = some (record { status = st; timestamp = now } ∷ is)

unfoldable pub unshift : TransferStatus → ℕ → Transfer → Transfer
unshift st now t = record t { statuses = unshift_aux st now t.statuses }

abbrev pub put_data : Transfer → TransferStore → TransferStore
put_data t s = record s { data_ = some t }

abbrev pub add_effect : Effect → TransferStore → TransferStore
add_effect e s = record s { effects = e ∷ s.effects }

-- What every handler ends with
unfoldable pub settle_event : ℕ → TransferStore → TransferStore
unfolding set_block_transfer set_waiting_event
settle_event block_number s = set_block_transfer block_number (set_waiting_event false s)

-- What each handler does once its guards let it
unfoldable pub init_body :
    String → String → ℕ → ℕ → (String × String) → TransferStore → TransferStore
unfolding settle_event
init_body from to block_number now id s =
    settle_event block_number
      (put_data (new_transfer id.0 id.1 from (some to) created now block_number) s)

unfoldable pub draft_body : String → ℕ → ℕ → (String × String) → TransferStore → TransferStore
unfolding settle_event
draft_body from block_number now id s = add_effect draft_call (
    settle_event block_number
      (put_data (new_transfer id.0 id.1 from none drafted now block_number) s))

unfoldable pub completion_body : Option String → ℕ → Transfer → TransferStore → TransferStore
unfolding settle_event
completion_body to block_number t s = settle_event block_number (put_data (record t { to = to }) s)

unfoldable pub public_key_body : String → ℕ → ℕ → Transfer → TransferStore → TransferStore
unfolding settle_event unshift
public_key_body key block_number now t s = add_effect public_key_set_call (
    settle_event block_number (
      put_data
        (if has_status public_key_set (or_else t.statuses [])
          then record t { public_key = some key }
          else unshift public_key_set now (record t { public_key = some key }))
        s))

unfoldable pub password_body : String → ℕ → ℕ → Transfer → TransferStore → TransferStore
unfolding settle_event unshift
password_body password block_number now t s =
    if has_status password_set (or_else t.statuses [])
    then put_data (record t { encrypted_password = some password }) s
    else settle_event block_number
        (put_data (unshift password_set now (record t { encrypted_password = some password })) s)

unfoldable pub fraud_body : ℕ → ℕ → Transfer → TransferStore → TransferStore
unfolding settle_event unshift
fraud_body block_number now t s =
    settle_event block_number (put_data (unshift fraud_reported now t) s)

unfoldable pub decided_body : Bool → ℕ → ℕ → Transfer → TransferStore → TransferStore
unfolding settle_event unshift
decided_body approved block_number now t s =
    settle_event block_number
      (put_data (unshift finished now (record t { fraud_approved = some approved })) s)

unfoldable pub finished_body : (String × String) → TransferStore → TransferStore
unfolding set_waiting_event
finished_body id s =
    add_effect finished_call
      (add_effect token_store_reload (set_waiting_event false (record s { data_ = none })))

unfoldable pub cancellation_body : (String × String) → TransferStore → TransferStore
unfolding set_waiting_event
cancellation_body id s =
    add_effect cancel_call (set_waiting_event false (record s { data_ = none }))

-- The events of the token's contract that the store listens to, with the arguments it reads
pub data ContractEvent : Type 0 where
  transfer_init : (from to : String) → (block_number : ℕ) → ContractEvent
  transfer_draft : (from : String) → (block_number : ℕ) → ContractEvent
  transfer_draft_completion : (to : Option String) → (block_number : ℕ) → ContractEvent
  transfer_public_key_set : (public_key_hex : String) → (block_number : ℕ) → ContractEvent
  transfer_password_set : (encrypted_password_hex : String) → (block_number : ℕ) → ContractEvent
  transfer_finished : ContractEvent
  transfer_fraud_reported : (block_number : ℕ) → ContractEvent
  transfer_fraud_decided : (approved : Bool) → (block_number : ℕ) → ContractEvent
  transfer_cancellation : (block_number : ℕ) → ContractEvent

-- `BigInt` of the text of a token's id, which is a decimal number: `normalizeCounterId` makes
-- the same text of two numbers only if they are equal.
module _ (big_int : String → ℕ) where
  -- `checkData`
  abbrev pub check_data_aux :
      ℕ
      → (Transfer → TransferStore → TransferStore)
      → TransferStore
      → Option Transfer
      → TransferStore
  check_data_aux token_id f s none = s
  check_data_aux token_id f s (some t) =
      if not (str_eq t.token_id "") && (big_int t.token_id == token_id) then f t s else s

  unfoldable pub check_data :
      ℕ → (Transfer → TransferStore → TransferStore) → TransferStore → TransferStore
  check_data token_id f s = check_data_aux token_id f s s.data_

  -- `checkActivation`
  abbrev pub check_activation_aux :
      ℕ
      → ((String × String) → TransferStore → TransferStore)
      → TransferStore
      → Option (String × String)
      → TransferStore
  check_activation_aux token_id f s none = s
  check_activation_aux token_id f s (some id) =
      if s.is_activated && (big_int id.1 == token_id) then f id s else s

  unfoldable pub check_activation :
      ℕ → ((String × String) → TransferStore → TransferStore) → TransferStore → TransferStore
  check_activation token_id f s = check_activation_aux token_id f s s.token_full_id

  -- The handlers `onTransfer...`; `now` is `Date.now()`
  unfoldable pub on_event : ContractEvent → ℕ → ℕ → TransferStore → TransferStore
  unfolding check_exist_status check_data check_activation init_body draft_body completion_body
      public_key_body password_body fraud_body decided_body finished_body cancellation_body
  on_event (transfer_init from to block_number) token_id now s =
      if check_exist_status created s
      then s
      else check_activation token_id (init_body from to block_number now) s
  on_event (transfer_draft from block_number) token_id now s =
      if check_exist_status drafted s
      then s
      else check_activation token_id (draft_body from block_number now) s
  on_event (transfer_draft_completion to block_number) token_id now s =
      check_data token_id (completion_body to block_number) s
  on_event (transfer_public_key_set key block_number) token_id now s =
      check_data token_id (public_key_body key block_number now) s
  on_event (transfer_password_set password block_number) token_id now s =
      check_data token_id (password_body password block_number now) s
  on_event transfer_finished token_id now s =
      if is_some s.data_ then check_activation token_id finished_body s else s
  on_event (transfer_fraud_reported block_number) token_id now s =
      if check_exist_status fraud_reported s
      then s
      else check_data token_id (fraud_body block_number now) s
  on_event (transfer_fraud_decided approved block_number) token_id now s =
      if check_exist_status finished s
      then s
      else check_data token_id (decided_body approved block_number now) s
  on_event (transfer_cancellation block_number) token_id now s =
      check_activation token_id cancellation_body s
