-- ===== src/Tests/Deals.antt =====
-- A collection of one token, whose owner is the ledger, and the page of that token.
use file_market.Base.{
  ℕ, ◌≡◌, refl, true, false, not, ◌&&◌, Option, none, some, List, [], ◌∷◌, str_eq, ◌==◌,
  if◌then◌else◌, ◌⊎◌,
}
use file_market.Contracts.{Msg, has_any, Post}
use file_market.Contracts.Collection.{
  no_info, Outside, Collection, Call, draft_transfer, complete_transfer_draft, finalize_transfer,
  token_of,
}
use file_market.Contracts.Collection.Calls.{call, transact}
use file_market.Contracts.Collection.Closable.{IsWaiting, AreCallable, transfer-closable}
use file_market.Contracts.Collection.Moves.{IsMove}
use file_market.Contracts.Collection.Moves.Close.{call-IsMove}
use file_market.Contracts.Collection.Unpaid.{Sent, called, burning}
use file_market.Contracts.Mirror.{Texts, Page, FollowsStatus}
use file_market.Contracts.Mirror.Steps.{gone-FollowsStatus}
use file_market.Stores.Transfer.{TransferStore, new_block_store}

abbrev toy_transfer : ℕ → ℕ → ℕ → ℕ → Option ℕ
toy_transfer l from to k = if (k == 7) && not (to == 0) then some to else none

abbrev pub toy_outside : Outside ℕ
toy_outside = record {
  owner_of = λ l k. if k == 7 then some l else none;
  is_approved_or_owner = λ l spender k. (k == 7) && (spender == l);
  safe_transfer = λ l from to k d. toy_transfer l from to k;
  transfer_finished = λ receiver k. true;
  transfer_cancelled = λ receiver k. true;
  transfer_fraud_detected = λ receiver k b. true;
  decide = λ k uri key private password. some (false, false);
}

-- A token whose owner is the account 5, without a transfer
abbrev pub toy_collection : Collection ℕ
toy_collection = record {
  ledger = 5;
  owner = 5;
  transfers = λ k. no_info;
  transfer_counts = λ k. 0;
  token_uris = λ k. "";
  fraud_late_decision_enabled = true;
  fraud_decider = 9;
  finalize_transfer_timeout = 86400;
  sales_start_timestamp = 10;
}

abbrev pub toy_texts : Texts
toy_texts = record {
  big_int = λ t. if str_eq t "7" then 7 else 0;
  address_text = λ a. if a == 5 then "0x5" else "0x6";
  hex = λ b. if has_any b then "0x1" else "0x";
}

abbrev pub toy_page : Page toy_texts
toy_page = record {
  collection = "0xc0";
  token_text = "7";
  token_id = 7;
  is_number = refl;
  is_full = refl;
}

abbrev pub opened_page : TransferStore
opened_page = record {
  data_ = none;
  token_full_id = some ("0xc0", "7");
  is_activated = true;
  is_waiting_for_event = false;
  is_waiting_for_receipt = false;
  is_waiting_for_socket = false;
  block_store = new_block_store;
  effects = [];
}

pub opened-FollowsStatus : FollowsStatus toy_texts toy_page no_info opened_page
opened-FollowsStatus = gone-FollowsStatus toy_texts toy_page opened_page refl refl refl

call-IsMove_example :
    Post (IsMove toy_outside 5 7 toy_collection) (
      call toy_outside (record { sender = 5; timestamp = 100 }) toy_collection (draft_transfer 7 0))
call-IsMove_example =
    call-IsMove toy_outside (record { sender = 5; timestamp = 100 }) toy_collection
      (draft_transfer 7 0)

abbrev ordered_calls : List (Msg × Sent)
ordered_calls =
    (record { sender = 5; timestamp = 100 }, called (draft_transfer 7 0))
    ∷ (record { sender = 5; timestamp = 101 }, called (complete_transfer_draft 7 6 (1 ∷ []) []))
    ∷ (record { sender = 6; timestamp = 102 }, called (finalize_transfer 7))
    ∷ (record { sender = 6; timestamp = 103 }, burning 7)
    ∷ []

-- A burned token has the owner 0 here.
abbrev toy_burned : ℕ → ℕ → ℕ
toy_burned l k = if k == 7 then 0 else l

-- The same token with a fraud that waits for its decision
abbrev disputed : Collection ℕ
disputed = record toy_collection {
  transfers = λ k. record no_info {
    initiator = 5;
    to = 6;
    public_key = 1 ∷ [];
    encrypted_password = 2 ∷ [];
    fraud_reported = true;
  };
}

disputed-IsWaiting : IsWaiting disputed
unfolding IsWaiting
disputed-IsWaiting j e = refl

toy-AreCallable : AreCallable toy_outside
toy-AreCallable = record { cancelled = λ receiver k. refl; detected = λ receiver k b. refl }

transfer-closable_example :
    (sender : ℕ) × (a : Call) × ((sender ≡ 5) ⊎ (sender ≡ 9))
    × (token_of a ≡ 7)
    × ((transact toy_outside (record { sender = sender; timestamp = 200 }) a disputed).0.transfers 7
        ≡ no_info)
transfer-closable_example =
    transfer-closable toy_outside 200 5 7 disputed toy-AreCallable disputed-IsWaiting refl refl
