-- ===== src/Contracts/Collection/Calls.antt =====
-- Every call of FilemarketCollectionV2.sol that moves a transfer, as a transaction.
use file_market.Base.{List, []}
use file_market.Base.Result.{Result, ok, err}
use file_market.Contracts.{Msg}
use file_market.Contracts.Collection.{
  Log, Outside, Collection, Call, init_transfer, draft_transfer, complete_transfer_draft,
  set_transfer_public_key, approve_transfer, finalize_transfer, report_fraud, apply_fraud_decision,
  cancel_transfer,
}
use file_market.Contracts.Collection.Sale.{
  init_transfer_call, draft_transfer_call, complete_transfer_draft_call,
  set_transfer_public_key_call, approve_transfer_call,
}
use file_market.Contracts.Collection.Ending.{
  finalize_transfer_call, report_fraud_call, apply_fraud_decision_call, cancel_transfer_call,
}

module _ {L : Type 0} (o : Outside L) (m : Msg) (c : Collection L) where
  unfoldable pub call : Call → Result (Collection L × List Log)
  unfolding init_transfer_call draft_transfer_call complete_transfer_draft_call
      set_transfer_public_key_call approve_transfer_call finalize_transfer_call report_fraud_call
      apply_fraud_decision_call cancel_transfer_call
  call (init_transfer token_id to data_ receiver) =
      init_transfer_call o m c token_id to data_ receiver
  call (draft_transfer token_id receiver) = draft_transfer_call o m c token_id receiver
  call (complete_transfer_draft token_id to public_key data_) =
      complete_transfer_draft_call o m c token_id to public_key data_
  call (set_transfer_public_key token_id public_key number) =
      set_transfer_public_key_call o m c token_id public_key number
  call (approve_transfer token_id password) = approve_transfer_call o m c token_id password
  call (finalize_transfer token_id) = finalize_transfer_call o m c token_id
  call (report_fraud token_id private_key) = report_fraud_call o m c token_id private_key
  call (apply_fraud_decision token_id approve) = apply_fraud_decision_call o m c token_id approve
  call (cancel_transfer token_id) = cancel_transfer_call o m c token_id

-- A call as a transaction: one that reverts changes nothing and emits nothing.
abbrev pub committed :
    {L : Type 0} → Collection L → Result (Collection L × List Log) → Collection L × List Log
committed c (ok r) = r
committed c (err message) = (c, [])

unfoldable pub transact :
    {L : Type 0} → Outside L → Msg → Call → Collection L → Collection L × List Log
unfolding call
transact o m k c = committed c (call o m c k)
